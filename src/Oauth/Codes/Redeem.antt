-- ===== src/Oauth/Codes/Redeem.antt =====
-- `codeStore.Redeem` of internal/oauth/pkce.go.
use fund_dashboard.Prelude.{ℕ, ◌<◌, ◌≡◌, Option, none, some, arith, refl, Bytes, beq_refl}
use fund_dashboard.Oauth.State.{Grant, CodeEntry, Table, Server}
use fund_dashboard.Oauth.Codes.{sweep_expired_codes, live_code, redeem, redeem_entry}

entry_some :
    (now : ℕ) (code : Bytes) (o : Option CodeEntry) (w : Server) (g : Grant)
    → (redeem_entry now code o w).0 ≡ some g
    → (e : CodeEntry) × (o ≡ some e) × (now < e.expires_at) × (e.grant ≡ g)
unfolding redeem_entry live_code
entry_some now code none w g h = absurd (ground arith)
entry_some now code (some e) w g h = (e, refl, ground arith, ground arith)

-- A redeemed grant is that of a pending entry which has not expired.
pub redeem-some :
    (now : ℕ) (code : Bytes) (w : Server) (g : Grant)
    → (redeem now code w).0 ≡ some g
    → (e : CodeEntry) × (w.codes code ≡ some e) × (now < e.expires_at) × (e.grant ≡ g)
unfolding redeem
redeem-some now code w g h = entry_some now code (w.codes code) w g h

entry_gone :
    (now : ℕ) (code : Bytes) (o : Option CodeEntry) (w : Server)
    → w.codes code ≡ o
    → (redeem_entry now code o w).1.codes code ≡ none
unfolding redeem_entry
entry_gone now code none w h = h
entry_gone now code (some e) w h = rw (beq_refl code) refl

pub redeem_gone : (now : ℕ) (code : Bytes) (w : Server) → (redeem now code w).1.codes code ≡ none
unfolding redeem
redeem_gone now code w = entry_gone now code (w.codes code) w refl

entry_dead :
    (now : ℕ) (other code : Bytes) (o : Option CodeEntry) (w : Server)
    → w.codes code ≡ none
    → (redeem_entry now other o w).1.codes code ≡ none
unfolding redeem_entry
entry_dead now other code none w h = h
entry_dead now other code (some e) w h = ground (arith, h)

-- A code that is not pending is not so after the redemption of any code.
pub redeem_dead :
    (now : ℕ) (other code : Bytes) (w : Server)
    → w.codes code ≡ none
    → (redeem now other w).1.codes code ≡ none
unfolding redeem
redeem_dead now other code w h = entry_dead now other code (w.codes other) w h

entry_rest :
    (now : ℕ) (code : Bytes) (o : Option CodeEntry) (w : Server)
    → ((redeem_entry now code o w).1.entropy ≡ w.entropy)
      × ((redeem_entry now code o w).1.tokens ≡ w.tokens)
unfolding redeem_entry
entry_rest now code none w = (refl, refl)
entry_rest now code (some e) w = (refl, refl)

pub redeem_rest :
    (now : ℕ) (code : Bytes) (w : Server)
    → ((redeem now code w).1.entropy ≡ w.entropy) × ((redeem now code w).1.tokens ≡ w.tokens)
unfolding redeem
redeem_rest now code w = entry_rest now code (w.codes code) w

pub sweep_dead :
    (now : ℕ) (m : Table CodeEntry) (code : Bytes)
    → m code ≡ none
    → sweep_expired_codes now m code ≡ none
unfolding sweep_expired_codes live_code
sweep_dead now m code h = rw h refl
