-- ===== src/Oauth/Flow/Single.antt =====
-- Authorization codes of internal/oauth after they have been exchanged, under further calls.
use fund_dashboard.Prelude.{
  ℕ, ◌≡◌, ◌≢◌, List, [], ◌∷◌, Option, none, some, arith, Bytes, beq, beq_iff, All, sym, ap, subst,
  Bool-cases, inl, inr,
}
use fund_dashboard.Go.Base64.{url, encode}
use fund_dashboard.Go.Text.{trim_space}
use fund_dashboard.Oauth.State.{CodeEntry, Table, Server, success}
use fund_dashboard.Oauth.Codes.{redeem, put_code, sweep_expired_codes}
use fund_dashboard.Oauth.Codes.Redeem.{redeem_gone, redeem_dead, redeem_rest, sweep_dead}
use fund_dashboard.Oauth.Signing.{Signer}
use fund_dashboard.Oauth.Flow.{Service, TokenRequest, TokenResponse, exchange_code, Call, run}
use fund_dashboard.Oauth.Flow.Exchange.{exchange_code_sound}
use fund_dashboard.Oauth.Flow.Steps.{IsClosed, exchange_grant-keeps, run-keeps}

-- No read of the random source to come makes this code.
abbrev pub IsOther : Bytes → Option Bytes → Type 0
IsOther code none = Unit
IsOther code (some b) = encode url b ≢ code

-- A code that is not pending, and will not be issued.
abbrev pub IsDead : Bytes → Server → Type 0
IsDead code w = (w.codes code ≡ none) × All (IsOther code) w.entropy

drop_read :
    (code : Bytes) (es : List (Option Bytes)) (o : Option Bytes) (rest : List (Option Bytes))
    → es ≡ o ∷ rest
    → All (IsOther code) es
    → IsOther code o × All (IsOther code) rest
drop_read code es o rest e h = subst (λ (x : List (Option Bytes)). All (IsOther code) x) e h

put_other :
    (code : Bytes) (b : Bytes) (t : ℕ) (e : CodeEntry) (m : Table CodeEntry)
    → encode url b ≢ code
    → m code ≡ none
    → put_code (encode url b) e (sweep_expired_codes t m) code ≡ none
put_other code b t e m n h = ground (arith, beq_iff code (encode url b), sweep_dead t m code h)

IsDead-IsClosed :
    (c : Signer) (code : Bytes) → IsClosed c.sha256 (IsDead code) (λ b. encode url b ≢ code)
IsDead-IsClosed c code = record {
  kept = record {
    steady = λ w rest p. p;
    random = λ w o rest e p. (p.0, (drop_read code w.entropy o rest e p.1).1);
    fresh = λ w b rest e p. (drop_read code w.entropy (some b) rest e p.1).0;
    revoked = λ q t w p. p;
    swept = λ q w p. p;
    inserted = λ b t w q e p. p;
  };
  redeemed = λ t other w p. (
    redeem_dead t other code w p.0,
    subst (λ (es : List (Option Bytes)). All (IsOther code) es) (sym (redeem_rest t other w).0) p.1,
  );
  issued = λ b t e w q p. (put_other code b t e w.codes q p.0, p.1);
}

-- What a code exchange leaves is a state where the code is dead.
exchange-IsDead :
    (c : Signer) (s : Service) (t now : ℕ) (issuer : Bytes) (req : TokenRequest) (w : Server)
    → trim_space req.code ≢ []
    → All (IsOther req.code) w.entropy
    → IsDead req.code (exchange_code c s t now issuer req w).1
unfolding exchange_code
exchange-IsDead c s t now issuer req w given fresh =
    elim (Bool-cases (beq (trim_space req.code) [])) [
      | inl empty ↦ absurd (given ((beq_iff (trim_space req.code) []).0 empty))
      | inr names ↦
          let taken = redeem t req.code w in
          rw names
            (exchange_grant-keeps c s (IsDead req.code) (λ b. encode url b ≢ req.code)
              (IsDead-IsClosed c req.code) now issuer req taken.0 taken.1
              (
                redeem_gone t req.code w,
                subst (λ (es : List (Option Bytes)). All (IsOther req.code) es)
                    (sym (redeem_rest t req.code w).0) fresh,
              )).0
    ]

-- A code is used up by the first exchange that names it, whatever its outcome: after any further
-- calls, whatever fails in them, no exchange of the code answers tokens, at any times and for any
-- request; for a code that the random source does not come to make again.
pub code_once :
    (c : Signer) (s : Service) (t now t' now' : ℕ) (issuer issuer' : Bytes)
    (req req' : TokenRequest) (calls : List Call) (w : Server) (r : TokenResponse)
    → trim_space req.code ≢ []
    → All (IsOther req.code) w.entropy
    → req'.code ≡ req.code
    → (exchange_code c s t' now' issuer' req'
        (run c s calls (exchange_code c s t now issuer req w).1)).0
      ≢ success r
code_once c s t now t' now' issuer issuer' req req' calls w r given fresh same again =
    let v = run c s calls (exchange_code c s t now issuer req w).1 in
    let dead =
      run-keeps c s (IsDead req.code) (λ b. encode url b ≢ req.code) (IsDead-IsClosed c req.code)
        calls (exchange_code c s t now issuer req w).1
        (exchange-IsDead c s t now issuer req w given fresh) in
    let pending = exchange_code_sound c s t' now' issuer' req' v r again in
    absurd (ground (arith, pending.1, ap v.codes same, dead.0))
