-- ===== src/Oauth/Consent/Final.antt =====
-- `consentStore.Finalize` of internal/oauth/consent.go, called again with the same token.
use fund_dashboard.Prelude.{
  ℕ, ◌<◌, ◌≡◌, ◌≢◌, Bool, true, false, not, Option, some, refl, arith, leb, if◌then◌else◌, Bytes,
  beq, beq_iff, beq_refl, Bool-cases, inl, inr, ap, sym, ◌∙◌, [],
}
use fund_dashboard.Oauth.State.{
  Grant, ConsentEntry, Server, Outcome, success, failed, Flow, ◌>>=◌, pure,
}
use fund_dashboard.Oauth.Consent.{
  live_screen, sweep_screens, keep_redirect, finalize_entry, finalize,
}

-- The entry of a token remembers the redirect, and expires as before.
IsDecided : Bytes → Bytes → ℕ → Server → Type 0
IsDecided token redirect expires v =
    (e : ConsentEntry) × (v.screens token ≡ some e)
    × (e.redirect ≡ redirect)
    × (e.expires_at ≡ expires)

built :
    (token : Bytes) (e : ConsentEntry) (r : Outcome Bytes) (u v : Server) (redirect : Bytes)
    → elim r as (λ x. Outcome (Option Bytes) × Server) [
      | success a ↦ keep_redirect token e a u
      | failed f ↦ (failed f, u)
    ]
      ≡ (success (some redirect), v)
    → IsDecided token redirect e.expires_at v
unfolding keep_redirect IsDecided
built token e (success a) u v redirect q = (
  record e { redirect = a },
  ap (λ (x : Outcome (Option Bytes) × Server). x.1.screens token) (sym q)
      ∙ rw (beq_refl token) refl,
  ground (arith, ap (λ (x : Outcome (Option Bytes) × Server). x.0) q),
  refl,
)
built token e (failed f) u v redirect q =
    absurd (ground (arith, ap (λ (x : Outcome (Option Bytes) × Server). x.0) q))

module _ (build : Grant → Bytes → Flow Bytes) (token : Bytes) where
  IsDecided-go :
      (b : Bool) (e : ConsentEntry) (w v : Server) (redirect : Bytes)
      → w.screens token ≡ some e
      → (if b then pure (some e.redirect) else build e.grant e.state >>= keep_redirect token e) w
        ≡ (success (some redirect), v)
      → IsDecided token redirect e.expires_at v
  unfolding IsDecided
  IsDecided-go true e w v redirect h q = (
    e,
    ap (λ (x : Outcome (Option Bytes) × Server). x.1.screens token) (sym q) ∙ h,
    ground (arith, ap (λ (x : Outcome (Option Bytes) × Server). x.0) q),
    refl,
  )
  IsDecided-go false e w v redirect h q =
      built token e (build e.grant e.state w).0 (build e.grant e.state w).1 v redirect q

  live_go :
      (t : ℕ) (o : Option ConsentEntry) (e : ConsentEntry) (w v : Server) (redirect : Bytes)
      → w.screens token ≡ live_screen t (some e)
      → finalize_entry build token (live_screen t (some e)) w ≡ (success (some redirect), v)
      → IsDecided token redirect e.expires_at v
  unfolding live_screen finalize_entry
  live_go t o e w v redirect h q = elim (Bool-cases (leb e.expires_at t)) [
    | inl old ↦
        absurd (ground (arith, ap (λ (x : Outcome (Option Bytes) × Server). x.0) (rw old at q)))
    | inr live ↦ IsDecided-go (not (beq e.redirect [])) e w v redirect (rw live at h) (rw live at q)
  ]

  finalize-IsDecided :
      (t : ℕ) (e : ConsentEntry) (w v : Server) (redirect : Bytes)
      → w.screens token ≡ some e
      → finalize build t token w ≡ (success (some redirect), v)
      → IsDecided token redirect e.expires_at v
  unfolding finalize sweep_screens
  finalize-IsDecided t e w v redirect h q =
      live_go t (some e) e (sweep_screens t w) v redirect (rw h refl) (rw h at q)

  replay_entry :
      (t : ℕ) (e : ConsentEntry) (redirect : Bytes) (w : Server)
      → t < e.expires_at
      → e.redirect ≡ redirect
      → redirect ≢ []
      → finalize_entry build token (live_screen t (some e)) w ≡ (success (some redirect), w)
  unfolding live_screen finalize_entry
  replay_entry t e redirect w lt same full =
      let live : leb e.expires_at t ≡ false = ground arith in
      let given : beq redirect [] ≡ false = elim (Bool-cases (beq redirect [])) [
        | inl empty ↦ absurd (full ((beq_iff redirect []).0 empty))
        | inr given ↦ given
      ] in
      rw (live, same, given) refl

-- When a decision on a consent token has answered a redirect that is not empty, any further
-- decision of the token before it expires answers the same redirect, and changes nothing but the
-- expired screens.
pub finalize_once :
    (build build' : Grant → Bytes → Flow Bytes) (t t' : ℕ) (token redirect : Bytes)
    (e : ConsentEntry) (w v : Server)
    → w.screens token ≡ some e
    → finalize build t token w ≡ (success (some redirect), v)
    → redirect ≢ []
    → t' < e.expires_at
    → finalize build' t' token v ≡ (success (some redirect), sweep_screens t' v)
unfolding finalize IsDecided
finalize_once build build' t t' token redirect e w v h q full lt =
    let (d, there, same, expires) = finalize-IsDecided build token t e w v redirect h q in
    rw there (replay_entry build' token t' d redirect (sweep_screens t' v) (omega arith) same full)
