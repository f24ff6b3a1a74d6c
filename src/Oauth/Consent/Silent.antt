-- ===== src/Oauth/Consent/Silent.antt =====
-- When an authorization needs no click: `consentRequired` of internal/oauth/flow.go.
use fund_dashboard.Prelude.{
  Bool-cases, inl, inr, ◌<◌, ◌≤◌, ◌≡◌, Bool, true, false, not, List, [], ◌∷◌, refl, arith, Bytes,
  beq, beq_iff, All, tally, if◌then◌else◌, sym, ◌∙◌,
}
use fund_dashboard.Oauth.State.{Approval, Server, success, Flow, ◌>>=◌, pure}
use fund_dashboard.Oauth.State.Ensures.{IsGood}
use fund_dashboard.Oauth.State.Reaches.{IsGood-bind, IsGood-if}
use fund_dashboard.Oauth.Store.{is_approval, counts, mentions, has_client_consent}
use fund_dashboard.Oauth.Store.Lookup.{IsConsented, has_consent_answer}
use fund_dashboard.Oauth.Flow.{Service, scope_read}
use fund_dashboard.Oauth.Flow.Exchange.{good}
use fund_dashboard.Oauth.Consent.{only_read, consent_required}

only_read-All : (xs : List Bytes) → only_read xs ≡ true → All (λ x. x ≡ scope_read) xs
unfolding only_read
only_read-All [] h = tt
only_read-All (x ∷ xs) h = ground (arith, h, beq_iff x scope_read, only_read-All xs)

mentions_read :
    (xs : List Bytes) (y : Bytes)
    → All (λ x. x ≡ scope_read) xs
    → mentions xs y ≡ true
    → beq y scope_read ≡ true
unfolding mentions
mentions_read [] y h m = absurd (ground arith)
mentions_read (x ∷ xs) y h m = elim (Bool-cases (beq x y)) [
  | inl here ↦ (beq_iff y scope_read).1 (sym ((beq_iff x y).0 here) ∙ h.0)
  | inr there ↦ mentions_read xs y h.1 (ground (arith, there, m))
]

counts-le :
    (client_id : Bytes) (xs : List Bytes) (rows : List Approval)
    → All (λ x. x ≡ scope_read) xs
    → tally (counts client_id xs) rows ≤ tally (is_approval client_id scope_read) rows
counts-le client_id xs [] h = omega arith
counts-le client_id xs (a ∷ rows) h =
    ground (arith, mentions_read xs a.scope h, counts-le client_id xs rows h)

-- No click is needed.
abbrev pub IsSilent : Service → Bytes → List Bytes → List Approval → Bool → Type 0
IsSilent s client_id scopes rows required =
    required ≡ false
    → (s.options.auto_approve ≡ true)
      × All (λ x. x ≡ scope_read) scopes
      × (0 < tally (is_approval client_id scope_read) rows)

pub required-IsSilent :
    (s : Service) (client_id : Bytes) (scopes : List Bytes) (w : Server)
    → IsGood (IsSilent s client_id scopes w.approvals) (consent_required s client_id scopes w).0
unfolding consent_required
required-IsSilent s client_id scopes w =
    let R = IsSilent s client_id scopes w.approvals in
    let ask : Flow Bool = has_client_consent client_id scopes >>= λ approved. pure (not approved) in
    let stored : Flow Bool = if not s.has_store then pure true else ask in
    let readers : Flow Bool = if not (only_read scopes) then pure true else stored in
    IsGood-if R (not s.options.auto_approve) (pure true) readers w (λ e. absurd (ground (arith, e)))
      (λ auto.
        IsGood-if R (not (only_read scopes)) (pure true) stored w (λ e. absurd (ground (arith, e)))
          (λ read.
            IsGood-if R (not s.has_store) (pure true) ask w (λ e. absurd (ground (arith, e)))
              (λ there.
                IsGood-bind (IsConsented client_id scopes w.approvals) R
                  (has_client_consent client_id scopes) (λ approved. pure (not approved)) w
                  (has_consent_answer client_id scopes w)
                  (λ approved q e.
                    let h = only_read-All scopes (ground (arith, read)) in
                    let (some_scope, full) = q (ground (arith, e)) in
                    (
                      ground (arith, auto),
                      h,
                      omega (arith, some_scope, full, counts-le client_id scopes w.approvals h),
                    )))))

-- An authorization goes without a click only where that is configured, for read access alone, and
-- for a client that has an approval of read access on record.
pub silent_sound :
    (s : Service) (client_id : Bytes) (scopes : List Bytes) (w : Server)
    → (consent_required s client_id scopes w).0 ≡ success false
    → (s.options.auto_approve ≡ true)
      × All (λ x. x ≡ scope_read) scopes
      × (0 < tally (is_approval client_id scope_read) w.approvals)
silent_sound s client_id scopes w e =
    good (IsSilent s client_id scopes w.approvals) (consent_required s client_id scopes w).0 false
      (required-IsSilent s client_id scopes w) e refl
