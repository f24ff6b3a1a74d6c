-- ===== src/Oauth/Store/Lookup.antt =====
-- Lookups and revocations of rows of oauth_refresh_tokens.
use fund_dashboard.Prelude.{
  length, tally, ap, ℕ, ◌<◌, ◌≡◌, Bool, true, false, not, ◌||◌, List, [], ◌∷◌, Option, none, some,
  refl, arith, leb, ◌==◌, if◌then◌else◌, Bytes, beq, beq_iff, All, subst, Bool-cases, inl, inr,
}
use fund_dashboard.Oauth.State.{pure, Approval, RefreshToken, Server, query}
use fund_dashboard.Oauth.State.Ensures.{IsGood, IsSteady, Ensures, Ensures-query}
use fund_dashboard.Oauth.State.Reaches.{Reaches, Reaches-query, IsGood-if}
use fund_dashboard.Oauth.Store.{
  has_client_consent, counts, find_token, usable, scanned, first_revoked, refresh_token_by_id,
  revoke_where, revoke_refresh_token,
}

pub by_id_answer :
    (id : Bytes) (now : ℕ) (w : Server)
    → IsGood (λ o. o ≡ usable now (find_token id w.tokens)) (refresh_token_by_id id now w).0
unfolding refresh_token_by_id
by_id_answer id now w =
    (Ensures-query (λ v. v.tokens ≡ w.tokens) (λ o. o ≡ usable now (find_token id w.tokens))
      (λ v. (usable now (find_token id v.tokens), v)) (λ v rest p. p) (λ v p. (p, rw p refl)) w
      refl).1

pub usable-some :
    (now : ℕ) (o : Option RefreshToken) (t : RefreshToken)
    → usable now o ≡ some t
    → (o ≡ some t) × (scanned t.revoked_at ≡ 0) × (now < t.expires_at)
unfolding usable
usable-some now none t e = absurd (ground arith)
usable-some now (some x) t e =
    elim (Bool-cases (not (scanned x.revoked_at == 0) || leb x.expires_at now)) [
      | inl bad ↦ absurd (ground (arith, bad, e))
      | inr fine ↦
          let same : some x ≡ some t = rw fine at e in
          let q : x ≡ t = ground (arith, same) in
          let (unrevoked, live) =
            subst (λ (y : RefreshToken). (scanned y.revoked_at ≡ 0) × (now < y.expires_at)) q
              (ground (arith, fine)) in
          (same, unrevoked, live)
    ]

-- A found row has its id, and what holds of all rows.
pub found_All {ℓ} :
    (P : RefreshToken → Type ℓ) (id : Bytes) (ts : List RefreshToken) (t : RefreshToken)
    → All P ts
    → find_token id ts ≡ some t
    → P t × (t.id ≡ id)
unfolding find_token
found_All P id [] t h e = absurd (ground arith)
found_All P id (x ∷ ts) t h e = elim (Bool-cases (beq x.id id)) [
  | inl here ↦
      let q : x ≡ t = ground arith in
      subst (λ (y : RefreshToken). P y × (y.id ≡ id)) q (h.0, (beq_iff x.id id).0 here)
  | inr there ↦ found_All P id ts t h.1 (ground arith)
]

-- A row that counts as revoked if it has the id.
abbrev pub IsSpentRow : Bytes → RefreshToken → Type 0
IsSpentRow id t = t.id ≡ id → 0 < scanned t.revoked_at

-- A time of revocation that is stored is not the zero time.
abbrev pub IsPast : Option ℕ → Type 0
IsPast none = Unit
IsPast (some n) = 0 < n

pub past_first : (o : Option ℕ) (now : ℕ) → 0 < now → IsPast o → 0 < scanned (first_revoked o now)
past_first none now h p = h
past_first (some n) now h p = p

scanned_first : (o : Option ℕ) (now : ℕ) → 0 < scanned o → 0 < scanned (first_revoked o now)
scanned_first none now h = absurd (omega (arith, h))
scanned_first (some n) now h = h

revoked_row :
    (b : Bool) (id : Bytes) (now : ℕ) (t : RefreshToken)
    → IsSpentRow id t
    → IsSpentRow id (if b then record t { revoked_at = first_revoked t.revoked_at now } else t)
revoked_row true id now t h e = scanned_first t.revoked_at now (h e)
revoked_row false id now t h e = h e

pub revoke_where-All :
    (id : Bytes) (p : RefreshToken → Bool) (now : ℕ) (ts : List RefreshToken)
    → All (IsSpentRow id) ts
    → All (IsSpentRow id) (revoke_where p now ts)
unfolding revoke_where
revoke_where-All id p now [] h = tt
revoke_where-All id p now (t ∷ ts) h =
    (revoked_row (p t) id now t h.0, revoke_where-All id p now ts h.1)

own_row :
    (b : Bool) (id : Bytes) (now : ℕ) (t : RefreshToken)
    → b ≡ beq t.id id
    → 0 < now
    → IsPast t.revoked_at
    → IsSpentRow id (if b then record t { revoked_at = first_revoked t.revoked_at now } else t)
own_row true id now t q h p e = past_first t.revoked_at now h p
own_row false id now t q h p e = absurd (ground (arith, q, (beq_iff t.id id).1 e))

revoke_id-All :
    (id : Bytes) (now : ℕ) (ts : List RefreshToken)
    → 0 < now
    → All (λ t. IsPast t.revoked_at) ts
    → All (IsSpentRow id) (revoke_where (λ t. beq t.id id) now ts)
unfolding revoke_where
revoke_id-All id now [] h a = tt
revoke_id-All id now (t ∷ ts) h a =
    (own_row (beq t.id id) id now t refl h a.0, revoke_id-All id now ts h a.1)

-- The revocation of an id that succeeds leaves no usable row with it, and the random source as it
-- was.
pub revoke_by_id-Reaches :
    (P : List (Option Bytes) → Type 0) (id : Bytes) (now : ℕ)
    → 0 < now
    → Reaches
        (λ w. All (λ t. IsPast t.revoked_at) w.tokens × P w.entropy)
        (λ w. All (IsSpentRow id) w.tokens × P w.entropy)
        (revoke_refresh_token id now)
unfolding revoke_refresh_token
revoke_by_id-Reaches P id now h =
    Reaches-query (λ w. All (λ t. IsPast t.revoked_at) w.tokens × P w.entropy)
      (λ w. All (IsSpentRow id) w.tokens × P w.entropy)
      (λ w. (tt {0}, record w { tokens = revoke_where (λ t. beq t.id id) now w.tokens }))
      (λ w rest p. p) (λ v p. (revoke_id-All id now v.tokens h p.0, p.1))

All-trivial : (ts : List RefreshToken) → All (λ t. Unit {0}) ts
All-trivial [] = tt
All-trivial (t ∷ ts) = (tt, All-trivial ts)

usable-has_id :
    (id : Bytes) (now : ℕ) (ts : List RefreshToken) (t : RefreshToken)
    → usable now (find_token id ts) ≡ some t
    → t.id ≡ id
usable-has_id id now ts t e =
    (found_All (λ x. Unit {0}) id ts t (All-trivial ts)
      (usable-some now (find_token id ts) t e).0).1

pub by_id-has_id :
    (P : Server → Type 0) (id : Bytes) (now : ℕ)
    → IsSteady P
    → Ensures P (λ o. (t : RefreshToken) → o ≡ some t → t.id ≡ id) (refresh_token_by_id id now)
unfolding refresh_token_by_id
by_id-has_id P id now st =
    Ensures-query P (λ o. (t : RefreshToken) → o ≡ some t → t.id ≡ id)
      (λ w. (usable now (find_token id w.tokens), w)) st
      (λ v p. (p, λ t e. usable-has_id id now v.tokens t e))

-- A client that has consented for some scopes.
abbrev pub IsConsented : Bytes → List Bytes → List Approval → Bool → Type 0
IsConsented client_id scopes rows b =
    b ≡ true → (0 < length scopes) × (tally (counts client_id scopes) rows ≡ length scopes)

pub has_consent_answer :
    (client_id : Bytes) (scopes : List Bytes) (w : Server)
    → IsGood (IsConsented client_id scopes w.approvals) (has_client_consent client_id scopes w).0
unfolding has_client_consent
has_consent_answer client_id scopes w =
    IsGood-if (IsConsented client_id scopes w.approvals) (length scopes == 0) (pure false)
      (query (λ v. (tally (counts client_id scopes) v.approvals == length scopes, v))) w
      (λ e. absurd (ground (arith, e)))
      (λ some_scope.
        (Ensures-query (λ v. v.approvals ≡ w.approvals) (IsConsented client_id scopes w.approvals)
          (λ v. (tally (counts client_id scopes) v.approvals == length scopes, v)) (λ v rest p. p)
          (λ v p. (p, λ e. ground (arith, some_scope, e, ap (tally (counts client_id scopes)) p))) w
          refl).1)
