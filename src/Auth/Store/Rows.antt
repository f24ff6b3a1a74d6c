-- ===== src/Auth/Store/Rows.antt =====
-- What the statements on auth_sessions do to the rows.
use fund_dashboard.Auth.Store.{raise, ◌>>=◌}
use fund_dashboard.Prelude.{
  ℕ, ◌≡◌, ◌≢◌, ◌⊎◌, inl, inr, Bool, true, false, List, [], ◌∷◌, ◌++◌, none, some, refl, arith,
  if◌then◌else◌, Bytes, beq_iff, keep, All, Bool-cases, has_prefix, subst,
}
use fund_dashboard.Auth.Store.{
  Err, Result, ok, err, Session, World, Exec, find, has_id, touch, like, like_any,
}

-- A found row is a row of the table, with the id that was asked for.
pub find-has_id : (id : Bytes) (ss : List Session) (s : Session) → find id ss ≡ some s → s.id ≡ id
unfolding find
find-has_id id [] s e = ground arith
find-has_id id (x ∷ ss) s e = ground (arith, find-has_id id ss s, beq_iff x.id id)

pub All-find {ℓ} :
    (P : Session → Type ℓ) (id : Bytes) (ss : List Session) (s : Session)
    → All P ss
    → find id ss ≡ some s
    → P s
unfolding find
All-find P id [] s h e = absurd (ground arith)
All-find P id (x ∷ ss) s h e = elim (Bool-cases (has_id id x)) [
  | inl here ↦ let q : x ≡ s = ground arith in subst P q h.0
  | inr there ↦ All-find P id ss s h.1 (ground arith)
]

-- Lookup after a deletion: the row, unless it was removed.
pub find-keep :
    (id : Bytes) (p : Session → Bool) (ss : List Session) (s : Session)
    → find id ss ≡ some s
    → p s ≡ true
    → find id (keep p ss) ≡ some s
unfolding find
find-keep id p [] s e h = ground arith
find-keep id p (x ∷ ss) s e h = ground (arith, find-keep id p ss s)

-- A lookup that finds nothing still finds nothing.
pub find-keep-none :
    (id : Bytes) (p : Session → Bool) (ss : List Session)
    → find id ss ≡ none
    → find id (keep p ss) ≡ none
unfolding find
find-keep-none id p [] e = refl
find-keep-none id p (x ∷ ss) e = ground (arith, find-keep-none id p ss)

pub find-touch :
    (id : Bytes) (t x : ℕ) (ss : List Session) (s : Session)
    → find id ss ≡ some s
    → find id (touch id t x ss) ≡ some (record s { last_seen_at = t; expires_at = x })
unfolding find touch
find-touch id t x [] s e = ground arith
find-touch id t x (y ∷ ss) s e = ground (arith, find-touch id t x ss s)

pub find-append :
    (id : Bytes) (ss : List Session) (s : Session)
    → find id ss ≡ none
    → s.id ≡ id
    → find id (ss ++ s ∷ []) ≡ some s
unfolding find
find-append id [] s e h = ground (arith, beq_iff s.id id)
find-append id (x ∷ ss) s e h = ground (arith, find-append id ss s)

like_all : (s : Bytes) → like_any (like []) s ≡ true
unfolding like
like_all [] = refl
like_all (c ∷ s) = ground (arith, like_all s)

-- No byte of the text is a wildcard of LIKE.
abbrev pub IsPlain : Bytes → Type 0
IsPlain = All (λ c. (c ≢ b'%') × (c ≢ b'_'))

pub like-prefix : (p s : Bytes) → IsPlain p → like (p ++ b'%' ∷ []) s ≡ has_prefix p s
unfolding like has_prefix
like-prefix [] s h = like_all s
like-prefix (c ∷ p) [] h = ground arith
like-prefix (c ∷ p) (d ∷ s) h = ground (arith, like-prefix p s h.1)

pub Result-cases : {A : Type 0} (r : Result A) → ((a : A) × (r ≡ ok a)) ⊎ ((e : Err) × (r ≡ err e))
Result-cases (ok a) = inl (a, refl)
Result-cases (err e) = inr (e, refl)

-- An answer has passed the guard.
pub if_ok :
    {A : Type 0} (b : Bool) (x : Err) (m : Exec A) (w : World) (a : A)
    → ((if b then raise x else m) w).0 ≡ ok a
    → (b ≡ false) × ((if b then raise x else m) ≡ m)
if_ok true x m w a e = absurd (ground arith)
if_ok false x m w a e = (refl, refl)

-- An answer of a chain has passed its first step.
pub bind_ok :
    {A B : Type 0} (m : Exec A) (f : A → Exec B) (w : World) (b : B)
    → ((m >>= f) w).0 ≡ ok b
    → (a : A) × ((m w).0 ≡ ok a) × ((m >>= f) w ≡ f a (m w).1)
bind_ok m f w b e = elim (Result-cases (m w).0) [
  | inl (a, q) ↦ (a, q, rw (q, ◌>>=◌))
  | inr (x, q) ↦ absurd (ground (arith, q))
]
