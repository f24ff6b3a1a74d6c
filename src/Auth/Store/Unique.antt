-- ===== src/Auth/Store/Unique.antt =====
-- The ids of auth_sessions, and properties of its rows, under each statement.
use fund_dashboard.Prelude.{
  ℕ, ◌≡◌, Bool, false, List, [], ◌∷◌, ◌++◌, none, some, refl, arith, Bytes, beq_iff, keep, All,
  Bool-cases, inl, inr, sym, subst,
}
use fund_dashboard.Auth.Store.{Session, find, has_id, touch, touched}
use fund_dashboard.Auth.Store.Rows.{find-keep-none}

abbrev pub IsUnique : List Session → Type 0
IsUnique [] = Unit
IsUnique (s ∷ ss) = (find s.id ss ≡ none) × IsUnique ss

pub IsUnique-keep : (p : Session → Bool) (ss : List Session) → IsUnique ss → IsUnique (keep p ss)
IsUnique-keep p [] h = tt
IsUnique-keep p (s ∷ ss) h = ground (arith, find-keep-none s.id p ss h.0, IsUnique-keep p ss h.1)

find-append_none :
    (id : Bytes) (ss : List Session) (s : Session)
    → find id ss ≡ none
    → has_id id s ≡ false
    → find id (ss ++ s ∷ []) ≡ none
unfolding find
find-append_none id [] s e h = ground arith
find-append_none id (x ∷ ss) s e h = ground (arith, find-append_none id ss s)

has_id_sym : (x s : Session) (ss : List Session) → find s.id (x ∷ ss) ≡ none → has_id x.id s ≡ false
unfolding find
has_id_sym x s ss e = ground (arith, beq_iff x.id s.id, beq_iff s.id x.id)

find_tail :
    (id : Bytes) (x : Session) (ss : List Session) → find id (x ∷ ss) ≡ none → find id ss ≡ none
unfolding find
find_tail id x ss e = ground arith

pub IsUnique-append :
    (ss : List Session) (s : Session) → IsUnique ss → find s.id ss ≡ none → IsUnique (ss ++ s ∷ [])
IsUnique-append [] s h e = (unfold find in refl, tt)
IsUnique-append (x ∷ ss) s h e = (
  find-append_none x.id ss s h.0 (has_id_sym x s ss e),
  IsUnique-append ss s h.1 (find_tail s.id x ss e),
)

find-touch-none :
    (id j : Bytes) (t x : ℕ) (ss : List Session)
    → find j ss ≡ none
    → find j (touch id t x ss) ≡ none
unfolding find touch
find-touch-none id j t x [] e = refl
find-touch-none id j t x (s ∷ ss) e = ground (arith, find-touch-none id j t x ss)

touched_id : (id : Bytes) (t x : ℕ) (s : Session) → (touched id t x s).id ≡ s.id
touched_id id t x s = ground arith

pub IsUnique-touch :
    (id : Bytes) (t x : ℕ) (ss : List Session) → IsUnique ss → IsUnique (touch id t x ss)
unfolding touch
IsUnique-touch id t x [] h = tt
IsUnique-touch id t x (s ∷ ss) h =
    (rw touched_id (find-touch-none id s.id t x ss h.0), IsUnique-touch id t x ss h.1)

-- A touch of an id that no row has changes nothing.
pub touch_absent :
    (id : Bytes) (t x : ℕ) (ss : List Session) → find id ss ≡ none → touch id t x ss ≡ ss
unfolding find touch
touch_absent id t x [] e = refl
touch_absent id t x (s ∷ ss) e = ground (arith, touch_absent id t x ss)

-- With unique ids a touch keeps a property of all rows that it gives to the row that it changes.
pub All-touch {ℓ} :
    (P : Session → Type ℓ) (id : Bytes) (t x : ℕ) (ss : List Session) (s : Session)
    → IsUnique ss
    → find id ss ≡ some s
    → P (record s { last_seen_at = t; expires_at = x })
    → All P ss
    → All P (touch id t x ss)
unfolding find touch
All-touch P id t x [] s u e p h = tt
All-touch P id t x (y ∷ ss) s u e p h = elim (Bool-cases (has_id id y)) [
  | inl here ↦
      let q : touched id t x y ≡ record s { last_seen_at = t; expires_at = x } = ground arith in
      let r : touch id t x ss ≡ ss = touch_absent id t x ss (ground (arith, beq_iff y.id id)) in
      (subst P (sym q) p, subst (All P) (sym r) h.1)
  | inr there ↦
      let q : touched id t x y ≡ y = ground arith in
      (subst P (sym q) h.0, All-touch P id t x ss s u.1 (ground arith) p h.1)
]
