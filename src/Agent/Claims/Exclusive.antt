-- ===== src/Agent/Claims/Exclusive.antt =====
-- A state of the claims of internal/agentops/service.go where no confirmation has two winners, and
-- the changes of it.
use fund_dashboard.Prelude.{
  ℕ, suc, ◌<◌, ◌≡◌, ◌≢◌, Bool, true, false, Option, none, some, refl, arith, ◌==◌, ap, sym, subst,
  ◌∙◌, Bool-cases, inl, inr, ==_iff,
}
use fund_dashboard.Agent.Confirmations.{Record, is_used}
use fund_dashboard.Agent.Claims.{
  Phase, begins, verified, claimed, replied, lost, System, set_phase, set_row,
}

-- The claim has succeeded.
abbrev pub is_won : Phase → Bool
is_won begins = false
is_won (verified r) = false
is_won (claimed r) = true
is_won (replied r saved) = true
is_won (lost e) = false

abbrev pub is_used_row : Option Record → Bool
is_used_row none = false
is_used_row (some r) = is_used r.used_at

abbrev pub is_row : Option Record → Bool
is_row none = false
is_row (some r) = true

-- The confirmation that each thread claims is given by `ids`.
pub record IsExclusive (ids : ℕ → ℕ) (sys : System) : Type 0 where
  pub below : (k : ℕ) → is_row (sys.rows k) ≡ true → k < sys.next_id
  pub used : (i : ℕ) → is_won (sys.phases i) ≡ true → is_used_row (sys.rows (ids i)) ≡ true
  pub single :
      (i j : ℕ)
      → i ≢ j
      → ids i ≡ ids j
      → is_won (sys.phases i) ≡ true
      → is_won (sys.phases j) ≡ false

used-is_row : (o : Option Record) → is_used_row o ≡ true → is_row o ≡ true
used-is_row none h = h
used-is_row (some r) h = refl

module _ (ids : ℕ → ℕ) where
  -- No new winner, and the same table.
  pub no_winner :
      (sys : System) (phases : ℕ → Phase) (n : ℕ)
      → ((j : ℕ) → is_won (phases j) ≡ true → is_won (sys.phases j) ≡ true)
      → IsExclusive ids sys
      → IsExclusive ids (record sys { phases = phases; audit_rows = n })
  no_winner sys phases n h x = record {
    below = x.below;
    used = λ i w. x.used i (h i w);
    single = λ i j d e w. elim (Bool-cases (is_won (phases j))) [
      | inl w' ↦ absurd (ground (arith, x.single i j d e (h i w), h j w'))
      | inr l ↦ l
    ];
  }

  pub set_lost :
      (sys : System) (i : ℕ) (p : Phase)
      → is_won p ≡ false
      → (j : ℕ) → is_won (set_phase i p sys.phases j) ≡ true
      → is_won (sys.phases j) ≡ true
  set_lost sys i p l j w = ground (arith, l, w)

  pub set_kept :
      (sys : System) (i : ℕ) (p : Phase)
      → is_won (sys.phases i) ≡ true
      → (j : ℕ) → is_won (set_phase i p sys.phases j) ≡ true
      → is_won (sys.phases j) ≡ true
  set_kept sys i p l j w = elim (Bool-cases (j == i)) [
    | inl here ↦ subst (λ (y : ℕ). is_won (sys.phases y) ≡ true) (sym ((==_iff j i).0 here)) l
    | inr there ↦ ground (arith, there, w)
  ]

  other_won :
      (sys : System) (i j : ℕ) (p : Phase)
      → (j == i) ≡ false
      → is_won (set_phase i p sys.phases j) ≡ true
      → is_won (sys.phases j) ≡ true
  other_won sys i j p e w = rw e at w

  -- No thread has won a row that is not used.
  free_loser :
      (sys : System) (k j : ℕ)
      → is_used_row (sys.rows k) ≡ false
      → IsExclusive ids sys
      → ids j ≡ k
      → is_won (sys.phases j) ≡ false
  free_loser sys k j free x e = elim (Bool-cases (is_won (sys.phases j))) [
    | inl w ↦
        let u : is_used_row (sys.rows k) ≡ true =
          subst (λ (y : ℕ). is_used_row (sys.rows y) ≡ true) e (x.used j w) in
        absurd (ground (arith, free, u))
    | inr l ↦ l
  ]

  single_go :
      (sys : System) (i j l : ℕ) (r : Record)
      → is_used_row (sys.rows (ids i)) ≡ false
      → IsExclusive ids sys
      → j ≢ l
      → ids j ≡ ids l
      → is_won (set_phase i (claimed r) sys.phases j) ≡ true
      → is_won (set_phase i (claimed r) sys.phases l) ≡ false
  single_go sys i j l r free x d e w = elim (Bool-cases (l == i)) [
    | inl here ↦
        let same : l ≡ i = (==_iff l i).0 here in
        let apart : (j == i) ≡ false = ground (arith, d, same) in
        let won = other_won sys i j (claimed r) apart w in
        absurd (ground (arith, won, free_loser sys (ids i) j free x (e ∙ ap ids same)))
    | inr there ↦ rw there (elim (Bool-cases (j == i)) [
      | inl first ↦ free_loser sys (ids i) l free x (sym e ∙ ap ids ((==_iff j i).0 first))
      | inr apart ↦ x.single j l d e (other_won sys i j (claimed r) apart w)
    ])
  ]

  used_go :
      (sys : System) (i j : ℕ) (r marked : Record)
      → is_used marked.used_at ≡ true
      → IsExclusive ids sys
      → is_won (set_phase i (claimed r) sys.phases j) ≡ true
      → is_used_row (set_row (ids i) marked sys.rows (ids j)) ≡ true
  used_go sys i j r marked u x w = elim (Bool-cases (ids j == ids i)) [
    | inl here ↦ rw here u
    | inr there ↦
        let apart : (j == i) ≡ false = elim (Bool-cases (j == i)) [
          | inl first ↦
              let e : ids j ≡ ids i = ap ids ((==_iff j i).0 first) in
              absurd (ground (arith, there, (==_iff (ids j) (ids i)).1 e))
          | inr apart ↦ apart
        ] in
        rw there (x.used j (other_won sys i j (claimed r) apart w))
  ]

  below_go :
      (sys : System) (n k t : ℕ) (r : Record)
      → k < n
      → ((t : ℕ) → is_row (sys.rows t) ≡ true → t < n)
      → is_row (set_row k r sys.rows t) ≡ true
      → t < n
  below_go sys n k t r lt h e = elim (Bool-cases (t == k)) [
    | inl here ↦ omega (arith, lt, (==_iff t k).0 here)
    | inr there ↦ h t (rw there at e)
  ]

  -- The first mark of a row.
  pub new_winner :
      (sys : System) (i : ℕ) (r marked : Record)
      → is_used marked.used_at ≡ true
      → is_used_row (sys.rows (ids i)) ≡ false
      → is_row (sys.rows (ids i)) ≡ true
      → IsExclusive ids sys
      → IsExclusive ids (record sys {
        rows = set_row (ids i) marked sys.rows;
        phases = set_phase i (claimed r) sys.phases;
      })
  new_winner sys i r marked u free row x = record {
    below = λ k h. below_go sys sys.next_id (ids i) k marked (x.below (ids i) row) x.below h;
    used = λ j w. used_go sys i j r marked u x w;
    single = λ j l d e w. single_go sys i j l r free x d e w;
  }

  kept_used :
      (sys : System) (k : ℕ) (r : Record)
      → IsExclusive ids sys
      → is_used_row (sys.rows k) ≡ true
      → is_used_row (set_row sys.next_id r sys.rows k) ≡ true
  kept_used sys k r x u = elim (Bool-cases (k == sys.next_id)) [
    | inl here ↦
        let lt : k < sys.next_id = x.below k (used-is_row (sys.rows k) u) in
        absurd (omega (arith, lt, (==_iff k sys.next_id).0 here))
    | inr there ↦ rw there u
  ]

  pub new_row :
      (sys : System) (r : Record) (n : ℕ)
      → IsExclusive ids sys
      → IsExclusive ids (record sys {
        rows = set_row sys.next_id r sys.rows;
        next_id = suc sys.next_id;
        audit_rows = n;
      })
  new_row sys r n x = record {
    below = λ k h.
        below_go sys (suc sys.next_id) sys.next_id k r (omega arith)
          (λ t q. omega (arith, x.below t q)) h;
    used = λ i w. kept_used sys (ids i) r x (x.used i w);
    single = x.single;
  }
