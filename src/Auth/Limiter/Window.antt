-- ===== src/Auth/Limiter/Window.antt =====
-- The counting window of one key in internal/auth/limiter.go.
use mathlib.Core.List.{append_assoc, append-nil}
use fund_dashboard.Prelude.{
  ℕ, ◌+◌, ◌<◌, ◌≡◌, String, List, [], ◌∷◌, ◌++◌, Option, none, some, arith, length, eq_refl, refl,
  leb, Bool-cases, inl, inr, All, map, ap, subst, leb→le, length-append, sym, ◌∙◌, if◌then◌else◌,
}
use fund_dashboard.Auth.Limiter.{
  Limiter, escalated_lockout, prune, collect, prune_stale_locked, in_window, record_failure, trip,
  failure, success, Call, fails, step, run, or_nil,
}

-- Each time comes before all earlier ones leave the window.
abbrev pub Within : ℕ → List ℕ → List ℕ → Type 0
Within w past [] = Unit
Within w past (t ∷ ts) = All (λ u. t < u + w) past × Within w (past ++ t ∷ []) ts

prune_within : (now w : ℕ) (ts : List ℕ) → All (λ u. now < u + w) ts → prune now w ts ≡ ts
unfolding prune
prune_within now w [] h = refl
prune_within now w (t ∷ ts) h = ground (arith, prune_within now w ts h.1)

-- A key whose failures since the last success are those of a list, with no strike yet.
abbrev IsCounting : String → List ℕ → Limiter → Type 0
IsCounting key ts l = (or_nil (l.fails key) ≡ ts) × (l.lock_strikes key ≡ none)

in_window_within :
    (now w : ℕ) (o : Option (List ℕ))
    → All (λ u. now < u + w) (or_nil o)
    → or_nil (in_window now w o) ≡ or_nil o
unfolding in_window
in_window_within now w none h = refl
in_window_within now w (some ts) h = ground (arith, prune_within now w ts h)

prune_stale_locked-IsCounting :
    (now : ℕ) (key : String) (ts : List ℕ) (l : Limiter)
    → All (λ u. now < u + l.fail_window) ts
    → IsCounting key ts l
    → IsCounting key ts (prune_stale_locked now l)
unfolding prune_stale_locked collect
prune_stale_locked-IsCounting now key ts l h c =
    let h' : All (λ u. now < u + l.fail_window) (or_nil (l.fails key)) =
      subst (All (λ u. now < u + l.fail_window)) (sym c.0) h in
    ground (arith, in_window_within now l.fail_window (l.fails key) h')

All-snoc :
    (now w : ℕ) (ts : List ℕ)
    → 0 < w
    → All (λ u. now < u + w) ts
    → All (λ u. now < u + w) (ts ++ now ∷ [])
All-snoc now w [] p h = (omega arith, tt)
All-snoc now w (t ∷ ts) p h = (h.0, All-snoc now w ts p h.1)

escalated_lockout_one : (base : ℕ) → escalated_lockout base 1 ≡ base
unfolding escalated_lockout
escalated_lockout_one base = refl

module _ (now : ℕ) (key : String) (ts : List ℕ) (l : Limiter)
    (within : All (λ u. now < u + l.fail_window) ts) (counting : IsCounting key ts l) where
  record_failure-IsCounting : IsCounting key (ts ++ now ∷ []) (record_failure now key l)
  unfolding record_failure
  record_failure-IsCounting =
      (rw (eq_refl key, counting.0, prune_within now l.fail_window ts within), counting.1)

  length-record_failure : length (or_nil ((record_failure now key l).fails key)) ≡ length ts + 1
  length-record_failure = rw (record_failure-IsCounting.0) (length-append ts (now ∷ []))

  -- A failure below the threshold adds to the count and locks nothing.
  failure-IsCounting :
      0 < l.fail_window
      → length ts + 1 < l.max_fails
      → IsCounting key (ts ++ now ∷ []) (failure now key l).0
  unfolding failure
  failure-IsCounting p lt =
      let r = record_failure now key l in
      elim (Bool-cases (leb r.max_fails (length (or_nil (r.fails key))))) [
        | inl full ↦
            absurd (unfold record_failure in omega (arith, leb→le _ _ full, length-record_failure))
        | inr room ↦ rw room (
            prune_stale_locked-IsCounting now key (ts ++ now ∷ []) r
              (unfold record_failure in All-snoc now l.fail_window ts p within)
              record_failure-IsCounting)
      ]

  failure-verdict :
      ((failure now key l).1 ≡ leb l.max_fails (length ts + 1))
      × ((failure now key l).2 ≡ (if leb l.max_fails (length ts + 1) then l.lockout else 0))
  unfolding failure
  failure-verdict =
      let r = record_failure now key l in
      unfold record_failure in
      ground
        (arith, length-record_failure, record_failure-IsCounting, escalated_lockout_one l.lockout)

prune_stale_locked-config :
    (now : ℕ) (l : Limiter)
    → let s = prune_stale_locked now l in
      (s.max_fails ≡ l.max_fails) × (s.fail_window ≡ l.fail_window) × (s.lockout ≡ l.lockout)
unfolding prune_stale_locked collect
prune_stale_locked-config now l = ground arith

failure-config :
    (now : ℕ) (key : String) (l : Limiter)
    → let s = (failure now key l).0 in
      (s.max_fails ≡ l.max_fails) × (s.fail_window ≡ l.fail_window) × (s.lockout ≡ l.lockout)
unfolding failure record_failure trip
failure-config now key l =
    let r = record_failure now key l in
    ground (arith, prune_stale_locked-config now r, prune_stale_locked-config now (trip now key r))

abbrev pub failures : String → List ℕ → List (ℕ × Call)
failures key ts = map (λ t. (t, fails key)) ts

run-failures-IsCounting :
    (key : String) (past ts : List ℕ) (l : Limiter)
    → 0 < l.fail_window
    → IsCounting key past l
    → Within l.fail_window past ts
    → length past + length ts < l.max_fails
    → let s = run (failures key ts) l in
      IsCounting key (past ++ ts) s
      × ((s.max_fails ≡ l.max_fails) × (s.fail_window ≡ l.fail_window) × (s.lockout ≡ l.lockout))
unfolding run step
run-failures-IsCounting key past [] l p c w lt = (rw append-nil c, (refl, refl, refl))
run-failures-IsCounting key past (t ∷ ts) l p c w lt =
    let s = (failure t key l).0 in
    let (m, f, d) = failure-config t key l in
    let (c', cfg) =
      run-failures-IsCounting key (past ++ t ∷ []) ts s (omega arith)
        (failure-IsCounting t key past l w.0 c p (omega arith))
        (subst (λ (k : ℕ). Within k (past ++ t ∷ []) ts) (sym f) w.1)
        (omega (arith, length-append past (t ∷ []))) in
    ((c'.0 ∙ append_assoc past (t ∷ []) ts, c'.1), (cfg.0 ∙ m, cfg.1 ∙ f, cfg.2 ∙ d))

success-IsCounting : (key : String) (l : Limiter) → IsCounting key [] (success key l)
unfolding success
success-IsCounting key l = rw (eq_refl key) (refl, refl)

-- After a success for a key, fewer failures than `MaxFails` that all lie in one window never lock
-- it, and the one that completes `MaxFails` locks it for the base duration.
pub success_restarts :
    (key : String) (l : Limiter) (ts : List ℕ) (now : ℕ)
    → 0 < l.fail_window
    → length ts < l.max_fails
    → Within l.fail_window [] ts
    → All (λ u. now < u + l.fail_window) ts
    → let s = run (failures key ts) (success key l) in
      ((failure now key s).1 ≡ leb l.max_fails (length ts + 1))
      × ((failure now key s).2 ≡ (if leb l.max_fails (length ts + 1) then l.lockout else 0))
unfolding success
success_restarts key l ts now p lt w a =
    let s = run (failures key ts) (success key l) in
    let (c, cfg) =
      (run-failures-IsCounting key [] ts (success key l) p (success-IsCounting key l) w
        (omega arith)) in
    let v =
      failure-verdict now key ts s (subst (λ (k : ℕ). All (λ u. now < u + k) ts) (sym cfg.1) a) c in
    (
      v.0 ∙ ap (λ (m : ℕ). leb m (length ts + 1)) cfg.0,
      v.1
          ∙ ap (λ (m : ℕ). if leb m (length ts + 1) then s.lockout else 0) cfg.0
          ∙ ap (λ (d : ℕ). if leb l.max_fails (length ts + 1) then d else 0) cfg.2,
    )
