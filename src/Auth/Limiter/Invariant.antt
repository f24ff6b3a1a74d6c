-- ===== src/Auth/Limiter/Invariant.antt =====
-- The state of the limiter of internal/auth/limiter.go between any two calls.
use fund_dashboard.Prelude.{
  ℕ, ◌+◌, ◌≤◌, ◌<◌, ◌≡◌, String, List, [], ◌∷◌, Option, none, some, arith, length, length-append,
  length-keep, tally-le, eq_iff, refl, ltb, leb, hour, delete, Bool-cases, inl, inr, eq_refl, false,
}
use fund_dashboard.Auth.Limiter.{
  Limiter, new_limiter, max_lock_strikes, prune, in_window, collect, prune_stale_locked, allow_key,
  allow_unlocked, allow, record_failure, trip, failure, success, Call, allows, fails, succeeds,
  step, run, or_nil,
}

-- The counting window of a key is never empty and always below the threshold, strikes are between
-- 1 and 64, and a key with no recorded failure holds nothing in the other maps, so that the
-- collection, which walks the recorded failures, reaches every entry.
pub record IsTracked (l : Limiter) : Type 0 where
  pub threshold : 0 < l.max_fails
  pub counting :
      (k : String) (ts : List ℕ) → l.fails k ≡ some ts → (0 < length ts) × (length ts < l.max_fails)
  pub strikes : (k : String) (n : ℕ) → l.lock_strikes k ≡ some n → (0 < n) × (n ≤ max_lock_strikes)
  pub recorded :
      (k : String)
      → l.last_failure k ≡ none
      → (l.fails k ≡ none) × (l.lock_strikes k ≡ none) × (l.locked_until k ≡ none)

pub new_limiter-IsTracked : IsTracked new_limiter
new_limiter-IsTracked = record {
  threshold = omega arith;
  counting = λ k ts e. ground arith;
  strikes = λ k n e. ground arith;
  recorded = λ k e. (refl, refl, refl);
}

pub length-prune-le : (now w : ℕ) (ts : List ℕ) → length (prune now w ts) ≤ length ts
unfolding prune
length-prune-le now w ts =
    omega (arith, length-keep (λ t. ltb now (t + w)) ts, tally-le (λ t. ltb now (t + w)) ts)

in_window_inv :
    (now w : ℕ) (o : Option (List ℕ)) (ts : List ℕ)
    → in_window now w o ≡ some ts
    → (us : List ℕ) × (o ≡ some us) × (0 < length ts) × (length ts ≤ length us)
unfolding in_window
in_window_inv now w none ts e = ground arith
in_window_inv now w (some us) ts e =
    (us, refl, ground arith, ground (arith, length-prune-le now w us))

collect-IsTracked : (now : ℕ) (l : Limiter) → IsTracked l → IsTracked (collect now l)
unfolding collect in_window
collect-IsTracked now l v = record {
  threshold = v.threshold;
  counting = λ k ts e.
      let (us, p, q, r) = in_window_inv now l.fail_window (l.fails k) ts e in
      ground (arith, v.counting k us);
  strikes = λ k n e. ground (arith, v.strikes k n);
  recorded = λ k e. ground (arith, v.recorded k);
}

prune_stale_locked-IsTracked :
    (now : ℕ) (l : Limiter) → IsTracked l → IsTracked (prune_stale_locked now l)
unfolding prune_stale_locked
prune_stale_locked-IsTracked now l v = ground (arith, collect-IsTracked now l v)

allow_key-IsTracked :
    (now : ℕ) (key : String) (l : Limiter) → IsTracked l → IsTracked (allow_key now key l)
unfolding allow_key prune
allow_key-IsTracked now key l v = record {
  threshold = v.threshold;
  counting = λ k ts e. ground (arith, v.counting k ts, eq_iff key k);
  strikes = v.strikes;
  recorded = λ k e. ground (arith, v.recorded k, eq_iff key k);
}

allow_unlocked-IsTracked :
    (now : ℕ) (key : String) (l : Limiter) → IsTracked l → IsTracked (allow_unlocked now key l).0
unfolding allow_unlocked
allow_unlocked-IsTracked now key l v =
    let s = prune_stale_locked now l in
    let t : IsTracked s = prune_stale_locked-IsTracked now l v in
    let g = record s { global_fails = prune now hour s.global_fails } in
    let w : IsTracked g = record {
      threshold = t.threshold;
      counting = t.counting;
      strikes = t.strikes;
      recorded = t.recorded;
    } in
    elim (Bool-cases (leb g.global_per_hour (length g.global_fails))) [
      | inl full ↦ rw full w
      | inr room ↦ rw room (allow_key-IsTracked now key g w)
    ]

unlock-IsTracked :
    (key : String) (l : Limiter)
    → IsTracked l
    → IsTracked (record l { locked_until = delete key l.locked_until })
unlock-IsTracked key l v = record {
  threshold = v.threshold;
  counting = v.counting;
  strikes = v.strikes;
  recorded = λ k e. ground (arith, v.recorded k);
}

allow-IsTracked :
    (now : ℕ) (key : String) (l : Limiter) → IsTracked l → IsTracked (allow now key l).0
unfolding allow
allow-IsTracked now key l v = ground (
  arith,
  allow_unlocked-IsTracked now key l v,
  allow_unlocked-IsTracked now key (record l { locked_until = delete key l.locked_until })
      (unlock-IsTracked key l v),
)

-- A failure makes one entry and may reach the threshold, which the branch that follows removes.
trip-IsTracked :
    (now : ℕ) (key : String) (l : Limiter)
    → IsTracked l
    → IsTracked (trip now key (record_failure now key l))
unfolding trip record_failure
trip-IsTracked now key l v = record {
  threshold = v.threshold;
  counting = λ k ts e. ground (arith, v.counting k ts, eq_iff key k);
  strikes = λ k n e. ground (arith, v.strikes k n, v.strikes key, eq_iff key k);
  recorded = λ k e. ground (arith, v.recorded k, eq_iff key k);
}

record_failure-IsTracked :
    (now : ℕ) (key : String) (l : Limiter)
    → IsTracked l
    → leb l.max_fails (length (or_nil ((record_failure now key l).fails key))) ≡ false
    → IsTracked (record_failure now key l)
unfolding record_failure
record_failure-IsTracked now key l v below = record {
  threshold = v.threshold;
  counting = λ k ts e. ground (
    arith,
    v.counting k ts,
    eq_iff key k,
    eq_refl key,
    length-append (prune now l.fail_window (or_nil (l.fails key))) (now ∷ []),
  );
  strikes = v.strikes;
  recorded = λ k e. ground (arith, v.recorded k, eq_iff key k);
}

failure-IsTracked :
    (now : ℕ) (key : String) (l : Limiter) → IsTracked l → IsTracked (failure now key l).0
unfolding failure
failure-IsTracked now key l v =
    let r = record_failure now key l in
    elim (Bool-cases (leb r.max_fails (length (or_nil (r.fails key))))) [
      | inl full ↦ rw full (prune_stale_locked-IsTracked now _ (trip-IsTracked now key l v))
      | inr room ↦ rw room (
          prune_stale_locked-IsTracked now _
            (record_failure-IsTracked now key l v (unfold record_failure in room)))
    ]

success-IsTracked : (key : String) (l : Limiter) → IsTracked l → IsTracked (success key l)
unfolding success
success-IsTracked key l v = record {
  threshold = v.threshold;
  counting = λ k ts e. ground (arith, v.counting k ts, eq_iff key k);
  strikes = λ k n e. ground (arith, v.strikes k n, eq_iff key k);
  recorded = λ k e. ground (arith, v.recorded k, eq_iff key k);
}

step-IsTracked : (now : ℕ) (c : Call) (l : Limiter) → IsTracked l → IsTracked (step now c l)
unfolding step
step-IsTracked now (allows key) l v = allow-IsTracked now key l v
step-IsTracked now (fails key) l v = failure-IsTracked now key l v
step-IsTracked now (succeeds key) l v = success-IsTracked key l v

-- From a tracked limiter every sequence of calls at any times leaves a limiter whose counting
-- windows are below the threshold, whose strikes are between 1 and 64, and where no key without a
-- recorded failure has an entry.
pub run-IsTracked : (cs : List (ℕ × Call)) (l : Limiter) → IsTracked l → IsTracked (run cs l)
unfolding run
run-IsTracked [] l v = v
run-IsTracked ((now, c) ∷ cs) l v = run-IsTracked cs (step now c l) (step-IsTracked now c l v)
