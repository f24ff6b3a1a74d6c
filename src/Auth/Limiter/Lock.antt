-- ===== src/Auth/Limiter/Lock.antt =====
-- The lock of one key in internal/auth/limiter.go, and the calls while it is pending.
use fund_dashboard.Prelude.{
  ℕ, zero, suc, ◌+◌, ◌-◌, ◌*◌, ◌<◌, ◌≡◌, ◌≢◌, String, true, false, List, [], ◌∷◌, some, arith,
  eq_iff, eq_refl, delete, All, lt→ltb,
}
use fund_dashboard.Auth.Limiter.{
  Limiter, reply, double_capped, escalated_lockout, collect, prune_stale_locked, allow_key,
  allow_unlocked, allow, record_failure, trip, failure, success, Call, allows, fails, succeeds,
  next_strikes, step, run, or_zero,
}

double_capped_pos : (n d : ℕ) → 0 < d → 0 < double_capped n d
unfolding double_capped
double_capped_pos zero d h = h
double_capped_pos (suc n) d h = ground (arith, double_capped_pos n (d * 2))

escalated_lockout_pos : (base n : ℕ) → 0 < base → 0 < escalated_lockout base n
unfolding escalated_lockout
escalated_lockout_pos base n h = ground (arith, double_capped_pos (n - 1) base)

module _ (key : String) (until : ℕ) where
  prune_stale_locked-locked :
      (now : ℕ) (l : Limiter)
      → now < until
      → l.locked_until key ≡ some until
      → (prune_stale_locked now l).locked_until key ≡ some until
  unfolding prune_stale_locked collect
  prune_stale_locked-locked now l h e = ground arith

  allow-locked :
      (now : ℕ) (k : String) (l : Limiter)
      → now < until
      → l.locked_until key ≡ some until
      → (allow now k l).0.locked_until key ≡ some until
  unfolding allow allow_unlocked allow_key
  allow-locked now k l h e = ground (
    arith,
    eq_iff k key,
    prune_stale_locked-locked now l,
    prune_stale_locked-locked now (record l { locked_until = delete k l.locked_until }),
  )

  failure-locked :
      (now : ℕ) (k : String) (l : Limiter)
      → k ≢ key
      → now < until
      → l.locked_until key ≡ some until
      → (failure now k l).0.locked_until key ≡ some until
  unfolding failure record_failure trip
  failure-locked now k l n h e =
      let r = record_failure now k l in
      ground (
        arith,
        eq_iff k key,
        prune_stale_locked-locked now r,
        prune_stale_locked-locked now (trip now k r),
      )

  -- A call that comes before the lock lapses, and neither fails nor succeeds for the key itself.
  abbrev pub Spares : ℕ × Call → Type 0
  Spares (now, allows k) = now < until
  Spares (now, fails k) = (now < until) × (k ≢ key)
  Spares (now, succeeds k) = (now < until) × (k ≢ key)

  step-locked :
      (now : ℕ) (c : Call) (l : Limiter)
      → Spares (now, c)
      → l.locked_until key ≡ some until
      → (step now c l).locked_until key ≡ some until
  unfolding step success
  step-locked now (allows k) l h e = allow-locked now k l h e
  step-locked now (fails k) l h e = failure-locked now k l h.1 h.0 e
  step-locked now (succeeds k) l h e = ground (arith, eq_iff k key)

  pub run-locked :
      (cs : List (ℕ × Call)) (l : Limiter)
      → All Spares cs
      → l.locked_until key ≡ some until
      → (run cs l).locked_until key ≡ some until
  unfolding run
  run-locked [] l h e = e
  run-locked ((now, c) ∷ cs) l h e = run-locked cs (step now c l) h.1 (step-locked now c l h.0 e)

failure_locks :
    (now : ℕ) (key : String) (l : Limiter)
    → 0 < l.lockout
    → (failure now key l).1 ≡ true
    → (failure now key l).0.locked_until key ≡ some (now + (failure now key l).2)
unfolding failure record_failure trip
failure_locks now key l h e =
    let r = record_failure now key l in
    let n = next_strikes (or_zero (l.lock_strikes key)) in
    ground (
      arith,
      eq_refl key,
      escalated_lockout_pos l.lockout n,
      prune_stale_locked-locked key (now + escalated_lockout l.lockout n) now (trip now key r),
    )

allow_refuses :
    (t until : ℕ) (key : String) (l : Limiter)
    → l.locked_until key ≡ some until
    → t < until
    → allow t key l ≡ (l, reply (until - t) false)
unfolding allow
allow_refuses t until key l e lt = rw (e, allow) (rw (lt→ltb t until lt))

-- Once a failure reports that it locked a key for a duration, then after any calls before the lock
-- lapses that neither fail nor succeed for that key, an attempt for the key before the lock lapses
-- is refused, is told exactly the time that is left, and changes nothing.
pub locked_out :
    (now t : ℕ) (key : String) (l : Limiter) (cs : List (ℕ × Call))
    → 0 < l.lockout
    → (failure now key l).1 ≡ true
    → All (Spares key (now + (failure now key l).2)) cs
    → t < now + (failure now key l).2
    → allow t key (run cs (failure now key l).0)
      ≡ (run cs (failure now key l).0, reply (now + (failure now key l).2 - t) false)
locked_out now t key l cs h e all lt =
    let (s, _, d) = failure now key l in
    allow_refuses t (now + d) key (run cs s)
      (run-locked key (now + d) cs s all (failure_locks now key l h e)) lt
