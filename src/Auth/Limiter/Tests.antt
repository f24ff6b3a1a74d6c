-- ===== src/Auth/Limiter/Tests.antt =====
-- internal/auth/limiter.go on concrete calls.
use fund_dashboard.Prelude.{eq_iff}
use fund_dashboard.Prelude.{
  ℕ, ◌+◌, ◌-◌, ◌*◌, ◌^◌, ◌<◌, ◌≡◌, ◌≢◌, ◌↔◌, String, true, false, List, [], ◌∷◌, none, arith, refl,
  minute, hour, min, leb, length, if◌then◌else◌,
}
use fund_dashboard.Auth.Limiter.{
  Limiter, new_limiter, max_lockout, reply, double_capped, escalated_lockout, prune, in_window,
  collect, prune_stale_locked, allow, record_failure, trip, failure, success, Call, allows, fails,
  step, run,
}
use fund_dashboard.Auth.Limiter.Escalation.{escalated_lockout-eq_min}
use fund_dashboard.Auth.Limiter.Invariant.{IsTracked, new_limiter-IsTracked, run-IsTracked}
use fund_dashboard.Auth.Limiter.Lock.{locked_out}
use fund_dashboard.Auth.Limiter.Collect.{IsLapsed, IsOutside, IsDecayed, collect_exact}
use fund_dashboard.Auth.Limiter.Window.{failures, success_restarts}
use fund_dashboard.Auth.Limiter.Global.{
  recent, IsHonest, allow-verdict, global_guard, allow-IsHonest,
}

abbrev four : List ℕ
four = minute ∷ (2 * minute) ∷ (3 * minute) ∷ (4 * minute) ∷ []

abbrev tried : Limiter
tried = run (failures "10.0.0.1" four) new_limiter

-- The fifth failure within a quarter of an hour locks for a quarter of an hour.
fifth_locks : (failure (5 * minute) "10.0.0.1" tried).1 ≡ true
unfolding run step failure record_failure trip prune_stale_locked collect prune in_window
    escalated_lockout double_capped
fifth_locks = refl

fifth_duration : (failure (5 * minute) "10.0.0.1" tried).2 ≡ 15 * minute
unfolding run step failure record_failure trip prune_stale_locked collect prune in_window
    escalated_lockout double_capped
fifth_duration = refl

escalated_lockout-eq_min_example :
    escalated_lockout (15 * minute) 8 ≡ min (15 * minute * 2 ^ 7) max_lockout
escalated_lockout-eq_min_example = escalated_lockout-eq_min (15 * minute) 7 (omega arith)

-- Saturation at the eighth strike, as the source says, and not before.
seven_strikes : escalated_lockout (15 * minute) 7 ≡ 16 * hour
unfolding escalated_lockout double_capped
seven_strikes = refl

eight_strikes : escalated_lockout (15 * minute) 8 ≡ max_lockout
unfolding escalated_lockout double_capped
eight_strikes = refl

run-IsTracked_example : IsTracked tried
run-IsTracked_example = run-IsTracked (failures "10.0.0.1" four) new_limiter new_limiter-IsTracked

abbrev locked : Limiter
locked = (failure (5 * minute) "10.0.0.1" tried).0

abbrev meanwhile : List (ℕ × Call)
meanwhile = (6 * minute, allows "10.0.0.1") ∷ (7 * minute, fails "10.0.0.2") ∷ []

hosts_differ : ◌≢◌ {A = String} "10.0.0.2" "10.0.0.1"
hosts_differ = ground (arith, eq_iff "10.0.0.2" "10.0.0.1")

locked_out_example : allow (8 * minute) "10.0.0.1" (run meanwhile locked) ≡ (
  run meanwhile locked,
  reply (5 * minute + (failure (5 * minute) "10.0.0.1" tried).2 - 8 * minute) false,
)
unfolding run step failure record_failure trip prune_stale_locked collect prune in_window
    escalated_lockout double_capped
locked_out_example =
    locked_out (5 * minute) (8 * minute) "10.0.0.1" tried meanwhile (omega arith) fifth_locks
      (omega arith, ((omega arith, hosts_differ), tt)) (omega arith)

collect_exact_example :
    let c = collect (9 * 24 * hour) tried in
    ((c.locked_until "10.0.0.1" ≡ none)
      × (c.fails "10.0.0.1" ≡ none)
      × (c.lock_strikes "10.0.0.1" ≡ none)
      × (c.last_failure "10.0.0.1" ≡ none))
    ↔ (IsLapsed (9 * 24 * hour) (tried.locked_until "10.0.0.1")
        × IsOutside (9 * 24 * hour) tried.fail_window (tried.fails "10.0.0.1")
        × IsDecayed (9 * 24 * hour) (tried.last_failure "10.0.0.1"))
collect_exact_example = collect_exact (9 * 24 * hour) "10.0.0.1" tried run-IsTracked_example

-- The fourth failure after a success does not lock, and the fifth locks for the base duration.
success_restarts_example :
    let s = run (failures "10.0.0.1" four) (success "10.0.0.1" locked) in
    ((failure (5 * minute) "10.0.0.1" s).1 ≡ leb locked.max_fails (length four + 1))
    × ((failure (5 * minute) "10.0.0.1" s).2
        ≡ (if leb locked.max_fails (length four + 1) then locked.lockout else 0))
unfolding run step failure record_failure trip prune_stale_locked collect prune in_window
    escalated_lockout double_capped
success_restarts_example =
    success_restarts "10.0.0.1" locked four (5 * minute) (omega arith) (omega arith) (omega arith)
      (omega arith)

allow-verdict_example : ((allow (6 * minute) "10.0.0.1" tried).1 ≡ reply 0 true) ↔ (
    IsLapsed (6 * minute) (tried.locked_until "10.0.0.1")
    × (recent (6 * minute) tried < tried.global_per_hour))
allow-verdict_example = allow-verdict (6 * minute) "10.0.0.1" tried

-- A limiter that allows two failures in an hour.
abbrev strict : Limiter
strict = record new_limiter { global_per_hour = 2 }

global_guard_example :
    (allow (9 * minute) "10.0.0.2" (run (failures "10.0.0.1" four) strict)).1 ≢ reply 0 true
global_guard_example =
    global_guard (9 * minute) "10.0.0.2" strict (failures "10.0.0.1" four) (omega arith)
      (omega arith)

allow-IsHonest_example : IsHonest (allow (6 * minute) "10.0.0.1" locked).1
unfolding run step failure record_failure trip prune_stale_locked collect prune in_window
    escalated_lockout double_capped
allow-IsHonest_example = allow-IsHonest (6 * minute) "10.0.0.1" locked (omega arith)
