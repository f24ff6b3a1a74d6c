-- ===== src/Jobs/Scheduler/Plan.antt =====
-- The calls that a window of a job makes, as a list: a reference for the windows of the code.
pub mod Once
use fund_dashboard.Prelude.{
  ℕ, zero, suc, ◌+◌, ◌-◌, ◌≤◌, ◌<◌, ◌≡◌, Bool, true, false, ◌&&◌, List, [], ◌∷◌, ◌++◌, Option, none,
  some, ◌==◌, if◌then◌else◌, tally, Bytes, arith, second, ◌/◌, Bool-cases, inl, inr, refl,
}
use fund_dashboard.Jobs.Calendar.{
  Job, startup_refresh, price_dca, holdings, wal, dca_backfill, day_of,
}
use fund_dashboard.Jobs.System.{
  Action, refresh_stale_held, refresh_all_held, refresh_indices, crawl_all_held, probe_sqlite,
  wal_checkpoint, run_dca, sweep_expired, delete_sessions, delete_confirmations,
  delete_audit_events, sweep_auth_events, Call, Wiring, same_job,
}
use fund_dashboard.Jobs.Scheduler.{is_workday, dca_backfill_lookback_days}
use fund_dashboard.Jobs.Scheduler.Sweep.{sweeps, days}

abbrev pub same_action : Action → Action → Bool
same_action refresh_stale_held refresh_stale_held = true
same_action refresh_all_held refresh_all_held = true
same_action refresh_indices refresh_indices = true
same_action crawl_all_held crawl_all_held = true
same_action probe_sqlite probe_sqlite = true
same_action wal_checkpoint wal_checkpoint = true
same_action sweep_expired sweep_expired = true
same_action (run_dca d) (run_dca e) = d == e
same_action (delete_sessions d) (delete_sessions e) = d == e
same_action (delete_confirmations d) (delete_confirmations e) = d == e
same_action (delete_audit_events d) (delete_audit_events e) = d == e
same_action (sweep_auth_events d) (sweep_auth_events e) = d == e
same_action _ _ = false

-- How often an action stands in a list.
abbrev pub times : Action → List Action → ℕ
times a xs = tally (same_action a) xs

abbrev is_call : Job → Action → ℕ → Call → Bool
is_call job a d c = same_job job c.job && same_action a c.action && day_of c.at == d

-- How often a job has made a call in its windows of a day.
abbrev pub made : Job → Action → ℕ → List Call → ℕ
made job a d calls = tally (is_call job a d) calls

-- The calls of a list of actions, made in its order.
abbrev pub log : Job → ℕ → List Action → List Call → List Call
log job now [] calls = calls
log job now (a ∷ xs) calls = log job now xs (record { job = job; at = now; action = a } ∷ calls)

-- The due dates before a day, from `n` days back.
abbrev pub dates : ℕ → ℕ → List Action
dates d zero = []
dates d (suc i) = run_dca (d - suc i) ∷ dates d i

abbrev pub given : Bool → List Action → List Action
given b xs = if b then xs else []

abbrev pub backfill : Wiring → ℕ → List Action
backfill w d = given (w.has_dca && is_workday d) (dates d dca_backfill_lookback_days)

-- The maintenance depends on the time of the process and on the answer to the probe.
abbrev pub maintenance : Wiring → ℕ → Bool → List Action
maintenance w wall sqlite =
    probe_sqlite
    ∷ (given sqlite (wal_checkpoint ∷ [])
        ++ (given w.has_session_sweep (sweep_expired ∷ [])
            ++ (sweeps w wall
                ++ given w.has_auth_sweep (sweep_auth_events ((wall - days 180) / second) ∷ []))))

pub made-log :
    (j job : Job) (now d : ℕ) (a : Action) (xs : List Action) (calls : List Call)
    → made j a d (log job now xs calls)
      ≡ made j a d calls + (if same_job j job && (day_of now == d) then times a xs else 0)
made-log j job now d a [] calls = ground arith
made-log j job now d a (x ∷ xs) calls =
    ground (arith, made-log j job now d a xs (record { job = job; at = now; action = x } ∷ calls))

-- The calls of a window: of the scheduler's collaborators, of whether the context had ended before
-- the catch-up, of the time of the window, that of the process and whether the probe succeeded.
abbrev pub plan : Wiring → Job → Bool → ℕ → ℕ → Bool → List Action
plan w startup_refresh canceled d wall sqlite =
    if canceled then [] else refresh_stale_held ∷ backfill w d
plan w price_dca canceled d wall sqlite =
    refresh_all_held
    ∷ (given w.has_indices (refresh_indices ∷ [])
        ++ given (is_workday d) (given w.has_dca (run_dca d ∷ [])))
plan w holdings canceled d wall sqlite = given w.has_holdings (crawl_all_held ∷ [])
plan w wal canceled d wall sqlite = maintenance w wall sqlite
plan w dca_backfill canceled d wall sqlite = backfill w d
