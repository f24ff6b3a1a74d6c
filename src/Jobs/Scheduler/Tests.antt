-- ===== src/Jobs/Scheduler/Tests.antt =====
-- A week of the scheduler on concrete days. Day 20780 is Monday, 2026-11-23.
use fund_dashboard.Prelude.{
  ℕ, ◌+◌, ◌-◌, ◌*◌, ◌≡◌, ◌≤◌, true, false, List, [], ◌∷◌, Option, none, some, arith, refl, bytes,
  second, map, Bytes,
}
use fund_dashboard.Dialect.{is_missing_table_error}
use fund_dashboard.Jobs.Calendar.{
  price_dca, holdings, dca_backfill, day_of, window_at, next_run_epoch,
}
use fund_dashboard.Jobs.Calendar.NextRun.{IsNext, next_run_epoch-IsNext}
use fund_dashboard.Jobs.System.{
  Action, refresh_all_held, refresh_indices, probe_sqlite, wal_checkpoint, run_dca, sweep_expired,
  delete_confirmations, delete_audit_events, sweep_auth_events, Wiring, System, call,
}
use fund_dashboard.Jobs.Claim.{claim_window}
use fund_dashboard.Jobs.Scheduler.{
  record_job, run_dca_materialization, price_dca_window, checkpoint, wal_window, window, if_claimed,
  claimed, dispatch, tick, start, new_scheduler, Event, launch, begin, ticked, step, run,
  status_snapshot,
}
use fund_dashboard.Jobs.Scheduler.Sweep.{sweep_tables, sweep_expired_state}
use fund_dashboard.Jobs.Scheduler.Plan.{times, made}
use fund_dashboard.Jobs.Scheduler.Due.{life_of}
use fund_dashboard.Jobs.Scheduler.Once.{once_per_day}
use fund_dashboard.Jobs.Scheduler.Exact.{ideal, runs_exact}
use fund_dashboard.Jobs.Scheduler.Backfill.{missed_replayed}

abbrev monday : ℕ
monday = 20_780

-- A time on the clock of the zone.
abbrev clock : ℕ → ℕ → ℕ → ℕ
clock day hour minute = (day * 86400 + hour * 3600 + minute * 60 - 28800) * second

abbrev wiring : Wiring
wiring = record {
  has_db = true;
  has_holdings = true;
  has_dca = true;
  has_indices = true;
  has_session_sweep = true;
  has_auth_sweep = true;
}

-- An empty database, and statements that fail as given.
abbrev fresh : List (Option Bytes) → System
fresh faults = record {
  crawl_log = λ _. none;
  calls = [];
  replies = [];
  faults = faults;
  wall = 0;
  last_run = λ _. none;
  jobs = λ _. none;
  started = false;
  stopped = false;
  timer_pending = false;
}

abbrev at : ℕ → ℕ → ℕ → Event
at day hour minute = ticked (clock day hour minute) (clock day hour minute)

abbrev actions : System → List Action
actions s = map (λ c. c.action) s.calls

-- Two ticks of one evening with a redeploy between them: the work is done once.
abbrev evening : List Event
evening = begin ∷ at monday 20 0 ∷ launch ∷ begin ∷ at monday 20 5 ∷ []

evening_once :
    actions (run wiring (fresh []) evening)
    ≡ run_dca monday ∷ refresh_indices ∷ refresh_all_held ∷ []
unfolding run step new_scheduler start tick dispatch claimed claim_window if_claimed window
    price_dca_window run_dca_materialization record_job call window_at
evening_once = refl

-- A claim whose lookup fails is not made again in the window, although the next tick would succeed.
hiccup :
    actions (
      run wiring
        (fresh (some (bytes "disk I/O error") ∷ []))
        (begin ∷ at monday 20 0 ∷ at monday 20 5 ∷ []))
    ≡ []
unfolding run step new_scheduler start tick dispatch claimed claim_window if_claimed
    is_missing_table_error window price_dca_window run_dca_materialization record_job call window_at
hiccup = refl

next_run_epoch-IsNext_example :
    IsNext holdings (clock monday 9 30) (next_run_epoch holdings (clock monday 9 30))
next_run_epoch-IsNext_example =
    next_run_epoch-IsNext holdings (clock monday 9 30) (λ e. cc) (λ e. cc)

-- Saturday, 10:00.
next_holdings : next_run_epoch holdings (clock monday 9 30) ≡ (monday + 5) * 86400 + 2 * 3600
unfolding next_run_epoch
next_holdings = refl

once_per_day_example :
    made price_dca refresh_all_held monday
      (run wiring (fresh (none ∷ some (bytes "busy") ∷ [])) evening).calls
    ≤ 1
once_per_day_example =
    once_per_day wiring (fresh (none ∷ some (bytes "busy") ∷ [])) evening price_dca refresh_all_held
      monday monday refl (unfold is_missing_table_error in (refl, (refl, tt))) refl (omega arith)
      (omega arith)

runs_exact_example :
    made price_dca (run_dca monday) monday (run wiring (fresh []) evening).calls
    ≡ times (run_dca monday) (ideal wiring (life_of (fresh [])) price_dca monday evening)
runs_exact_example =
    runs_exact wiring (fresh []) evening price_dca (run_dca monday) monday monday refl refl
      (λ j. refl) refl (λ e. cc) (omega arith) (omega arith) (λ e. cc)

ideal-evening :
    ideal wiring (life_of (fresh [])) price_dca monday evening
    ≡ refresh_all_held ∷ refresh_indices ∷ run_dca monday ∷ []
unfolding ideal window_at
ideal-evening = refl

-- Down since Friday evening; on Monday morning the date of Friday is replayed.
missed_replayed_example :
    made dca_backfill
      (run_dca (day_of (clock monday 7 0) - 3))
      (day_of (clock monday 7 0))
      (run wiring (fresh []) (launch ∷ begin ∷ at monday 7 0 ∷ [])).calls
    ≡ 1
missed_replayed_example =
    missed_replayed wiring (fresh []) (launch ∷ begin ∷ []) [] (clock monday 7 0) (clock monday 7 0)
      3 monday refl refl refl (λ j. refl) refl (λ e. cc) (omega arith) (omega arith) (omega arith)
      refl (unfold window_at in refl) refl (omega arith) (omega arith)

-- Friday 2026-11-27 at 03:10: the table of the audit events is absent, which is no error.
night : System
night =
    run wiring
      (record (fresh []) {
        replies = none ∷ none ∷ none ∷ none ∷ some (bytes "no such table: agent_audit_events") ∷ [];
      })
      (begin ∷ at (monday + 4) 3 10 ∷ [])

night_calls :
    actions night
    ≡ sweep_auth_events 1_780_168_200
      ∷ delete_audit_events 1_787_944_200_000_000_000
      ∷ delete_confirmations 1_795_115_400_000_000_000
      ∷ sweep_expired
      ∷ wal_checkpoint
      ∷ probe_sqlite
      ∷ []
unfolding night run step start tick window_at dispatch claimed claim_window if_claimed window
    wal_window checkpoint sweep_expired_state sweep_tables is_missing_table_error record_job call
night_calls = refl

night_status :
    map (λ j. j.last_error) (status_snapshot night (clock (monday + 4) 3 20))
    ≡ none ∷ none ∷ none ∷ none ∷ []
unfolding night status_snapshot run step start tick window_at dispatch claimed claim_window
    if_claimed window wal_window checkpoint sweep_expired_state sweep_tables is_missing_table_error
    record_job call
night_status = refl
