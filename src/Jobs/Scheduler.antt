-- ===== src/Jobs/Scheduler.antt =====
-- internal/jobs/scheduler.go and dca_backfill.go: the windows, and the life of a process. Events
-- run one after another; a job does not overlap with another.
pub mod Sweep
pub mod Plan
pub mod Adds
pub mod Claimed
pub mod Due
pub mod Once
pub mod Exact
pub mod Backfill
mod Tests
use fund_dashboard.Prelude.{
  ℕ, ◌+◌, ◌-◌, ◌*◌, ◌/◌, Bool, true, false, not, ◌&&◌, ◌||◌, List, [], ◌∷◌, Option, none, some, leb,
  ◌==◌, if◌then◌else◌, Bytes, second, suc, zero, map,
}
use fund_dashboard.Jobs.Calendar.{
  Job, startup_refresh, price_dca, holdings, wal, dca_backfill, day_of, weekday_of, window_at,
  next_run_epoch,
}
use fund_dashboard.Jobs.System.{
  Action, refresh_stale_held, refresh_all_held, refresh_indices, crawl_all_held, probe_sqlite,
  wal_checkpoint, run_dca, JobRuntime, Wiring, System, put, Sched, ◌>>=◌, ◌>>◌, pure, call, when,
  first_err,
}
use fund_dashboard.Jobs.Claim.{claim_window}
use fund_dashboard.Jobs.Scheduler.Sweep.{sweep_expired_state}

record_job : Job → ℕ → Option Bytes → Sched (Unit {0})
record_job job now err s =
    (tt, record s { jobs = put job (record { last_run = now / second; last_err = err }) s.jobs })

-- Monday to Friday.
abbrev pub is_workday : ℕ → Bool
is_workday d = leb 1 (weekday_of d) && leb (weekday_of d) 5

run_dca_materialization : Wiring → Job → ℕ → Sched (Option Bytes)
run_dca_materialization w job now = when w.has_dca (call job now (run_dca (day_of now)))

abbrev pub dca_backfill_lookback_days : ℕ
dca_backfill_lookback_days = 7

-- The loop over `i`, from the oldest date on; an error does not end it.
backfill_dates : Job → ℕ → ℕ → Option Bytes → Sched (Option Bytes)
backfill_dates job now zero err = pure err
backfill_dates job now (suc i) err =
    call job now (run_dca (day_of now - suc i)) >>= λ e. backfill_dates job now i (first_err err e)

run_dca_backfill : Wiring → Job → ℕ → Sched (Option Bytes)
run_dca_backfill w job now =
    when (w.has_dca && is_workday (day_of now))
      (backfill_dates job now dca_backfill_lookback_days none)

price_dca_window : Wiring → ℕ → Sched (Unit {0})
price_dca_window w now = do
  e ← call price_dca now refresh_all_held
  d ← when w.has_indices (call price_dca now refresh_indices)
  c ← when (is_workday (day_of now)) (run_dca_materialization w price_dca now)
  record_job price_dca now (first_err (first_err e d) c)

holdings_window : Wiring → ℕ → Sched (Unit {0})
holdings_window w now s =
    if w.has_holdings
    then (call holdings now crawl_all_held >>= record_job holdings now) s
    else (tt, s)

dca_backfill_window : Wiring → ℕ → Sched (Unit {0})
dca_backfill_window w now = run_dca_backfill w dca_backfill now >>= λ _. pure tt

-- The checkpoint follows a successful probe.
checkpoint : ℕ → Option Bytes → Sched (Option Bytes)
checkpoint now none = call wal now wal_checkpoint
checkpoint now (some _) = pure none

wal_window : Wiring → ℕ → Sched (Unit {0})
wal_window w now = do
  probe ← call wal now probe_sqlite
  e ← checkpoint now probe
  d ← sweep_expired_state w now
  record_job wal now (first_err e d)

-- `canceled`: the context of the job has ended before its first use, by a concurrent `Stop`.
startup_window : Wiring → Bool → ℕ → Sched (Unit {0})
startup_window w true now s = (tt, s)
startup_window w false now s =
    (do
      e ← call startup_refresh now refresh_stale_held
      record_job startup_refresh now e
      run_dca_backfill w startup_refresh now
      pure tt)
      s

-- The work of a window that has been claimed.
pub window : Wiring → Job → Bool → ℕ → Sched (Unit {0})
window w startup_refresh canceled now = startup_window w canceled now
window w price_dca canceled now = price_dca_window w now
window w holdings canceled now = holdings_window w now
window w wal canceled now = wal_window w now
window w dca_backfill canceled now = dca_backfill_window w now

if_claimed : Bool → Sched (Unit {0}) → Sched (Unit {0})
if_claimed true m = m
if_claimed false m = pure tt

-- The date of a window is that of its time.
pub claimed : Wiring → Job → Bool → ℕ → Sched (Unit {0})
claimed w job canceled now =
    claim_window w job (day_of now) >>= λ won. if_claimed won (window w job canceled now)

dispatch : Wiring → Option Job → ℕ → Sched (Unit {0})
dispatch w none now = pure tt
dispatch w (some job) now = claimed w job false now

tick : Wiring → ℕ → Sched (Unit {0})
tick w now = dispatch w (window_at now) now

run_startup_catch_up : Wiring → Bool → ℕ → Sched (Unit {0})
run_startup_catch_up w canceled now s =
    if s.stopped then (tt, s) else claimed w startup_refresh canceled now s

start : System → System
start s =
    if s.started then s else record s { started = true; stopped = false; timer_pending = true }

stop : System → System
stop s = if s.started then record s { started = false; stopped = true } else s

-- `NewScheduler`, in a new process.
new_scheduler : System → System
new_scheduler s = record s {
  last_run = λ _. none;
  jobs = λ _. none;
  started = false;
  stopped = false;
  timer_pending = false;
}

-- A tick or the timer at a time, while the clock of the process shows another.
pub data Event : Type 0 where
  launch begin halt : Event
  ticked : ℕ → ℕ → Event
  timer_fired : ℕ → ℕ → Bool → Event

-- The loop takes ticks while it runs; the catch-up goroutine wakes up once, and `Stop` waits for
-- it. A wake-up after the stop channel was closed finds `stopped`.
pub step : Wiring → System → Event → System
step w s launch = new_scheduler s
step w s begin = start s
step w s halt = stop s
step w s (ticked now wall) = if s.started then (tick w now (record s { wall = wall })).1 else s
step w s (timer_fired now wall canceled) =
    if s.timer_pending
    then (run_startup_catch_up w canceled now (record s { wall = wall; timer_pending = false })).1
    else s

pub run : Wiring → System → List Event → System
run w s [] = s
run w s (e ∷ es) = run w (step w s e) es

-- An entry of `StatusSnapshot`.
pub record JobStatus : Type 0 where
  pub name : Job
  pub last_run : ℕ
  pub last_error : Option Bytes
  pub next_run : ℕ

abbrev with_runtime : Option JobRuntime → JobStatus → JobStatus
with_runtime none snap = snap
with_runtime (some rt) snap = record snap { last_run = rt.last_run; last_error = rt.last_err }

job_status : System → ℕ → Job → JobStatus
job_status s now job =
    with_runtime (s.jobs job)
      (record { name = job; last_run = 0; last_error = none; next_run = next_run_epoch job now })

-- `jobDefinitions`
abbrev job_definitions : List Job
job_definitions = startup_refresh ∷ price_dca ∷ holdings ∷ wal ∷ []

pub status_snapshot : System → ℕ → List JobStatus
unfolding job_status
status_snapshot s now = map (job_status s now) job_definitions
