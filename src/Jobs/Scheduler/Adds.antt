-- ===== src/Jobs/Scheduler/Adds.antt =====
-- A window only makes its calls: it leaves the claims and the life of the process as they are.
use fund_dashboard.Prelude.{
  ℕ, zero, suc, ◌-◌, ◌≡◌, Bool, true, false, ◌&&◌, List, [], ◌∷◌, ◌++◌, Option, none, some, Bytes,
  arith, second, ◌/◌, refl, Bool-cases, inl, inr,
}
use fund_dashboard.Jobs.Calendar.{
  Job, startup_refresh, price_dca, holdings, wal, dca_backfill, day_of,
}
use fund_dashboard.Jobs.System.{
  Action, refresh_stale_held, refresh_all_held, refresh_indices, crawl_all_held, probe_sqlite,
  wal_checkpoint, run_dca, sweep_expired, sweep_auth_events, Call, Wiring, System, Sched, call,
  when, answer, first_err,
}
use fund_dashboard.Jobs.Scheduler.{
  is_workday, record_job, run_dca_materialization, backfill_dates, run_dca_backfill,
  price_dca_window, holdings_window, dca_backfill_window, checkpoint, wal_window, startup_window,
  window,
}
use fund_dashboard.Jobs.Scheduler.Sweep.{
  sweep_error, sweep_tables, sweep_expired_state, sweeps, days,
}
use fund_dashboard.Jobs.Scheduler.Plan.{log, dates, given, backfill, plan}

pub record Adds (s : System) (job : Job) (now : ℕ) (xs : List Action) (t : System) : Type 0 where
  pub same_log : t.crawl_log ≡ s.crawl_log
  pub same_last_run : t.last_run ≡ s.last_run
  pub same_started : t.started ≡ s.started
  pub same_stopped : t.stopped ≡ s.stopped
  pub same_pending : t.timer_pending ≡ s.timer_pending
  pub same_faults : t.faults ≡ s.faults
  pub same_wall : t.wall ≡ s.wall
  pub logged : t.calls ≡ log job now xs s.calls

log-append :
    (job : Job) (now : ℕ) (xs ys : List Action) (calls : List Call)
    → log job now (xs ++ ys) calls ≡ log job now ys (log job now xs calls)
log-append job now [] ys calls = refl
log-append job now (x ∷ xs) ys calls =
    log-append job now xs ys (record { job = job; at = now; action = x } ∷ calls)

module _ {job : Job} {now : ℕ} where
  pub Adds-none : {s : System} → Adds s job now [] s
  Adds-none = ground arith

  Adds-then :
      {s t u : System} {xs ys : List Action}
      → Adds s job now xs t
      → Adds t job now ys u
      → Adds s job now (xs ++ ys) u
  Adds-then {s} {t} {u} {xs} {ys} p q = ground (arith, log-append job now xs ys s.calls)

  Adds-call : (s : System) (a : Action) → Adds s job now (a ∷ []) (call job now a s).1
  unfolding call
  Adds-call s a = ground arith

  Adds-record_job :
      (s : System) (k : Job) (now' : ℕ) (e : Option Bytes)
      → Adds s job now [] (record_job k now' e s).1
  unfolding record_job
  Adds-record_job s k now' e = ground arith

Adds-dates :
    (s : System) (job : Job) (now n : ℕ) (e : Option Bytes)
    → Adds s job now (dates (day_of now) n) (backfill_dates job now n e s).1
unfolding backfill_dates
Adds-dates s job now zero e = Adds-none
Adds-dates s job now (suc n) e =
    Adds-then (Adds-call s _) (Adds-dates (call job now _ s).1 job now n (first_err e _))

Adds-sweep_tables :
    (s : System) (now : ℕ) (xs : List Action) (e : Option Bytes)
    → Adds s wal now xs (sweep_tables now xs e s).1
unfolding sweep_tables
Adds-sweep_tables s now [] e = Adds-none
Adds-sweep_tables s now (x ∷ xs) e =
    Adds-then (Adds-call s x)
      (Adds-sweep_tables (call wal now x s).1 now xs (first_err e (sweep_error _)))

-- A call that may not be made.
Adds-when :
    {job : Job} {now : ℕ} {xs : List Action} (b : Bool) (m : Sched (Option Bytes))
    → ((s : System) → Adds s job now xs (m s).1)
    → (s : System) → Adds s job now (given b xs) (when b m s).1
Adds-when true m h s = h s
Adds-when false m h s = Adds-none

Adds-when-call :
    {job : Job} {now : ℕ} (b : Bool) (a : Action) (s : System)
    → Adds s job now (given b (a ∷ [])) (when b (call job now a) s).1
Adds-when-call b a s = Adds-when b (call _ _ a) (λ t. Adds-call t a) s

Adds-recorded :
    {s t : System} {job : Job} {now : ℕ} {xs : List Action} (e : Option Bytes)
    → Adds s job now xs t
    → Adds s job now xs (record_job job now e t).1
unfolding record_job
Adds-recorded e h = ground arith

Adds-backfill :
    (w : Wiring) (job : Job) (now : ℕ) (s : System)
    → Adds s job now (backfill w (day_of now)) (run_dca_backfill w job now s).1
unfolding run_dca_backfill
Adds-backfill w job now =
    Adds-when (w.has_dca && is_workday (day_of now)) (backfill_dates job now 7 none)
      (λ t. Adds-dates t job now 7 none)

Adds-price_dca :
    (w : Wiring) (now wall : ℕ) (c q : Bool) (s : System)
    → Adds s price_dca now (plan w price_dca c (day_of now) wall q) (price_dca_window w now s).1
unfolding price_dca_window run_dca_materialization
Adds-price_dca w now wall c q s = Adds-recorded _ (
    Adds-then (Adds-call s refresh_all_held) (
      Adds-then (Adds-when-call w.has_indices refresh_indices _) (
        Adds-when (is_workday (day_of now)) (run_dca_materialization w price_dca now)
          (Adds-when-call w.has_dca (run_dca (day_of now))) _)))

Adds-holdings :
    (w : Wiring) (now wall : ℕ) (c q : Bool) (s : System)
    → Adds s holdings now (plan w holdings c (day_of now) wall q) (holdings_window w now s).1
unfolding holdings_window
Adds-holdings w now wall c q s = elim (Bool-cases w.has_holdings) [
  | inl e ↦ rw e (Adds-recorded _ (Adds-call s crawl_all_held))
  | inr e ↦ rw e Adds-none
]

Adds-sweep :
    (w : Wiring) (now wall : ℕ) (s : System)
    → s.wall ≡ wall
    → Adds s wal now
        (given w.has_session_sweep (sweep_expired ∷ [])
          ++ (sweeps w wall
              ++ given w.has_auth_sweep (sweep_auth_events ((wall - days 180) / second) ∷ [])))
        (sweep_expired_state w now s).1
unfolding sweep_expired_state
Adds-sweep w now wall s e = rw (← e) (
    Adds-then (Adds-when-call w.has_session_sweep sweep_expired s) (
      Adds-then (Adds-sweep_tables _ now (sweeps w s.wall) _)
        (Adds-when-call w.has_auth_sweep (sweep_auth_events ((s.wall - days 180) / second)) _)))

abbrev pub is_nil : Option Bytes → Bool
is_nil none = true
is_nil (some _) = false

Adds-checkpoint :
    (now : ℕ) (probe : Option Bytes) (s : System)
    → Adds s wal now (given (is_nil probe) (wal_checkpoint ∷ [])) (checkpoint now probe s).1
unfolding checkpoint
Adds-checkpoint now none s = Adds-call s wal_checkpoint
Adds-checkpoint now (some e) s = Adds-none

Adds-wal :
    (w : Wiring) (now : ℕ) (c : Bool) (s : System)
    → Adds s wal now
        (plan w wal c (day_of now) s.wall (is_nil (answer s.replies)))
        (wal_window w now s).1
unfolding wal_window call
Adds-wal w now c s =
    let p = Adds-call s probe_sqlite in
    let q = Adds-checkpoint now (answer s.replies) (call wal now probe_sqlite s).1 in
    Adds-recorded _
      (Adds-then p (Adds-then q (Adds-sweep w now s.wall _ (Adds-then p q).same_wall)))

Adds-startup :
    (w : Wiring) (now wall : ℕ) (c q : Bool) (s : System)
    → Adds s startup_refresh now
        (plan w startup_refresh c (day_of now) wall q)
        (startup_window w c now s).1
unfolding startup_window
Adds-startup w now wall true q s = Adds-none
Adds-startup w now wall false q s =
    Adds-then (Adds-recorded _ (Adds-call s refresh_stale_held))
      (Adds-backfill w startup_refresh now _)

-- Every window makes the calls of its plan, in this order.
pub Adds-window :
    (w : Wiring) (job : Job) (c : Bool) (now : ℕ) (s : System)
    → Adds s job now
        (plan w job c (day_of now) s.wall (is_nil (answer s.replies)))
        (window w job c now s).1
unfolding window dca_backfill_window
Adds-window w startup_refresh c now s = Adds-startup w now s.wall c true s
Adds-window w price_dca c now s = Adds-price_dca w now s.wall c true s
Adds-window w holdings c now s = Adds-holdings w now s.wall c true s
Adds-window w wal c now s = Adds-wal w now c s
Adds-window w dca_backfill c now s = Adds-backfill w dca_backfill now s
