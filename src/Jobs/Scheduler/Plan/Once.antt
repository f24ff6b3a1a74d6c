-- ===== src/Jobs/Scheduler/Plan/Once.antt =====
-- A plan makes no call twice.
use fund_dashboard.Prelude.{
  ℕ, zero, suc, ◌-◌, ◌≤◌, ◌≡◌, Bool, true, false, ◌&&◌, List, [], ◌∷◌, leb, ltb, if◌then◌else◌,
  arith,
}
use fund_dashboard.Jobs.Calendar.{Job, startup_refresh, price_dca, holdings, wal, dca_backfill}
use fund_dashboard.Jobs.System.{Action, refresh_stale_held, crawl_all_held, run_dca, Wiring}
use fund_dashboard.Jobs.Scheduler.{is_workday}
use fund_dashboard.Jobs.Scheduler.Plan.{times, given, dates, backfill, maintenance, plan}

pub times-dates :
    (e d n : ℕ)
    → n ≤ d
    → times (run_dca e) (dates d n) ≡ (if leb (d - n) e && ltb e d then 1 else 0)
times-dates e d zero h = ground arith
times-dates e d (suc n) h = ground (arith, times-dates e d n)

dates_once : (a : Action) (d : ℕ) → 7 ≤ d → times a (dates d 7) ≤ 1
dates_once (run_dca e) d h = rw (times-dates e d 7 h) (ground arith)
dates_once _ d h = omega arith

given_once : (b : Bool) (a : Action) (xs : List Action) → times a xs ≤ 1 → times a (given b xs) ≤ 1
given_once true a xs h = h
given_once false a xs h = omega arith

backfill_once : (w : Wiring) (a : Action) (d : ℕ) → 7 ≤ d → times a (backfill w d) ≤ 1
backfill_once w a d h = given_once (w.has_dca && is_workday d) a (dates d 7) (dates_once a d h)

startup_once :
    (w : Wiring) (a : Action) (d : ℕ) → 7 ≤ d → times a (refresh_stale_held ∷ backfill w d) ≤ 1
startup_once w refresh_stale_held d h = ground arith
startup_once w a d h = backfill_once w a d h

maintenance_once :
    (w : Wiring) (a : Action) (wall : ℕ) (q : Bool) → times a (maintenance w wall q) ≤ 1
maintenance_once w (run_dca e) wall q = ground arith
maintenance_once w _ wall q = ground arith

price_dca_once :
    (w : Wiring) (a : Action) (c q : Bool) (d wall : ℕ) → times a (plan w price_dca c d wall q) ≤ 1
price_dca_once w (run_dca e) c q d wall = ground arith
price_dca_once w _ c q d wall = ground arith

pub plan_once :
    (w : Wiring) (job : Job) (a : Action) (c q : Bool) (d wall : ℕ)
    → 7 ≤ d
    → times a (plan w job c d wall q) ≤ 1
plan_once w startup_refresh a true q d wall h = omega arith
plan_once w startup_refresh a false q d wall h = startup_once w a d h
plan_once w price_dca a c q d wall h = price_dca_once w a c q d wall
plan_once w holdings a c q d wall h =
    given_once w.has_holdings a (crawl_all_held ∷ []) (ground arith)
plan_once w wal a c q d wall h = maintenance_once w a wall q
plan_once w dca_backfill a c q d wall h = backfill_once w a d h
