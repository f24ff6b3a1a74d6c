-- ===== src/Jobs/Scheduler/Due.antt =====
-- When a window is due: the life of a process without its claims, and what an event of it opens.
use fund_dashboard.Prelude.{
  ℕ, ◌≡◌, Bool, true, false, not, ◌&&◌, Option, none, some, if◌then◌else◌, arith, refl,
}
use fund_dashboard.Jobs.Calendar.{Job, startup_refresh, day_of, window_at}
use fund_dashboard.Jobs.System.{Wiring, System}
use fund_dashboard.Jobs.Scheduler.{
  dispatch, tick, claimed, run_startup_catch_up, start, stop, new_scheduler, Event, launch, begin,
  halt, ticked, timer_fired, step,
}
use fund_dashboard.Jobs.Scheduler.Claimed.{claimed-started, claimed-stopped, claimed-pending}

-- The day of an event; one without a time has the day of the event before it.
abbrev pub when : ℕ → Event → ℕ
when d (ticked now wall) = day_of now
when d (timer_fired now wall canceled) = day_of now
when d _ = d

-- A process: whether its loop runs, whether it was stopped, and whether its catch-up waits.
pub record Life : Type 0 where
  pub running : Bool
  pub over : Bool
  pub waiting : Bool

abbrev pub life_of : System → Life
life_of s = record { running = s.started; over = s.stopped; waiting = s.timer_pending }

abbrev pub advance : Life → Event → Life
advance l launch = record { running = false; over = false; waiting = false }
advance l begin = if l.running then l else record { running = true; over = false; waiting = true }
advance l halt = if l.running then record l { running = false; over = true } else l
advance l (ticked now wall) = l
advance l (timer_fired now wall canceled) = record l { waiting = false }

-- A window that an event opens, with the clock of the process.
pub record Opening : Type 0 where
  pub job : Job
  pub canceled : Bool
  pub at : ℕ
  pub wall : ℕ

abbrev opening : Option Job → ℕ → ℕ → Option Opening
opening none now wall = none
opening (some job) now wall = some (record { job = job; canceled = false; at = now; wall = wall })

abbrev pub due : Life → Event → Option Opening
due l (ticked now wall) = if l.running then opening (window_at now) now wall else none
due l (timer_fired now wall canceled) =
    if l.waiting && not l.over
    then some (record { job = startup_refresh; canceled = canceled; at = now; wall = wall })
    else none
due l _ = none

-- The state in which a due window is claimed.
abbrev pub entered : System → Event → System
entered s (ticked now wall) = record s { wall = wall }
entered s (timer_fired now wall canceled) = record s { wall = wall; timer_pending = false }
entered s _ = s

pub step-due :
    (w : Wiring) (s : System) (e : Event) (u : Opening)
    → due (life_of s) e ≡ some u
    → (step w s e ≡ (claimed w u.job u.canceled u.at (entered s e)).1)
      × ((entered s e).wall ≡ u.wall)
unfolding step tick dispatch run_startup_catch_up
step-due w s launch u h = cc
step-due w s begin u h = cc
step-due w s halt u h = cc
step-due w s (ticked now wall) u h = ground arith
step-due w s (timer_fired now wall canceled) u h = ground arith

pub when-due :
    (l : Life) (d : ℕ) (e : Event) (u : Opening) → due l e ≡ some u → when d e ≡ day_of u.at
when-due l d launch u h = cc
when-due l d begin u h = cc
when-due l d halt u h = cc
when-due l d (ticked now wall) u h = ground arith
when-due l d (timer_fired now wall canceled) u h = ground arith

-- An event that opens no window makes no claim and no call.
pub record Idle (s t : System) : Type 0 where
  pub same_calls : t.calls ≡ s.calls
  pub same_rows : t.crawl_log ≡ s.crawl_log
  pub same_faults : t.faults ≡ s.faults
  pub same_runs : (j : Job) (d : ℕ) → t.last_run j ≡ some d → s.last_run j ≡ some d

pub step-Idle :
    (w : Wiring) (s : System) (e : Event) → due (life_of s) e ≡ none → Idle s (step w s e)
unfolding step tick dispatch run_startup_catch_up start stop new_scheduler
step-Idle w s launch h = record {
  same_calls = refl;
  same_rows = refl;
  same_faults = refl;
  same_runs = λ j d k. absurd (ground arith);
}
step-Idle w s begin h = record {
  same_calls = ground arith;
  same_rows = ground arith;
  same_faults = ground arith;
  same_runs = λ j d k. ground arith;
}
step-Idle w s halt h = record {
  same_calls = ground arith;
  same_rows = ground arith;
  same_faults = ground arith;
  same_runs = λ j d k. ground arith;
}
step-Idle w s (ticked now wall) h = record {
  same_calls = ground arith;
  same_rows = ground arith;
  same_faults = ground arith;
  same_runs = λ j d k. ground arith;
}
step-Idle w s (timer_fired now wall canceled) h = record {
  same_calls = ground arith;
  same_rows = ground arith;
  same_faults = ground arith;
  same_runs = λ j d k. ground arith;
}

pub entered-Idle : (s : System) (e : Event) → Idle s (entered s e)
entered-Idle s launch = record {
  same_calls = refl;
  same_rows = refl;
  same_faults = refl;
  same_runs = λ j d k. k;
}
entered-Idle s begin = record {
  same_calls = refl;
  same_rows = refl;
  same_faults = refl;
  same_runs = λ j d k. k;
}
entered-Idle s halt = record {
  same_calls = refl;
  same_rows = refl;
  same_faults = refl;
  same_runs = λ j d k. k;
}
entered-Idle s (ticked now wall) = record {
  same_calls = refl;
  same_rows = refl;
  same_faults = refl;
  same_runs = λ j d k. k;
}
entered-Idle s (timer_fired now wall canceled) = record {
  same_calls = refl;
  same_rows = refl;
  same_faults = refl;
  same_runs = λ j d k. k;
}

dispatch-life :
    (w : Wiring) (o : Option Job) (now : ℕ) (s : System)
    → life_of (dispatch w o now s).1 ≡ life_of s
unfolding dispatch
dispatch-life w none now s = refl
dispatch-life w (some job) now s = ground (
  arith,
  claimed-started w job false now s,
  claimed-stopped w job false now s,
  claimed-pending w job false now s,
)

pub step-life : (w : Wiring) (s : System) (e : Event) → life_of (step w s e) ≡ advance (life_of s) e
unfolding step tick run_startup_catch_up start stop new_scheduler
step-life w s launch = refl
step-life w s begin = ground arith
step-life w s halt = ground arith
step-life w s (ticked now wall) =
    ground (arith, dispatch-life w (window_at now) now (record s { wall = wall }))
step-life w s (timer_fired now wall canceled) =
    let s' = record s { wall = wall; timer_pending = false } in
    ground (
      arith,
      claimed-started w startup_refresh canceled now s',
      claimed-stopped w startup_refresh canceled now s',
      claimed-pending w startup_refresh canceled now s',
    )
