-- ===== src/Jobs/Scheduler/Backfill.antt =====
-- Due dates of the ledger that were missed are replayed.
use fund_dashboard.Prelude.{
  ℕ, ◌-◌, ◌≡◌, ◌≢◌, ◌≤◌, true, List, [], ◌∷◌, ◌++◌, Option, none, some, arith, refl, sym, ap, ◌∙◌,
  Bool-cases, inl, inr,
}
use fund_dashboard.Jobs.Calendar.{Job, dca_backfill, day_of, window_at}
use fund_dashboard.Jobs.System.{run_dca, Wiring, System}
use fund_dashboard.Jobs.Claim.Laws.{row_date, same_job-eq}
use fund_dashboard.Jobs.Scheduler.{is_workday, Event, ticked, run}
use fund_dashboard.Jobs.Scheduler.Plan.{plan, times, backfill, made}
use fund_dashboard.Jobs.Scheduler.Plan.Once.{times-dates}
use fund_dashboard.Jobs.Scheduler.Due.{Life, Opening, life_of, advance, due}
use fund_dashboard.Jobs.Scheduler.Once.{InOrder}
use fund_dashboard.Jobs.Scheduler.Exact.{ideal, opens, first_of, runs_exact}

-- The life of a process after events.
abbrev pub lives : Life → List Event → Life
lives l [] = l
lives l (e ∷ es) = lives (advance l e) es

-- Every window of this job makes the same calls on a day.
first_of-backfill :
    (w : Wiring) (d : ℕ) (o : Option Opening)
    → first_of o dca_backfill d (λ u. plan w u.job u.canceled d u.wall true) (backfill w d)
      ≡ backfill w d
first_of-backfill w d none = refl
first_of-backfill w d (some u) = elim (Bool-cases (opens dca_backfill d u)) [
  | inl o ↦ rw o (
      ap (λ j. plan w j u.canceled d u.wall true)
        (sym (same_job-eq dca_backfill u.job (ground arith))))
  | inr o ↦ rw o
]

-- A tick in the morning band opens the window of its day, whatever came before.
ideal-backfill :
    (w : Wiring) (l : Life) (d : ℕ) (before after : List Event) (now wall : ℕ)
    → (lives l before).running ≡ true
    → window_at now ≡ some dca_backfill
    → day_of now ≡ d
    → ideal w l dca_backfill d (before ++ ticked now wall ∷ after) ≡ backfill w d
unfolding ideal
ideal-backfill w l d [] after now wall r b e = ground arith
ideal-backfill w l d (x ∷ before) after now wall r b e =
    rw (ideal-backfill w (advance l x) d before after now wall r b e)
      (first_of-backfill w d (due l x))

times-backfill :
    (w : Wiring) (d i : ℕ)
    → w.has_dca ≡ true
    → is_workday d ≡ true
    → 7 ≤ d
    → 1 ≤ i
    → i ≤ 7
    → times (run_dca (d - i)) (backfill w d) ≡ 1
times-backfill w d i has work week low high =
    rw (has, work) (times-dates (d - i) d 7 week ∙ ground arith)

-- While the statements on crawl_log work, a running process that meets a tick of the morning band
-- on a weekday replays, exactly once in the morning windows of that day, the due date of each of
-- the seven days before, whatever events come before and after, for a new process, a day not yet
-- claimed, a clock that does not go back to an earlier day, and a ledger that is there.
pub missed_replayed :
    (w : Wiring) (s : System) (before after : List Event) (now wall i today : ℕ)
    → w.has_db ≡ true
    → w.has_dca ≡ true
    → s.faults ≡ []
    → ((j : Job) → s.last_run j ≡ none)
    → s.calls ≡ []
    → row_date s dca_backfill ≢ some (day_of now)
    → 7 ≤ today
    → today ≤ day_of now
    → InOrder today (before ++ ticked now wall ∷ after)
    → (lives (life_of s) before).running ≡ true
    → window_at now ≡ some dca_backfill
    → is_workday (day_of now) ≡ true
    → 1 ≤ i
    → i ≤ 7
    → made dca_backfill
        (run_dca (day_of now - i))
        (day_of now)
        (run w s (before ++ ticked now wall ∷ after)).calls
      ≡ 1
missed_replayed w s before after now wall i today db has sound new fresh free week le order live
      band work low high =
    runs_exact w s (before ++ ticked now wall ∷ after) dca_backfill (run_dca (day_of now - i))
      (day_of now) today db sound new fresh free le order (λ e. cc)
    ∙ ap (times (run_dca (day_of now - i)))
        (ideal-backfill w (life_of s) (day_of now) before after now wall live band refl)
    ∙ times-backfill w (day_of now) i has work (omega arith) low high
