-- ===== src/Jobs/System.antt =====
-- The state of the scheduler of internal/jobs/scheduler.go, across the processes that run one after
-- another over one database. What it calls outside answers with an error or none, by a schedule.
use fund_dashboard.Prelude.{
  ℕ, Bool, true, false, List, [], ◌∷◌, Option, none, some, if◌then◌else◌, Bytes,
}
use fund_dashboard.Jobs.Calendar.{Job, startup_refresh, price_dca, holdings, wal, dca_backfill}

-- What the scheduler calls: the refreshers, the ledger, the database and the sweepers. A run of the
-- ledger names its `AsOf` date, a sweep its cutoff.
pub data Action : Type 0 where
  refresh_stale_held refresh_all_held refresh_indices crawl_all_held : Action
  probe_sqlite wal_checkpoint sweep_expired : Action
  run_dca : ℕ → Action
  delete_sessions delete_confirmations delete_audit_events sweep_auth_events : ℕ → Action

-- A call made on behalf of a job in the window of a time.
pub record Call : Type 0 where
  pub job : Job
  pub at : ℕ
  pub action : Action

-- A row of crawl_log under the claim code of a job.
pub record ClaimRow : Type 0 where
  pub source : Job
  pub latest_date : ℕ
  pub crawled_at : ℕ

pub record JobRuntime : Type 0 where
  pub last_run : ℕ
  pub last_err : Option Bytes

-- Which of the collaborators that may be nil are there.
pub record Wiring : Type 0 where
  pub has_db : Bool
  pub has_holdings : Bool
  pub has_dca : Bool
  pub has_indices : Bool
  pub has_session_sweep : Bool
  pub has_auth_sweep : Bool

-- `crawl_log`, `calls` (newest first) and the two schedules outlive a process. `started` is a stop
-- channel that is not nil, `timer_pending` a catch-up goroutine that waits.
pub record System : Type 0 where
  pub crawl_log : Job → Option ClaimRow
  pub calls : List Call
  pub replies : List (Option Bytes)
  pub faults : List (Option Bytes)
  pub wall : ℕ
  pub last_run : Job → Option ℕ
  pub jobs : Job → Option JobRuntime
  pub started : Bool
  pub stopped : Bool
  pub timer_pending : Bool

abbrev pub same_job : Job → Job → Bool
same_job startup_refresh startup_refresh = true
same_job price_dca price_dca = true
same_job holdings holdings = true
same_job wal wal = true
same_job dca_backfill dca_backfill = true
same_job _ _ = false

-- `m[job] = v`
abbrev pub put {ℓ} : {V : Type ℓ} → Job → V → (Job → Option V) → Job → Option V
put job v m k = if same_job job k then some v else m k

abbrev pub Sched : Type 0 → Type 0
Sched A = System → A × System

infixl 5 ◌>>=◌ ◌>>◌
abbrev pub ◌>>=◌ : {A B : Type 0} → Sched A → (A → Sched B) → Sched B
◌>>=◌ m f s = f (m s).0 (m s).1

abbrev pub ◌>>◌ : {A B : Type 0} → Sched A → Sched B → Sched B
◌>>◌ m k = m >>= λ _. k

abbrev pub pure : {A : Type 0} → A → Sched A
pure a s = (a, s)

-- The next answer of a schedule, and what is left of it; it answers with no error when it is empty.
abbrev pub answer : List (Option Bytes) → Option Bytes
answer [] = none
answer (r ∷ rs) = r

abbrev pub left : List (Option Bytes) → List (Option Bytes)
left [] = []
left (r ∷ rs) = rs

unfoldable pub call : Job → ℕ → Action → Sched (Option Bytes)
call job now a s = (
  answer s.replies,
  record s {
    calls = record { job = job; at = now; action = a } ∷ s.calls;
    replies = left s.replies;
  },
)

-- A call that is made only if its collaborator is there.
abbrev pub when : Bool → Sched (Option Bytes) → Sched (Option Bytes)
when b m s = if b then m s else (none, s)

-- The first error of two.
abbrev pub first_err : Option Bytes → Option Bytes → Option Bytes
first_err none e = e
first_err (some d) e = some d
