-- ===== src/Jobs/Calendar/NextRun.antt =====
-- The next window that the status of a job announces.
use fund_dashboard.Prelude.{ℕ, ◌+◌, ◌*◌, ◌/◌, ◌%◌, ◌≤◌, ◌<◌, ◌≡◌, ◌≢◌, refl, some, arith, second}
use fund_dashboard.Jobs.Calendar.{
  Job, startup_refresh, price_dca, holdings, wal, dca_backfill, loc, weekday_of, next_run_epoch,
  window_at,
}

-- The Unix seconds at which a window of a job begins.
pub Begins : Job → ℕ → Type 0
Begins price_dca s = (s + loc) % 86400 ≡ 20 * 3600
Begins holdings s = ((s + loc) % 86400 ≡ 10 * 3600) × (weekday_of ((s + loc) / 86400) ≡ 6)
Begins wal s = (s + loc) % 86400 ≡ 3 * 3600
Begins startup_refresh s = ⊥
Begins dca_backfill s = ⊥

abbrev pub IsNext : Job → ℕ → ℕ → Type 0
IsNext job now s =
    Begins job s
    × (now < s * second)
    × ((r : ℕ) → Begins job r → now < r * second → s ≤ r)
    × ((t : ℕ) → s * second ≤ t → t < (s + 3600) * second → window_at t ≡ some job)

price_dca-IsNext : (now : ℕ) → IsNext price_dca now (next_run_epoch price_dca now)
unfolding next_run_epoch Begins window_at
price_dca-IsNext now = (ground arith, ground arith, λ r h l. ground arith, λ t h l. ground arith)

wal-IsNext : (now : ℕ) → IsNext wal now (next_run_epoch wal now)
unfolding next_run_epoch Begins window_at
wal-IsNext now = (ground arith, ground arith, λ r h l. ground arith, λ t h l. ground arith)

holdings-IsNext : (now : ℕ) → IsNext holdings now (next_run_epoch holdings now)
unfolding next_run_epoch Begins window_at
holdings-IsNext now =
    ((ground arith, ground arith), ground arith, λ r h l. ground arith, λ t h l. ground arith)

-- For each job with a recurring window, the announced next run is the first begin of a window of
-- the job after the present, and every tick in the hour from then on opens the window of this job.
pub next_run_epoch-IsNext :
    (job : Job) (now : ℕ)
    → job ≢ startup_refresh
    → job ≢ dca_backfill
    → IsNext job now (next_run_epoch job now)
next_run_epoch-IsNext price_dca now _ _ = price_dca-IsNext now
next_run_epoch-IsNext holdings now _ _ = holdings-IsNext now
next_run_epoch-IsNext wal now _ _ = wal-IsNext now
next_run_epoch-IsNext startup_refresh now h _ = absurd (h refl)
next_run_epoch-IsNext dca_backfill now _ h = absurd (h refl)
