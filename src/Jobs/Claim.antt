-- ===== src/Jobs/Claim.antt =====
-- The claim of a window: the map of the process, then the row of the job in crawl_log. The rows
-- stand under "__sched_" + job, one for each job, and no other job writes them. The
-- deletion of a security by such a code, which would drop its row, is left out.
pub mod Laws
use fund_dashboard.Prelude.{
  ℕ, Bool, true, false, not, ◌&&◌, ◌||◌, List, [], ◌∷◌, Option, none, some, ◌==◌, if◌then◌else◌,
  Bytes,
}
use fund_dashboard.Dialect.{is_missing_table_error}
use fund_dashboard.Jobs.Calendar.{Job}
use fund_dashboard.Jobs.System.{
  ClaimRow, Wiring, System, put, Sched, ◌>>=◌, ◌>>◌, pure, answer, left,
}

-- What a statement on crawl_log gives: its value, or the text of an error.
pub data Answer (A : Type 0) : Type 0 where
  rows : A → Answer A
  refused : Bytes → Answer A

-- A statement whose error leaves the table as it is.
statement : {A : Type 0} → (System → A × System) → Sched (Answer A)
statement f s =
    let s' = record s { faults = left s.faults } in
    elim (answer s.faults) [ none ↦ (rows (f s').0, (f s').1) | some err ↦ (refused err, s') ]

abbrev pub date_of : Option ClaimRow → Option ℕ
date_of none = none
date_of (some r) = some r.latest_date

select_date : Job → Sched (Answer (Option ℕ))
select_date job = statement (λ s. (date_of (s.crawl_log job), s))

-- `INSERT`, or the `UPDATE` of all columns but the key.
write_claim : Job → ℕ → Sched (Answer (Unit {0}))
write_claim job window = statement λ s. (
  tt,
  record s {
    crawl_log =
        put job (record { source = job; latest_date = window; crawled_at = s.wall }) s.crawl_log;
  },
)

abbrev pub is_window : Option ℕ → ℕ → Bool
is_window none window = false
is_window (some d) window = d == window

-- After a failed `INSERT`: whether another process was faster makes no difference to the answer.
raced : Job → ℕ → Sched Bool
raced job window = select_date job >>= λ again. pure false

after_insert : Job → ℕ → Answer (Unit {0}) → Sched Bool
after_insert job window (rows _) = pure true
after_insert job window (refused err) =
    if is_missing_table_error (some err) then pure true else raced job window

after_update : Answer (Unit {0}) → Bool
after_update (rows _) = true
after_update (refused err) = false

after_lookup : Job → ℕ → Answer (Option ℕ) → Sched Bool
after_lookup job window (refused err) = pure (is_missing_table_error (some err))
after_lookup job window (rows none) = write_claim job window >>= after_insert job window
after_lookup job window (rows (some existing)) =
    if existing == window then pure false else write_claim job window >>= λ r. pure (after_update r)

claim_window_durable : Job → ℕ → Sched Bool
claim_window_durable job window = select_date job >>= after_lookup job window

abbrev mark_run : Job → ℕ → System → System
mark_run job window s = record s { last_run = put job window s.last_run }

-- Both answers of the row mark the window in the map of the process.
unfoldable pub claim_window : Wiring → Job → ℕ → Sched Bool
unfolding claim_window_durable after_lookup after_update after_insert raced write_claim select_date
    statement
claim_window w job window s =
    if is_window (s.last_run job) window
    then (false, s)
    else if w.has_db
    then (
      (claim_window_durable job window s).0,
      mark_run job window (claim_window_durable job window s).1,
    )
    else (true, mark_run job window s)
