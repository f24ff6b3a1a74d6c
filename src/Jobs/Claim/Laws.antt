-- ===== src/Jobs/Claim/Laws.antt =====
-- What a claim changes, and when it is granted.
use fund_dashboard.Prelude.{
  ℕ, ◌≡◌, ◌≢◌, refl, subst, sym, ap, ◌∙◌, Bool, true, false, not, [], Option, some, arith, All,
  Bool-cases, inl, inr,
}
use fund_dashboard.Dialect.{is_missing_table_error}
use fund_dashboard.Jobs.Calendar.{Job, startup_refresh, price_dca, holdings, wal, dca_backfill}
use fund_dashboard.Jobs.System.{Wiring, System, same_job}
use fund_dashboard.Jobs.Claim.{
  statement, date_of, select_date, write_claim, is_window, raced, after_insert, after_update,
  after_lookup, claim_window_durable, claim_window,
}

pub same_job_refl : (j : Job) → same_job j j ≡ true
same_job_refl startup_refresh = refl
same_job_refl price_dca = refl
same_job_refl holdings = refl
same_job_refl wal = refl
same_job_refl dca_backfill = refl

pub same_job-eq : (j k : Job) → same_job j k ≡ true → j ≡ k
same_job-eq startup_refresh startup_refresh h = refl
same_job-eq price_dca price_dca h = refl
same_job-eq holdings holdings h = refl
same_job-eq wal wal h = refl
same_job-eq dca_backfill dca_backfill h = refl
same_job-eq _ _ h = ground arith

-- The date in the row of a job.
abbrev pub row_date : System → Job → Option ℕ
row_date s job = date_of (s.crawl_log job)

-- An error that a missing table explains is not among the faults to come.
abbrev pub HasTable : System → Type 0
HasTable s = All (λ r. is_missing_table_error r ≡ false) s.faults

-- What every claim keeps.
pub record Keeps (s : System) (job : Job) (t : System) : Type 0 where
  pub same_calls : t.calls ≡ s.calls
  pub same_replies : t.replies ≡ s.replies
  pub same_started : t.started ≡ s.started
  pub same_stopped : t.stopped ≡ s.stopped
  pub same_pending : t.timer_pending ≡ s.timer_pending
  pub same_wall : t.wall ≡ s.wall
  pub other_rows : (k : Job) → same_job job k ≡ false → t.crawl_log k ≡ s.crawl_log k
  pub other_runs : (k : Job) → same_job job k ≡ false → t.last_run k ≡ s.last_run k

durable-Keeps : (job : Job) (d : ℕ) (s : System) → Keeps s job (claim_window_durable job d s).1
unfolding claim_window_durable select_date statement after_lookup write_claim after_insert raced
durable-Keeps job d s = record {
  same_calls = ground arith;
  same_replies = ground arith;
  same_started = ground arith;
  same_stopped = ground arith;
  same_pending = ground arith;
  same_wall = ground arith;
  other_rows = λ k h. ground arith;
  other_runs = λ k h. ground arith;
}

pub claim-Keeps :
    (w : Wiring) (job : Job) (d : ℕ) (s : System) → Keeps s job (claim_window w job d s).1
unfolding claim_window
claim-Keeps w job d s =
    let q = durable-Keeps job d s in
    record {
      same_calls = ground (arith, q.same_calls);
      same_replies = ground (arith, q.same_replies);
      same_started = ground (arith, q.same_started);
      same_stopped = ground (arith, q.same_stopped);
      same_pending = ground (arith, q.same_pending);
      same_wall = ground (arith, q.same_wall);
      other_rows = λ k h. ground (arith, q.other_rows k h);
      other_runs = λ k h. ground (arith, q.other_runs k h);
    }

-- A claim that is refused leaves the row; one that is granted has moved it to its date, unless
-- there is no table.
pub record Decides (s : System) (job : Job) (d : ℕ) (won : Bool) (t : System) : Type 0 where
  pub refusal : won ≡ false → t.crawl_log job ≡ s.crawl_log job
  pub fresh : won ≡ true → row_date s job ≢ some d
  pub moved : won ≡ true → row_date t job ≡ some d
  pub table : HasTable t

durable-Decides :
    (job : Job) (d : ℕ) (s : System)
    → HasTable s
    → Decides s job d (claim_window_durable job d s).0 (claim_window_durable job d s).1
unfolding claim_window_durable select_date statement after_lookup write_claim after_insert raced
    after_update
durable-Decides job d s h = record {
  refusal = λ e. ground arith;
  fresh = λ e. ground arith;
  moved = λ e. ground (arith, same_job_refl job);
  table = ground arith;
}

pub claim-Decides :
    (w : Wiring) (job : Job) (d : ℕ) (s : System)
    → w.has_db ≡ true
    → HasTable s
    → Decides s job d (claim_window w job d s).0 (claim_window w job d s).1
unfolding claim_window
claim-Decides w job d s db h =
    let q = durable-Decides job d s h in
    record {
      refusal = λ e. ground (arith, q.refusal);
      fresh = λ e. ground (arith, q.fresh);
      moved = λ e. ground (arith, q.moved);
      table = ground (arith, q.table);
    }

-- The map of the process knows only what the rows know.
abbrev pub Tracks : System → Type 0
Tracks s = (j : Job) (d : ℕ) → s.last_run j ≡ some d → row_date s j ≡ some d

-- Without faults a claim is granted exactly if the row has another date, and then has this one.
pub record Healthy (s : System) (job : Job) (d : ℕ) (won : Bool) (t : System) : Type 0 where
  pub granted : won ≡ not (is_window (row_date s job) d)
  pub dated : row_date t job ≡ some d
  pub no_faults : t.faults ≡ []

durable-Healthy :
    (job : Job) (d : ℕ) (s : System)
    → s.faults ≡ []
    → Healthy s job d (claim_window_durable job d s).0 (claim_window_durable job d s).1
unfolding claim_window_durable select_date statement after_lookup write_claim after_insert raced
    after_update
durable-Healthy job d s h = ground (arith, same_job_refl job)

pub claim-Healthy :
    (w : Wiring) (job : Job) (d : ℕ) (s : System)
    → w.has_db ≡ true
    → s.faults ≡ []
    → Tracks s
    → Healthy s job d (claim_window w job d s).0 (claim_window w job d s).1
unfolding claim_window
claim-Healthy w job d s db h tr = ground (arith, durable-Healthy job d s h, tr job d)

claim-last_run :
    (w : Wiring) (job : Job) (d : ℕ) (s : System) → (claim_window w job d s).1.last_run job ≡ some d
unfolding claim_window
claim-last_run w job d s = ground (arith, same_job_refl job)

pub claim-Tracks :
    (w : Wiring) (job : Job) (d : ℕ) (s : System)
    → w.has_db ≡ true
    → s.faults ≡ []
    → Tracks s
    → Tracks (claim_window w job d s).1
claim-Tracks w job d s db h tr j e known =
    let k = claim-Keeps w job d s in
    let q = claim-Healthy w job d s db h tr in
    elim (Bool-cases (same_job job j)) [
      | inl same ↦
          let p = same_job-eq job j same in
          subst
            (λ i.
              (claim_window w job d s).1.last_run i ≡ some e
              → row_date (claim_window w job d s).1 i ≡ some e)
            p (λ l. cc (q.dated, claim-last_run w job d s)) known
      | inr other ↦
          cc (tr j e (sym (k.other_runs j other) ∙ known), ap date_of (k.other_rows j other))
    ]

pub same_job_comm : (j k : Job) → same_job j k ≡ same_job k j
same_job_comm j k = ground arith
