-- ===== src/Jobs/Scheduler/Once.antt =====
-- No call of a window is made twice on a day, whatever statements fail and processes end.
use fund_dashboard.Prelude.{
  ℕ, All, Bytes, ◌+◌, ◌≡◌, ◌≢◌, ◌≤◌, ◌<◌, Bool, true, false, ◌&&◌, List, [], ◌∷◌, Option, some,
  ◌==◌, arith, subst, sym, ap, ◌∙◌, Bool-cases, Option-cases, inl, inr,
}
use native.Mathlib.Decide.{dec_lt}
use fund_dashboard.Dialect.{is_missing_table_error}
use fund_dashboard.Jobs.Calendar.{Job, day_of}
use fund_dashboard.Jobs.Claim.{date_of}
use fund_dashboard.Jobs.System.{Action, ClaimRow, Wiring, System, same_job, answer}
use fund_dashboard.Jobs.Claim.Laws.{
  row_date, HasTable, same_job_refl, claim-Keeps, claim-Decides, same_job-eq,
}
use fund_dashboard.Jobs.Scheduler.{claimed, Event, step, run}
use fund_dashboard.Jobs.Scheduler.Plan.{made}
use fund_dashboard.Jobs.Scheduler.Plan.Once.{plan_once}
use fund_dashboard.Jobs.Scheduler.Adds.{is_nil}
use fund_dashboard.Jobs.Scheduler.Claimed.{
  granted, after_claim, claimed-made, claimed-rows, claimed-faults,
}
use fund_dashboard.Jobs.Scheduler.Due.{
  life_of, due, when, when-due, entered, entered-Idle, step-due, Idle, step-Idle,
}

-- The clock never goes back to an earlier day.
abbrev pub InOrder : ℕ → List Event → Type 0
InOrder d [] = Unit
InOrder d (e ∷ es) = (d ≤ when d e) × InOrder (when d e) es

-- For one call of one job on the day `d`, when the day `today` has been reached.
record Once (job : Job) (a : Action) (d today : ℕ) (s : System) : Type 0 where
  pub at_most : made job a d s.calls ≤ 1
  pub not_yet : today < d → made job a d s.calls ≡ 0
  pub unclaimed : today ≡ d → row_date s job ≢ some d → made job a d s.calls ≡ 0

Once-fresh :
    {job : Job} (a : Action) (d today : ℕ) {s : System}
    → Once job a d today s
    → today ≤ d
    → row_date s job ≢ some d
    → made job a d s.calls ≡ 0
Once-fresh a d today o le r = elim (dec_lt today d) [
  | yes l ↦ o.not_yet l
  | no l ↦ o.unclaimed (omega arith) r
]

-- Whether a claim is the one for a job on a day, and is granted.
abbrev hit : Wiring → Job → ℕ → System → Job → ℕ → Bool
hit w job now s k d = granted w job now s && same_job k job && (day_of now == d)

module _ (w : Wiring) (job k : Job) (c : Bool) (now : ℕ) (s : System) (db : w.has_db ≡ true)
    (t : HasTable s) where
  row-claimed : row_date (claimed w job c now s).1 k ≡ row_date (after_claim w job now s) k
  row-claimed = ap (λ (rows : Job → Option ClaimRow). date_of (rows k)) (claimed-rows w job c now s)

  row_missed :
      hit w job now s k (day_of now) ≡ false → row_date (claimed w job c now s).1 k ≡ row_date s k
  row_missed miss = elim (Bool-cases (same_job job k)) [
    | inl same ↦
        let q = claim-Decides w job (day_of now) s db t in
        let p = same_job-eq job k same in
        row-claimed
        ∙ subst (λ j. row_date (after_claim w job now s) j ≡ row_date s j) p
            (ap date_of (
              q.refusal (
                subst (λ j. hit w job now s j (day_of now) ≡ false → granted w job now s ≡ false) p
                  (λ m. ground (arith, same_job_refl job, m)) miss)))
    | inr other ↦ row-claimed ∙ ap date_of ((claim-Keeps w job (day_of now) s).other_rows k other)
  ]

  hit_parts :
      (d : ℕ)
      → hit w job now s k d ≡ true
      → (granted w job now s ≡ true) × (job ≡ k) × (day_of now ≡ d)
  hit_parts d h = (ground arith, sym (same_job-eq k job (ground arith)), ground arith)

  row_hit :
      (d : ℕ)
      → hit w job now s k d ≡ true
      → (day_of now ≡ d) × (row_date s k ≢ some d) × (row_date (claimed w job c now s).1 k ≡ some d)
  row_hit d h =
      let (won, p, today) = hit_parts d h in
      let q = claim-Decides w job (day_of now) s db t in
      (
        today,
        subst (λ j. row_date s j ≢ some d) p
            (subst (λ e. row_date s job ≢ some e) today (q.fresh won)),
        row-claimed
            ∙ subst (λ j. row_date (after_claim w job now s) j ≡ some d) p
                (q.moved won ∙ ap some today),
      )

  made-hit :
      (a : Action) (d : ℕ)
      → 7 ≤ day_of now
      → hit w job now s k d ≡ true
      → made k a d (claimed w job c now s).1.calls ≤ made k a d s.calls + 1
  made-hit a d week h = rw (claimed-made w job c now s k a d) (
      rw h
        (omega (arith, plan_once w job a c (is_nil (answer s.replies)) (day_of now) s.wall week)))

  made_missed :
      (a : Action) (d : ℕ)
      → hit w job now s k d ≡ false
      → made k a d (claimed w job c now s).1.calls ≡ made k a d s.calls
  made_missed a d h = rw (claimed-made w job c now s k a d) (rw h (omega arith))

  claimed-Once :
      (a : Action) (d today : ℕ)
      → 7 ≤ day_of now
      → today ≤ day_of now
      → Once k a d today s
      → Once k a d (day_of now) (claimed w job c now s).1
  claimed-Once a d today week le o = elim (Bool-cases (hit w job now s k d)) [
    | inl h ↦
        let (same, free, taken) = row_hit d h in
        let none_yet = Once-fresh a d today o (omega arith) free in
        let more = made-hit a d week h in
        record {
          at_most = omega arith;
          not_yet = λ l. absurd (omega arith);
          unclaimed = λ _ r. absurd (r taken);
        }
    | inr m ↦
        let n = made_missed a d m in
        record {
          at_most = omega (arith, o.at_most);
          not_yet = λ l. n ∙ o.not_yet (omega arith);
          unclaimed = λ e r.
              n
              ∙ Once-fresh a d today o (omega arith)
                  (λ h. r (row_missed (subst (λ x. hit w job now s k x ≡ false) (sym e) m) ∙ h));
        }
  ]

  claimed-HasTable : HasTable (claimed w job c now s).1
  claimed-HasTable =
      subst (λ (fs : List (Option Bytes)). All (λ r. is_missing_table_error r ≡ false) fs)
        (sym (claimed-faults w job c now s)) (claim-Decides w job (day_of now) s db t).table

Once-later :
    {job : Job} (a : Action) (d : ℕ) {today later : ℕ} {s t : System}
    → today ≤ later
    → Idle s t
    → Once job a d today s
    → Once job a d later t
Once-later {job} a d {today} {later} {s} {t} le i o =
    let n = ap (made job a d) i.same_calls in
    record {
      at_most = omega (arith, o.at_most, n);
      not_yet = λ l. n ∙ o.not_yet (omega arith);
      unclaimed = λ e r.
          n
          ∙ Once-fresh a d today o (omega arith)
              (λ h. r (ap (λ (rows : Job → Option ClaimRow). date_of (rows job)) i.same_rows ∙ h));
    }

Idle-HasTable : {s t : System} → Idle s t → HasTable s → HasTable t
Idle-HasTable i h =
    subst (λ (fs : List (Option Bytes)). All (λ r. is_missing_table_error r ≡ false) fs)
      (sym i.same_faults) h

-- One event.
module _ (w : Wiring) (k : Job) (a : Action) (d : ℕ) (db : w.has_db ≡ true) where
  step-Once :
      (today : ℕ) (s : System) (e : Event)
      → HasTable s
      → 7 ≤ today
      → today ≤ when today e
      → Once k a d today s
      → Once k a d (when today e) (step w s e) × HasTable (step w s e)
  step-Once today s e t week le o = elim (Option-cases (due (life_of s) e)) [
    | inl idle ↦ let i = step-Idle w s e idle in (Once-later a d le i o, Idle-HasTable i t)
    | inr (u, h) ↦
        let (same, _) = step-due w s e u h in
        let i = entered-Idle s e in
        let o' = Once-later a d {later = today} (omega arith) i o in
        subst (λ x. Once k a d x (step w s e) × HasTable (step w s e))
          (sym (when-due (life_of s) today e u h))
          (subst (λ t. Once k a d (day_of u.at) t × HasTable t) (sym same)
            (
              claimed-Once w u.job k u.canceled u.at (entered s e) db (Idle-HasTable i t) a d today
                  (subst (λ (x : ℕ). 7 ≤ x) (when-due (life_of s) today e u h) (omega arith))
                  (subst (λ (x : ℕ). today ≤ x) (when-due (life_of s) today e u h) le) o',
              claimed-HasTable w u.job k u.canceled u.at (entered s e) db (Idle-HasTable i t),
            ))
  ]

  run-Once :
      (today : ℕ) (s : System) (es : List Event)
      → HasTable s
      → 7 ≤ today
      → InOrder today es
      → Once k a d today s
      → made k a d (run w s es).calls ≤ 1
  unfolding run
  run-Once today s [] t week order o = o.at_most
  run-Once today s (e ∷ es) t week order o =
      let (o', t') = step-Once today s e t week order.0 o in
      run-Once (when today e) (step w s e) es t' (omega arith) order.1 o'

-- Over any events, with restarts of the process and failing statements, and for every job and day,
-- the scheduler makes each call of the job at most once in the windows of that day, if the claims
-- have a database whose faults do not say that a table is missing, and the clock does not go back
-- to an earlier day nor begins in the first week of 1970.
pub once_per_day :
    (w : Wiring) (s : System) (es : List Event) (job : Job) (a : Action) (d today : ℕ)
    → w.has_db ≡ true
    → HasTable s
    → s.calls ≡ []
    → 7 ≤ today
    → InOrder today es
    → made job a d (run w s es).calls ≤ 1
once_per_day w s es job a d today db t fresh week order =
    let zero = ap (made job a d) fresh in
    run-Once w job a d db today s es t week order
      (record { at_most = omega (arith, zero); not_yet = λ _. zero; unclaimed = λ _ _. zero })
