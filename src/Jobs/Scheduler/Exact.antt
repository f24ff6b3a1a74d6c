-- ===== src/Jobs/Scheduler/Exact.antt =====
-- Without faults the claims are invisible: the scheduler makes the calls of one that keeps no
-- record and works the first window that is due on each day.
use fund_dashboard.Prelude.{
  ℕ, ◌+◌, ◌≡◌, ◌≢◌, ◌≤◌, ◌<◌, ◌⊎◌, Bool, true, false, not, ◌&&◌, List, [], ◌∷◌, Option, none, some,
  ◌==◌, if◌then◌else◌, arith, refl, subst, sym, ap, ◌∙◌, Bool-cases, Option-cases, inl, inr,
}
use native.Mathlib.Decide.{dec_lt}
use fund_dashboard.Jobs.Calendar.{
  Job, startup_refresh, price_dca, holdings, wal, dca_backfill, day_of,
}
use fund_dashboard.Jobs.Claim.{date_of, is_window}
use fund_dashboard.Jobs.System.{Action, wal_checkpoint, ClaimRow, Wiring, System, same_job, answer}
use fund_dashboard.Jobs.Claim.Laws.{
  row_date, Tracks, claim-Keeps, claim-Healthy, claim-Tracks, same_job-eq, same_job_comm,
}
use fund_dashboard.Jobs.Scheduler.{claimed, Event, step, run}
use fund_dashboard.Jobs.Scheduler.Plan.{times, made, plan}
use fund_dashboard.Jobs.Scheduler.Adds.{is_nil}
use fund_dashboard.Jobs.Scheduler.Claimed.{
  granted, after_claim, claimed-made, claimed-rows, claimed-last_run, claimed-faults,
}
use fund_dashboard.Jobs.Scheduler.Due.{
  Life, life_of, advance, Opening, due, when, when-due, entered, entered-Idle, step-due, Idle,
  step-Idle, step-life,
}
use fund_dashboard.Jobs.Scheduler.Once.{InOrder}

abbrev pub opens : Job → ℕ → Opening → Bool
opens job d u = same_job job u.job && (day_of u.at == d)

abbrev pub first_of : Option Opening → Job → ℕ → (Opening → List Action) → List Action → List Action
first_of none job d f rest = rest
first_of (some u) job d f rest = if opens job d u then f u else rest

-- The calls of a job on a day, when nothing is recorded: those of the first window that is due.
-- The probe of the database is taken to succeed.
unfoldable pub ideal : Wiring → Life → Job → ℕ → List Event → List Action
ideal w l job d [] = []
ideal w l job d (e ∷ es) =
    first_of (due l e) job d (λ u. plan w u.job u.canceled d u.wall true)
      (ideal w (advance l e) job d es)

-- The answer to the probe matters only to the checkpoint.
times_unprobed :
    (w : Wiring) (job : Job) (a : Action) (c q : Bool) (d wall : ℕ)
    → a ≢ wal_checkpoint
    → times a (plan w job c d wall q) ≡ times a (plan w job c d wall true)
times_unprobed w startup_refresh a c q d wall h = refl
times_unprobed w price_dca a c q d wall h = refl
times_unprobed w holdings a c q d wall h = refl
times_unprobed w dca_backfill a c q d wall h = refl
times_unprobed w wal wal_checkpoint c q d wall h = absurd (h refl)
times_unprobed w wal a c true d wall h = refl
times_unprobed w wal a c false d wall h = refl

-- The state without faults, whose process knows nothing that the rows do not say.
record Sound (s : System) : Type 0 where
  no_faults : s.faults ≡ []
  tracks : Tracks s

Idle-Sound : {s t : System} → Idle s t → Sound s → Sound t
Idle-Sound {s} {t} i h = record {
  no_faults = i.same_faults ∙ h.no_faults;
  tracks = λ j d k.
      subst (λ (rows : Job → Option ClaimRow). date_of (rows j) ≡ some d) (sym i.same_rows)
        (h.tracks j d (i.same_runs j d k));
}

module _ (w : Wiring) (job : Job) (c : Bool) (now : ℕ) (s : System) (db : w.has_db ≡ true)
    (h : Sound s) where
  claimed-Sound : Sound (claimed w job c now s).1
  claimed-Sound =
      let q = claim-Healthy w job (day_of now) s db h.no_faults h.tracks in
      let t = claim-Tracks w job (day_of now) s db h.no_faults h.tracks in
      record {
        no_faults = claimed-faults w job c now s ∙ q.no_faults;
        tracks = λ j d k.
            ap (λ (rows : Job → Option ClaimRow). date_of (rows j)) (claimed-rows w job c now s)
            ∙ t j d (sym (ap (λ (f : Job → Option ℕ). f j) (claimed-last_run w job c now s)) ∙ k);
      }

  row-claimed :
      (k : Job) → row_date (claimed w job c now s).1 k ≡ row_date (after_claim w job now s) k
  row-claimed k =
      ap (λ (rows : Job → Option ClaimRow). date_of (rows k)) (claimed-rows w job c now s)

  claimed_row :
      (k : Job)
      → row_date (claimed w job c now s).1 k
        ≡ (if same_job job k then some (day_of now) else row_date s k)
  claimed_row k = elim (Bool-cases (same_job job k)) [
    | inl same ↦ rw same (
        row-claimed k
        ∙ subst (λ j. row_date (after_claim w job now s) j ≡ some (day_of now))
            (same_job-eq job k same)
            (claim-Healthy w job (day_of now) s db h.no_faults h.tracks).dated)
    | inr other ↦
        rw other
          (row-claimed k ∙ ap date_of ((claim-Keeps w job (day_of now) s).other_rows k other))
  ]

  granted_now : granted w job now s ≡ not (is_window (row_date s job) (day_of now))
  granted_now = (claim-Healthy w job (day_of now) s db h.no_faults h.tracks).granted

  made_other :
      (k : Job) (a : Action) (d : ℕ)
      → (same_job k job && (day_of now == d)) ≡ false
      → made k a d (claimed w job c now s).1.calls ≡ made k a d s.calls
  made_other k a d m = ground (arith, claimed-made w job c now s k a d)

  -- The row of the job of the window, from that of the job looked at.
  own_row :
      (k : Job) (d : ℕ) (o : Option ℕ)
      → (same_job k job && (day_of now == d)) ≡ true
      → row_date s k ≡ o
      → (row_date s job ≡ o) × (day_of now ≡ d)
  own_row k d o e r =
      (subst (λ j. row_date s j ≡ o) (same_job-eq k job (ground arith)) r, ground arith)

  made_known :
      (k : Job) (a : Action) (d : ℕ)
      → row_date s k ≡ some d
      → made k a d (claimed w job c now s).1.calls ≡ made k a d s.calls
  made_known k a d r = elim (Bool-cases (same_job k job && (day_of now == d))) [
    | inl e ↦
        let (mine, today) = own_row k d (some d) e r in
        let refused : granted w job now s ≡ false = ground (arith, granted_now) in
        rw (claimed-made w job c now s k a d) (rw refused (omega arith))
    | inr e ↦ made_other k a d e
  ]

  made_first :
      (k : Job) (a : Action) (d : ℕ)
      → a ≢ wal_checkpoint
      → (same_job k job && (day_of now == d)) ≡ true
      → row_date s k ≢ some d
      → made k a d (claimed w job c now s).1.calls
        ≡ made k a d s.calls + times a (plan w job c d s.wall true)
  made_first k a d n o r =
      let (mine, today) = own_row k d (row_date s k) o refl in
      let won : granted w job now s ≡ true = ground (arith, granted_now) in
      let q = is_nil (answer s.replies) in
      claimed-made w job c now s k a d
      ∙ (rw (won, o)
          (ap (λ (m : ℕ). made k a d s.calls + m)
            (ap (λ (x : ℕ). times a (plan w job c x s.wall q)) today
              ∙ times_unprobed w job a c q d s.wall n)))

-- A day is over, or its window has been claimed.
abbrev Done : ℕ → ℕ → Option ℕ → Type 0
Done d today row = (d < today) ⊎ ((today ≡ d) × (row ≡ some d))

-- A day is to come, or its window has not been claimed.
abbrev Open : ℕ → ℕ → Option ℕ → Type 0
Open d today row = (today ≤ d) × (row ≢ some d)

Idle-row : {s t : System} → Idle s t → (k : Job) → row_date t k ≡ row_date s k
Idle-row i k = ap (λ (rows : Job → Option ClaimRow). date_of (rows k)) i.same_rows

later_row :
    (k : Job) (d today later : ℕ) (s t : System)
    → today ≤ later
    → ¬ (d < later)
    → (later ≡ d → row_date t k ≡ row_date s k)
    → Done d today (row_date s k)
    → (later ≡ d) × (row_date t k ≡ some d)
later_row k d today later s t le l r (inl x) = absurd (l (omega arith))
later_row k d today later s t le l r (inr (e, x)) =
    let now : later ≡ d = omega arith in (now, r now ∙ x)

later_Done :
    (k : Job) (d today later : ℕ) (s t : System)
    → today ≤ later
    → (later ≡ d → row_date t k ≡ row_date s k)
    → Done d today (row_date s k)
    → Done d later (row_date t k)
later_Done k d today later s t le r x = elim (dec_lt d later) [
  | yes l ↦ inl l
  | no l ↦ inr (later_row k d today later s t le l r x)
]

later_Open :
    (k : Job) (d today later : ℕ) (s t : System)
    → today ≤ later
    → row_date t k ≡ row_date s k
    → Open d today (row_date s k)
    → (d < later) ⊎ Open d later (row_date t k)
later_Open k d today later s t le r x = elim (dec_lt d later) [
  | yes l ↦ inl l
  | no l ↦ inr (omega arith, λ e. x.1 (sym r ∙ e))
]

abbrev opened : Job → ℕ → Option Opening → Bool
opened k d none = false
opened k d (some u) = opens k d u

-- A window that opens on a day to come is worked.
abbrev First : Wiring → Job → Action → ℕ → ℕ → ℕ → Option Opening → Option ℕ → ℕ → System → Type 0
First w k a d today later none row m t = Unit
First w k a d today later (some u) row m t =
    opens k d u ≡ true
    → Open d today row
    → Done d later (row_date t k)
      × (made k a d t.calls ≡ m + times a (plan w u.job u.canceled d u.wall true))

-- What an event does, from a row and a count to a state: the state is sound again, and the call is
-- counted, or not.
record Moves (w : Wiring) (k : Job) (a : Action) (d today later : ℕ) (o : Option Opening)
    (row : Option ℕ) (m : ℕ) (t : System) : Type 0 where
  sound : Sound t
  done : Done d today row → Done d later (row_date t k) × (made k a d t.calls ≡ m)
  missed :
      opened k d o ≡ false
      → Open d today row
      → ((d < later) ⊎ Open d later (row_date t k)) × (made k a d t.calls ≡ m)
  first : First w k a d today later o row m t

module _ (w : Wiring) (k : Job) (a : Action) (d : ℕ) (db : w.has_db ≡ true)
    (n : a ≢ wal_checkpoint) where
  Moves-Idle :
      (today later : ℕ) {s t : System}
      → today ≤ later
      → Idle s t
      → Sound s
      → Moves w k a d today later none (row_date s k) (made k a d s.calls) t
  Moves-Idle today later {s} {t} le i h =
      let r = Idle-row i k in
      let m = ap (made k a d) i.same_calls in
      record {
        sound = Idle-Sound i h;
        done = λ x. (later_Done k d today later s t le (λ _. r) x, m);
        missed = λ _ x. (later_Open k d today later s t le r x, m);
        first = tt;
      }

  module _ (today : ℕ) (u : Opening) (s : System) (le : today ≤ day_of u.at) (h : Sound s) where
    row_after :
        row_date (claimed w u.job u.canceled u.at s).1 k
        ≡ (if same_job k u.job then some (day_of u.at) else row_date s k)
    row_after =
        claimed_row w u.job u.canceled u.at s db h k
        ∙ ap (λ b. if b then some (day_of u.at) else row_date s k) (same_job_comm u.job k)

    claimed_done :
        Done d today (row_date s k)
        → Done d (day_of u.at) (row_date (claimed w u.job u.canceled u.at s).1 k)
          × (made k a d (claimed w u.job u.canceled u.at s).1.calls ≡ made k a d s.calls)
    claimed_done (inl x) =
        (inl (omega arith), made_other w u.job u.canceled u.at s db h k a d (ground arith))
    claimed_done (inr (e, r)) = (
      elim (dec_lt d (day_of u.at)) [
        | yes l ↦ inl l
        | no l ↦
            let now : day_of u.at ≡ d = omega arith in inr (now, ground (arith, row_after, now, r))
      ],
      made_known w u.job u.canceled u.at s db h k a d r,
    )

    claimed_missed :
        opens k d u ≡ false
        → Open d today (row_date s k)
        → ((d < day_of u.at)
            ⊎ Open d (day_of u.at) (row_date (claimed w u.job u.canceled u.at s).1 k))
          × (made k a d (claimed w u.job u.canceled u.at s).1.calls ≡ made k a d s.calls)
    claimed_missed e x = (
      elim (dec_lt d (day_of u.at)) [
        | yes l ↦ inl l
        | no l ↦ inr (omega arith, λ r. ground (arith, row_after, x.1))
      ],
      made_other w u.job u.canceled u.at s db h k a d e,
    )

    Moves-claimed :
        s.wall ≡ u.wall
        → Moves w k a d today
            (day_of u.at)
            (some u)
            (row_date s k)
            (made k a d s.calls)
            (claimed w u.job u.canceled u.at s).1
    Moves-claimed wall = record {
      sound = claimed-Sound w u.job u.canceled u.at s db h;
      done = claimed_done;
      missed = claimed_missed;
      first = λ o x. (
        inr (ground arith, ground (arith, row_after)),
        made_first w u.job u.canceled u.at s db h k a d n o x.1
            ∙ ap (λ (m : ℕ). made k a d s.calls + times a (plan w u.job u.canceled d m true)) wall,
      );
    }

  step-opening :
      (today : ℕ) (s : System) (e : Event)
      → today ≤ when today e
      → Sound s
      → (u : Opening) → due (life_of s) e ≡ some u
      → Moves w k a d today
          (when today e)
          (due (life_of s) e)
          (row_date s k)
          (made k a d s.calls)
          (step w s e)
  step-opening today s e le h u is =
      let i = entered-Idle s e in
      let (same, wall) = step-due w s e u is in
      let day = when-due (life_of s) today e u is in
      let v =
        Moves-claimed today u (entered s e) (subst (λ (x : ℕ). today ≤ x) day le) (Idle-Sound i h)
          wall in
      subst
        (λ o. Moves w k a d today (when today e) o (row_date s k) (made k a d s.calls) (step w s e))
        (sym is)
        (subst
          (λ x. Moves w k a d today x (some u) (row_date s k) (made k a d s.calls) (step w s e))
          (sym day)
          (subst
            (λ t. Moves w k a d today (day_of u.at) (some u) (row_date s k) (made k a d s.calls) t)
            (sym same)
            (subst
              (λ r.
                Moves w k a d today (day_of u.at) (some u) r (made k a d s.calls)
                  (claimed w u.job u.canceled u.at (entered s e)).1)
              (Idle-row i k)
              (subst
                (λ (m : ℕ).
                  Moves w k a d today (day_of u.at) (some u) (row_date (entered s e) k) m
                    (claimed w u.job u.canceled u.at (entered s e)).1)
                (ap (made k a d) i.same_calls) v))))

  step-Moves :
      (today : ℕ) (s : System) (e : Event)
      → today ≤ when today e
      → Sound s
      → Moves w k a d today
          (when today e)
          (due (life_of s) e)
          (row_date s k)
          (made k a d s.calls)
          (step w s e)
  step-Moves today s e le h = elim (Option-cases (due (life_of s) e)) [
    | inl idle ↦
        subst
          (λ o.
            Moves w k a d today (when today e) o (row_date s k) (made k a d s.calls) (step w s e))
          (sym idle) (Moves-Idle today (when today e) le (step-Idle w s e idle) h)
    | inr (u, is) ↦ step-opening today s e le h u is
  ]

  ideal-over :
      (l : Life) (today : ℕ) (es : List Event)
      → d < today
      → InOrder today es
      → ideal w l k d es ≡ []
  unfolding ideal
  ideal-over l today [] h order = refl
  ideal-over l today (e ∷ es) h order =
      rw (ideal-over (advance l e) (when today e) es (omega arith) order.1)
        (elim (Option-cases (due l e)) [
          | inl idle ↦ rw idle
          | inr (u, is) ↦ let day = when-due l today e u is in rw is (ground (arith, day, order.0))
        ])

  run-done :
      (today : ℕ) (s : System) (es : List Event)
      → InOrder today es
      → Sound s
      → Done d today (row_date s k)
      → made k a d (run w s es).calls ≡ made k a d s.calls
  unfolding run
  run-done today s [] order h x = refl
  run-done today s (e ∷ es) order h x =
      let v = step-Moves today s e order.0 h in
      let (x', same) = v.done x in run-done (when today e) (step w s e) es order.1 v.sound x' ∙ same

  -- A window that opens is worked, and the day is done.
  Open-first :
      (today : ℕ) (s : System) (e : Event) (es : List Event) (u : Opening)
      → InOrder today (e ∷ es)
      → Sound s
      → Open d today (row_date s k)
      → due (life_of s) e ≡ some u
      → opens k d u ≡ true
      → made k a d (run w (step w s e) es).calls
        ≡ made k a d s.calls + times a (plan w u.job u.canceled d u.wall true)
  Open-first today s e es u order h x is o =
      let v = step-Moves today s e order.0 h in
      let (x', more) =
        subst
          (λ p.
            First w k a d today (when today e) p (row_date s k) (made k a d s.calls) (step w s e))
          is v.first o x in
      run-done (when today e) (step w s e) es order.1 v.sound x' ∙ more

  -- An event that opens no window of the day leaves the count to the later ones, by `later`.
  Open-missed :
      (today : ℕ) (s : System) (e : Event) (es : List Event)
      → InOrder today (e ∷ es)
      → Sound s
      → Open d today (row_date s k)
      → opened k d (due (life_of s) e) ≡ false
      → (Sound (step w s e)
          → Open d (when today e) (row_date (step w s e) k)
          → made k a d (run w (step w s e) es).calls
            ≡ made k a d (step w s e).calls + times a (ideal w (life_of (step w s e)) k d es))
      → made k a d (run w (step w s e) es).calls
        ≡ made k a d s.calls + times a (ideal w (advance (life_of s) e) k d es)
  Open-missed today s e es order h x miss later =
      let v = step-Moves today s e order.0 h in
      let (next, same) = v.missed miss x in
      elim next [
        | inl over ↦
            run-done (when today e) (step w s e) es order.1 v.sound (inl over)
            ∙ same
            ∙ rw (ideal-over (advance (life_of s) e) (when today e) es over order.1) (omega arith)
        | inr x' ↦ later v.sound x' ∙ (λ i. same i + times a (ideal w (step-life w s e i) k d es))
      ]

  run-Open :
      (today : ℕ) (s : System) (es : List Event)
      → InOrder today es
      → Sound s
      → Open d today (row_date s k)
      → made k a d (run w s es).calls ≡ made k a d s.calls + times a (ideal w (life_of s) k d es)
  unfolding run ideal
  run-Open today s [] order h x = omega arith
  run-Open today s (e ∷ es) order h x =
      let later = run-Open (when today e) (step w s e) es order.1 in
      elim (Option-cases (due (life_of s) e)) [
        | inl idle ↦ rw idle (Open-missed today s e es order h x (rw idle) later)
        | inr (u, is) ↦ elim (Bool-cases (opens k d u)) [
          | inl o ↦ rw (is, o) (Open-first today s e es u order h x is o)
          | inr o ↦ rw (is, o) (Open-missed today s e es order h x (rw is o) later)
        ]
      ]

-- While the statements on crawl_log work, a scheduler of a new process makes exactly the calls of
-- an ideal one that keeps no record: for every job and day whose window is not yet claimed, those
-- that the plan of the job gives for the first window of the job that a running process meets on
-- that day, over any events with restarts and a clock that does not go back to an earlier day; the
-- checkpoint, which the answer to the probe decides, is left out.
pub runs_exact :
    (w : Wiring) (s : System) (es : List Event) (job : Job) (a : Action) (d today : ℕ)
    → w.has_db ≡ true
    → s.faults ≡ []
    → ((j : Job) → s.last_run j ≡ none)
    → s.calls ≡ []
    → row_date s job ≢ some d
    → today ≤ d
    → InOrder today es
    → a ≢ wal_checkpoint
    → made job a d (run w s es).calls ≡ times a (ideal w (life_of s) job d es)
runs_exact w s es job a d today db sound new fresh free le order n =
    let h : Sound s = record {
      no_faults = sound;
      tracks = λ j e k. absurd (ground (arith, new j));
    } in
    run-Open w job a d db n today s es order h (le, free)
    ∙ ap (λ (m : ℕ). m + times a (ideal w (life_of s) job d es)) (ap (made job a d) fresh)
    ∙ omega arith
