-- ===== src/Jobs/Scheduler/Claimed.antt =====
-- A window is claimed and, if the claim is granted, worked: the claim decides about the rows, the
-- plan about the calls.
use fund_dashboard.Prelude.{
  ℕ, ◌+◌, ◌≡◌, Bool, true, false, ◌&&◌, List, [], ◌==◌, if◌then◌else◌, arith, refl, ap, ◌∙◌,
}
use fund_dashboard.Jobs.Calendar.{Job, day_of}
use fund_dashboard.Jobs.System.{Action, Wiring, System, same_job, answer}
use fund_dashboard.Jobs.Claim.{claim_window}
use fund_dashboard.Jobs.Claim.Laws.{claim-Keeps}
use fund_dashboard.Jobs.Scheduler.{window, if_claimed, claimed}
use fund_dashboard.Jobs.Scheduler.Plan.{times, made, log, plan, made-log}
use fund_dashboard.Jobs.Scheduler.Adds.{Adds, Adds-none, Adds-window, is_nil}

abbrev worked : Bool → List Action → List Action
worked won xs = if won then xs else []

Adds-if_claimed :
    (w : Wiring) (job : Job) (c won : Bool) (now : ℕ) (s : System)
    → Adds s job now
        (worked won (plan w job c (day_of now) s.wall (is_nil (answer s.replies))))
        (if_claimed won (window w job c now) s).1
unfolding if_claimed
Adds-if_claimed w job c true now s = Adds-window w job c now s
Adds-if_claimed w job c false now s = Adds-none

abbrev pub granted : Wiring → Job → ℕ → System → Bool
granted w job now s = (claim_window w job (day_of now) s).0

abbrev pub after_claim : Wiring → Job → ℕ → System → System
after_claim w job now s = (claim_window w job (day_of now) s).1

worked-times :
    (won same today : Bool) (a : Action) (xs : List Action)
    → (if same && today then times a (worked won xs) else 0)
      ≡ (if won && same && today then times a xs else 0)
worked-times true same today a xs = refl
worked-times false same today a xs = ground arith

module _ (w : Wiring) (job : Job) (c : Bool) (now : ℕ) (s : System) where
  Adds-claimed :
      Adds
        (after_claim w job now s)
        job
        now
        (worked (granted w job now s) (
          plan w job c
            (day_of now)
            (after_claim w job now s).wall
            (is_nil (answer (after_claim w job now s).replies))))
        (claimed w job c now s).1
  unfolding claimed
  Adds-claimed = Adds-if_claimed w job c (granted w job now s) now (after_claim w job now s)

  pub claimed-calls :
      (claimed w job c now s).1.calls
      ≡ log job now
          (worked
            (granted w job now s)
            (plan w job c (day_of now) s.wall (is_nil (answer s.replies))))
          s.calls
  claimed-calls =
      let k = claim-Keeps w job (day_of now) s in
      Adds-claimed.logged ∙ λ i.
      log job now
        (worked (granted w job now s)
          (plan w job c (day_of now) (k.same_wall i) (is_nil (answer (k.same_replies i)))))
        (k.same_calls i)

  pub claimed-made :
      (k : Job) (a : Action) (d : ℕ)
      → made k a d (claimed w job c now s).1.calls
        ≡ made k a d s.calls
          + (if granted w job now s && same_job k job && (day_of now == d)
              then times a (plan w job c (day_of now) s.wall (is_nil (answer s.replies)))
              else 0)
  claimed-made k a d = rw claimed-calls (
      made-log k job now d a
        (worked (granted w job now s)
          (plan w job c (day_of now) s.wall (is_nil (answer s.replies))))
        s.calls
      ∙ ap (λ (n : ℕ). made k a d s.calls + n)
          (worked-times (granted w job now s) (same_job k job) (day_of now == d) a _))

  -- The claims and the life of the process are those after the claim.
  pub claimed-rows : (claimed w job c now s).1.crawl_log ≡ (after_claim w job now s).crawl_log
  claimed-rows = Adds-claimed.same_log

  pub claimed-last_run : (claimed w job c now s).1.last_run ≡ (after_claim w job now s).last_run
  claimed-last_run = Adds-claimed.same_last_run

  pub claimed-faults : (claimed w job c now s).1.faults ≡ (after_claim w job now s).faults
  claimed-faults = Adds-claimed.same_faults

  pub claimed-started : (claimed w job c now s).1.started ≡ s.started
  claimed-started = Adds-claimed.same_started ∙ (claim-Keeps w job (day_of now) s).same_started

  pub claimed-stopped : (claimed w job c now s).1.stopped ≡ s.stopped
  claimed-stopped = Adds-claimed.same_stopped ∙ (claim-Keeps w job (day_of now) s).same_stopped

  pub claimed-pending : (claimed w job c now s).1.timer_pending ≡ s.timer_pending
  claimed-pending = Adds-claimed.same_pending ∙ (claim-Keeps w job (day_of now) s).same_pending
