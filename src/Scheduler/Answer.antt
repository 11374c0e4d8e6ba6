-- ===== src/Scheduler/Answer.antt =====
-- The answer of `available` in workbench/service.py, as its callers use it before a grant.
use android_workbench.Prelude.{Option, Bool, true, ◌≡◌}
use android_workbench.Scheduler.Model.{Job, Config, State, Env}
use android_workbench.Scheduler.Store.{Result, ok, err}
use android_workbench.Scheduler.Frame.{Shrinks}
use android_workbench.Scheduler.Available.{Verdict, legal, waiting, is_legal, available}
use android_workbench.Scheduler.Available.Frame.{Frame-available}
use android_workbench.Scheduler.Available.Clear.{Fits, WhenLegal, available_legal}
use android_workbench.Scheduler.Grant.Exclusion.{Backs}
use android_workbench.Scheduler.Ends.{Ends, Ends-map, Backs-Shrinks, Ready}
use android_workbench.Scheduler.Exclusion.{Sound, Sound-Shrinks}

module _ (env : Env) (config : Config) (parent : Option Job) (fairness : Bool) (job : Job) where
  -- The answer of `available`, with the table that it leaves.
  abbrev pub Answers : State → Verdict → State → Type 0
  Answers s verdict t =
      Shrinks s.jobs t.jobs × (is_legal verdict ≡ true → Ready config parent job t.jobs)

  answer-Ready :
      (s : State) (r : Result Verdict × State)
      → Backs job s.jobs
      → Shrinks s.jobs r.1.jobs
      → WhenLegal (Fits config parent job) r
      → Ends (λ t. Shrinks s.jobs t.jobs) (Answers s) r
  answer-Ready s (ok legal, t) b h f =
      (h, λ _. record { backs = Backs-Shrinks job s.jobs t.jobs h b; fits = f })
  answer-Ready s (ok (waiting reason), t) b h f = (h, λ e. cc)
  answer-Ready s (err e, t) b h f = h

  -- After a legal answer the task is ready to be granted.
  pub available-Ready :
      (s : State)
      → Backs job s.jobs
      → Ends (λ t. Shrinks s.jobs t.jobs) (Answers s) (available env config parent fairness job s)
  available-Ready s b =
      answer-Ready s (available env config parent fairness job s) b
        ((Frame-available env config parent fairness job).at s)
        ((available_legal env config parent fairness job).at s)

  -- Asking keeps a sound queue sound, and a legal answer makes the task ready.
  pub available-Safe :
      (s : State)
      → Sound config s.jobs
      → Backs job s.jobs
      → Ends
          (λ t. Sound config t.jobs)
          (λ verdict t.
            Sound config t.jobs × (is_legal verdict ≡ true → Ready config parent job t.jobs))
          (available env config parent fairness job s)
  available-Safe s h b =
      Ends-map (λ t. Shrinks s.jobs t.jobs) (λ t. Sound config t.jobs) (Answers s) _
        (available env config parent fairness job s) (available-Ready s b)
        (λ t c. Sound-Shrinks config s.jobs t.jobs c h)
        (λ verdict t a. (Sound-Shrinks config s.jobs t.jobs a.0 h, a.1))

  -- Whenever `available` answers that the task may start, the task fits beside the table that is
  -- left: each active task is its scene, or one that it repairs, or has no conflicting resource, and
  -- there is room for its worker, its lease and its computation.
  pub available-Fits :
      (s : State) → WhenLegal (Fits config parent job) (available env config parent fairness job s)
  available-Fits s = (available_legal env config parent fairness job).at s
