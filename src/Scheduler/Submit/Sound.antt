-- ===== src/Scheduler/Submit/Sound.antt =====
-- The ends of `submit` and the promise of the queue.
use android_workbench.Prelude.{
  ℕ, String, none, Bool, true, ◌&&◌, not, ◌≡◌, Bool-cases, inl, inr, false, if◌then◌else◌,
}
use android_workbench.Scheduler.Model.{Spec, Job, Config, Env, State}
use android_workbench.Scheduler.Store.{Action}
use android_workbench.Scheduler.Frame.{Frame-pure}
use android_workbench.Scheduler.Exclusion.{Sound, Sound-Shrinks}
use android_workbench.Scheduler.Finish.Frame.{Frame-finish}
use android_workbench.Scheduler.Available.{Verdict, available, is_legal, is_some}
use android_workbench.Scheduler.Answer.{available-Safe}
use android_workbench.Scheduler.Grant.Exclusion.{grant-Sound}
use android_workbench.Scheduler.Ends.{Ends-and_then, Ends-same, Ends-of, Ready}
use android_workbench.Scheduler.Insertion.Exclusion.{read-Safe}
use android_workbench.Scheduler.Admission.{Session, Asked}
use android_workbench.Scheduler.Admission.Sound.{Frame-earlier, Keeps-submit_prepared}
use android_workbench.Scheduler.Keeps.{Keeps, Keeps-Frame, Keeps->>=, Keeps->>}
use android_workbench.Scheduler.Submit.{try_now, submit_tried, grant_or_fail}

module _ (env : Env) (config : Config) where
  abbrev Safe : State → Type 0
  Safe s = Sound config s.jobs

  grant_or_fail-Sound :
      (job : Job) (verdict : Verdict) (s : State)
      → Safe s
      → (is_legal verdict ≡ true → Ready config none job s.jobs)
      → Safe (grant_or_fail env job verdict s).1
  grant_or_fail-Sound job verdict s h r = elim (Bool-cases (is_legal verdict)) [
    | inl e ↦ let ready = r e in rw e (grant-Sound env config none job s ready.backs ready.fits h)
    | inr e ↦ rw e (Sound-Shrinks config s.jobs _ ((Frame-finish env job _).at s) h)
  ]

  Keeps-try_now : (id : String) → Keeps config (try_now env config id)
  unfolding try_now
  Keeps-try_now id = record {
    at = read-Safe env config id _ λ job s h b. Ends-same Safe _ (
        Ends-and_then Safe
          (λ verdict t. Safe t × (is_legal verdict ≡ true → Ready config none job t.jobs))
          (λ _. Safe) (available env config none true job s) _
          (available-Safe env config none true job s h b)
          (λ verdict t a.
            Ends-of Safe (grant_or_fail env job verdict t)
              (grant_or_fail-Sound job verdict t a.0 a.1)));
  }

  Keeps-if :
      {A : Type 0} (b : Bool) {m k : Action A}
      → Keeps config m
      → Keeps config k
      → Keeps config (if b then m else k)
  Keeps-if true h k = h
  Keeps-if false h k = k

  -- A submission keeps a sound queue sound, whether it is refused, waits, or is to start at once or
  -- fail.
  pub Keeps-submit_tried :
      (id : String) (session : Session) (asked : Asked) (priority : ℕ) (spec : Spec)
      (try_only : Bool)
      → Keeps config (submit_tried env config id session asked priority spec try_only)
  unfolding submit_tried
  Keeps-submit_tried id session asked priority spec try_only =
      Keeps->>= config (Keeps-Frame config (Frame-earlier env config session asked)) λ known.
        Keeps->>= config (Keeps-submit_prepared env config id session asked priority spec) λ answer.
          Keeps->> config
            (Keeps-if (try_only && not (is_some known)) (Keeps-try_now answer)
              (Keeps-Frame config (Frame-pure tt)))
            (Keeps-Frame config (Frame-pure answer))
