-- ===== src/Scheduler/Carries/Handlers.antt =====
-- The handlers of workbench/service.py that are no mere loss of activity: grants, submissions, the death of
-- a worker, a start of the service.
use android_workbench.Prelude.{
  ℕ, String, Option, none, some, Bool, true, false, not, ◌&&◌, List, [], ◌∷◌, any, first, ◌==◌,
  if◌then◌else◌, refl, ◌≡◌, sym, subst,
}
use android_workbench.Scheduler.Model.{Job, Spec, Outcome, Config, Env, is_queued, is_active}
use android_workbench.Scheduler.Frame.{
  Frame, Frame-pure, Frame-raise, Frame-gets, Frame->>=, Frame->>, Frame-if, Frame-job_of,
  Frame-event,
}
use android_workbench.Scheduler.Carries.{
  Carries, Carries-refl, Carries-cons, Carries-later, Carries-if, Follows-refl, Carry, Carry-Frame,
  Carry->>=, Carry->>, Carry-if, Carry-transaction, Carry-each, Carry-update, Carry-modify,
}
use android_workbench.Scheduler.Finish.Frame.{Frame-finish}
use android_workbench.Scheduler.Available.{is_legal, is_some}
use android_workbench.Scheduler.Available.Frame.{Frame-available}
use android_workbench.Scheduler.Grant.{granted_row, begin_grant, grant}
use android_workbench.Scheduler.Grant.Exclusion.{Frame-start_worker}
use android_workbench.Scheduler.Choice.{older, insert_by}
use android_workbench.Scheduler.Select.{
  is_fresh, fresh_jobs, grant_picked, snapshot, original_of, ask_and_grant, select, lane_of,
}
use android_workbench.Scheduler.Insertion.{shortened, still_open, insert_now, insert_chosen}
use android_workbench.Scheduler.Control.{interrupted_row, interrupt, interrupt_all, restart}
use android_workbench.Scheduler.Admission.{
  Session, Asked, new_row, collides, insert_job, admit, admit_new, submit_prepared,
}
use android_workbench.Scheduler.Admission.Sound.{
  Frame-refuse_reserved, Frame-insert_outputs, Frame-earlier, Frame-check_capacity,
  Frame-check_dependencies, Frame-check_scene,
}
use android_workbench.Scheduler.Submit.{try_now, submit_tried}
use android_workbench.Scheduler.Tick.{died_row, finish_or_break, is_child, break_child, worker_died}

insert_by-cons :
    (before : Job → Job → Bool) (x j : Job) (js : List Job)
    → insert_by before x (j ∷ js) ≡ (if before j x then j ∷ insert_by before x js else x ∷ j ∷ js)
unfolding insert_by
insert_by-cons before x j js = refl

Carries-insert_by :
    (before : Job → Job → Bool) (x : Job) (js : List Job) → Carries js (insert_by before x js)
Carries-insert_by before x [] = tt
Carries-insert_by before x (j ∷ js) =
    subst (Carries (j ∷ js)) (sym (insert_by-cons before x j js)) (
      Carries-if (j ∷ js) (j ∷ insert_by before x js) (x ∷ j ∷ js) (before j x)
        (Carries-cons j j js _ (Follows-refl j) (Carries-insert_by before x js))
        (Carries-later (j ∷ js) (j ∷ js) x (Carries-refl (j ∷ js))))

module _ (env : Env) (config : Config) where
  Carry-begin_grant : (parent : Option Job) (job : Job) → Carry (begin_grant env parent job)
  unfolding begin_grant
  Carry-begin_grant parent job = Carry-transaction (
      Carry->> (Carry-update env job.id (granted_row env parent) (λ j. refl) (λ j. refl))
        (Carry-Frame (Frame-event env job.id _ _)))

  Carry-grant : (parent : Option Job) (job : Job) → Carry (grant env parent job)
  unfolding grant
  Carry-grant parent job = Carry->> (Carry-begin_grant parent job) (
      Carry-Frame
        (Frame-if (is_some parent) (Frame-pure tt) (Frame-start_worker env job (env.spawn job))))

  Frame-fresh_jobs : (lane : String) (js : List Job) → Frame (fresh_jobs env config lane js)
  unfolding fresh_jobs is_fresh
  Frame-fresh_jobs lane [] = Frame-pure []
  Frame-fresh_jobs lane (j ∷ js) =
      Frame->>=
        (Frame-if (is_queued j.state && lane_of j == lane)
          (Frame->>= (Frame-available env config none true j) (λ verdict. Frame-pure _))
          (Frame-pure false))
        (λ legal. Frame->>= (Frame-fresh_jobs lane js) (λ rest. Frame-pure _))

  Carry-grant_picked : (o : Option Job) → Carry (grant_picked env o)
  unfolding grant_picked
  Carry-grant_picked none = Carry-Frame (Frame-pure tt)
  Carry-grant_picked (some job) =
      Carry->> (Carry-Frame (Frame-event env job.id _ _)) (Carry-grant none job)

  Carry-ask_and_grant :
      (lane chosen : String) (job original : Job)
      → Carry (ask_and_grant env config lane chosen job original)
  unfolding ask_and_grant
  Carry-ask_and_grant lane chosen job original =
      Carry->>= (Carry-Frame (Frame-available env config none true job)) λ verdict.
        Carry->>= (Carry-Frame (Frame-gets (λ s. s.jobs)))
          λ all. Carry->>= (Carry-Frame (Frame-fresh_jobs lane all)) λ fresh. Carry-grant_picked _

  Frame-snapshot : (o : Option Job) → Frame (snapshot o)
  Frame-snapshot none = Frame-raise _
  Frame-snapshot (some j) = Frame-pure j

  pub Carry-select :
      (stopping : Bool) (lane : String) (candidates : List Job) (chosen : String)
      → Carry (select env config stopping lane candidates chosen)
  unfolding select original_of
  Carry-select stopping lane candidates chosen = Carry-if stopping (Carry-Frame (Frame-pure tt)) (
      Carry->>= (Carry-Frame (Frame-job_of chosen)) λ job.
        Carry->>= (Carry-Frame (Frame-snapshot (first (λ (j : Job). j.id == chosen) candidates)))
          λ original. Carry-ask_and_grant lane chosen job original)

  Carry-insert_now :
      (budget elapsed : ℕ) (scene child : Job) → Carry (insert_now env budget elapsed scene child)
  unfolding insert_now
  Carry-insert_now budget elapsed scene child =
      Carry->>
        (Carry->>
          (Carry->> (Carry-update env child.id (shortened budget elapsed) (λ j. refl) (λ j. refl))
            (Carry-Frame (Frame-event env child.id _ _)))
          (Carry-grant (some scene) (shortened budget elapsed child)))
        (Carry-Frame (Frame-pure _))

  pub Carry-insert_chosen :
      (scene chosen : String) (budget elapsed : ℕ)
      → Carry (insert_chosen env config scene chosen budget elapsed)
  unfolding insert_chosen
  Carry-insert_chosen scene chosen budget elapsed =
      Carry->>= (Carry-Frame (Frame-job_of scene)) λ latest.
        Carry->>= (Carry-Frame (Frame-job_of chosen)) λ child.
          Carry-if (not (still_open latest budget elapsed)) (Carry-Frame (Frame-pure none)) (
            Carry->>= (Carry-Frame (Frame-available env config (some latest) true child)) λ verdict.
              Carry-if (is_legal verdict) (Carry-insert_now budget elapsed latest child)
                (Carry-Frame (Frame-pure none)))

  Carry-insert_job : (row : Job) → Carry (insert_job row)
  unfolding insert_job
  Carry-insert_job row = Carry->>= (Carry-Frame (Frame-gets (λ s. s.jobs))) λ all.
      Carry-if (any (collides row) all) (Carry-Frame (Frame-raise _))
        (Carry-modify _ (λ s. Carries-insert_by older row s.jobs))

  Carry-admit :
      (id : String) (session : Session) (asked : Asked) (priority : ℕ) (spec : Spec)
      → Carry (admit env id session asked priority spec)
  unfolding admit
  Carry-admit id session asked priority spec =
      Carry->> (Carry-Frame (Frame-refuse_reserved env config spec.outputs)) (
        Carry-transaction (
          Carry->>
            (Carry->> (Carry-insert_job (new_row env id session asked priority spec))
              (Carry-Frame (Frame-insert_outputs env config id spec.outputs)))
            (Carry-Frame (Frame-event env id _ _))))

  Carry-admit_new :
      (id : String) (session : Session) (asked : Asked) (priority : ℕ) (spec : Spec)
      (known : Option String)
      → Carry (admit_new env config id session asked priority spec known)
  unfolding admit_new
  Carry-admit_new id session asked priority spec (some known) = Carry-Frame (Frame-pure known)
  Carry-admit_new id session asked priority spec none =
      Carry->>
        (Carry->>
          (Carry-Frame (
            Frame->>
              (Frame->> (Frame-check_capacity env config session)
                (Frame-check_dependencies env config session spec.dependencies))
              (Frame-check_scene env config session spec.scene spec.device)))
          (Carry-admit id session asked priority spec))
        (Carry-Frame (Frame-pure id))

  Carry-try_now : (id : String) → Carry (try_now env config id)
  unfolding try_now
  Carry-try_now id = Carry->>= (Carry-Frame (Frame-job_of id)) λ job.
      Carry->>= (Carry-Frame (Frame-available env config none true job)) λ verdict.
        Carry-if (is_legal verdict) (Carry-grant none job) (Carry-Frame (Frame-finish env job _))

  pub Carry-submit_tried :
      (id : String) (session : Session) (asked : Asked) (priority : ℕ) (spec : Spec)
      (try_only : Bool)
      → Carry (submit_tried env config id session asked priority spec try_only)
  unfolding submit_tried submit_prepared
  Carry-submit_tried id session asked priority spec try_only =
      Carry->>= (Carry-Frame (Frame-earlier env config session asked)) λ known.
        Carry->>=
          (Carry->>= (Carry-Frame (Frame-earlier env config session asked))
            (Carry-admit_new id session asked priority spec))
          λ answer.
            Carry->>
              (Carry-if (try_only && not (is_some known)) (Carry-try_now answer)
                (Carry-Frame (Frame-pure tt)))
              (Carry-Frame (Frame-pure answer))

pub Carry-restart : (env : Env) → Carry (restart env)
unfolding restart interrupt_all interrupt
Carry-restart env = Carry->>= (Carry-Frame (Frame-gets (λ s. s.jobs))) (
    Carry-each λ job.
      Carry-if (is_active job.state)
        (Carry->> (Carry-update env job.id interrupted_row (λ j. refl) (λ j. refl))
          (Carry-Frame (Frame-event env job.id _ _)))
        (Carry-Frame (Frame-pure tt)))

pub Carry-worker_died : (env : Env) (job : Job) → Carry (worker_died env job)
unfolding worker_died break_child
Carry-worker_died env job =
    Carry->>
      (Carry->> (Carry-update env job.id (died_row _) (λ j. refl) (λ j. refl))
        (Carry-Frame (Frame-event env job.id _ _)))
      (Carry->>= (Carry-Frame (Frame-gets (λ s. s.jobs))) (
        Carry-each λ child.
          Carry-if (is_child job child) (go child (env.saved_result child))
            (Carry-Frame (Frame-pure tt))))
  where
    go : (child : Job) (o : Option Outcome) → Carry (finish_or_break env child o)
    go child (some saved) = Carry-Frame (Frame-finish env child saved)
    go child none = Carry-update env child.id (died_row _) (λ j. refl) (λ j. refl)
