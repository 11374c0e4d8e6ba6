-- ===== src/Scheduler/Admission/Reads.antt =====
-- The checks of `submit` in workbench/service.py leave the table of tasks as it is.
use android_workbench.Prelude.{
  String, Option, some, none, Bool, true, false, List, [], ◌∷◌, ◌==◌, ◌≡◌, refl, ◌∙◌, if◌then◌else◌,
  opt_eq,
}
use android_workbench.Scheduler.Model.{Dependency, Job, Config, State}
use android_workbench.Scheduler.Store.{
  Action, Result, ok, err, and_then, pure, raise, ◌>>=◌, gets, modify, job_of, found, find_job,
}
use android_workbench.Scheduler.Admission.{
  Session, check_capacity, shared, check_dependencies, check_scene, refuse_reserved, reserved,
  taken, with_output, insert_outputs,
}

-- The action leaves the table of tasks as it is.
pub record Same {A : Type 0} (m : Action A) : Type 0 where
  pub at : (s : State) → (m s).1.jobs ≡ s.jobs

pub Same-pure : {A : Type 0} (a : A) → Same (pure a)
Same-pure a = record { at = λ s. refl }

pub Same-raise : {A : Type 0} (e : String) → Same {A = A} (raise e)
Same-raise e = record { at = λ s. refl }

pub Same-gets : {A : Type 0} (f : State → A) → Same (gets f)
Same-gets f = record { at = λ s. refl }

pub Same-modify : (f : State → State) → ((s : State) → (f s).jobs ≡ s.jobs) → Same (modify f)
Same-modify f h = record { at = h }

and_then-Same :
    {A B : Type 0} (js : List Job) (r : Result A × State) (f : A → Action B)
    → r.1.jobs ≡ js
    → ((a : A) → Same (f a))
    → (and_then r f).1.jobs ≡ js
and_then-Same js (ok a, s) f e h = (h a).at s ∙ e
and_then-Same js (err x, s) f e h = e

pub Same->>= :
    {A B : Type 0} {m : Action A} {f : A → Action B}
    → Same m
    → ((a : A) → Same (f a))
    → Same (m >>= f)
Same->>= {m = m} {f = f} h g = record { at = λ s. and_then-Same s.jobs (m s) f (h.at s) g }

pub Same-if : {A : Type 0} (b : Bool) {m n : Action A} → Same m → Same n → Same (if b then m else n)
Same-if true h g = h
Same-if false h g = g

pub Same-job_of : (id : String) → Same (job_of id)
unfolding job_of
Same-job_of id = record { at = λ s. go s (find_job id s.jobs) }
  where
    go : (s : State) (o : Option Job) → (found o s).1.jobs ≡ s.jobs
    go s none = refl
    go s (some j) = refl

pub Same-check_capacity :
    (config : Config) (session : Session) → Same (check_capacity config session)
unfolding check_capacity
Same-check_capacity config session =
    Same->>= (Same-gets (λ s. s.jobs)) (λ all. Same-if _ (Same-raise _) (Same-pure tt))

pub Same-shared : (session : Session) (id : String) → Same (shared session id)
unfolding shared
Same-shared session id =
    Same->>= (Same-job_of id)
      (λ job. Same-if (job.project == session.project) (Same-pure job) (Same-raise _))

pub Same-check_dependencies :
    (session : Session) (ds : List Dependency) → Same (check_dependencies session ds)
unfolding check_dependencies
Same-check_dependencies session [] = Same-pure tt
Same-check_dependencies session (d ∷ ds) =
    Same->>= (Same-shared session d.upstream) (λ _. Same-check_dependencies session ds)

pub Same-check_scene :
    (session : Session) (scene device : Option String) → Same (check_scene session scene device)
unfolding check_scene
Same-check_scene session none device = Same-pure tt
Same-check_scene session (some id) device =
    Same->>= (Same-shared session id)
      (λ job. Same-if (opt_eq job.spec.device device) (Same-pure tt) (Same-raise _))

pub Same-refuse_reserved : (outputs : List String) → Same (refuse_reserved outputs)
unfolding refuse_reserved
Same-refuse_reserved [] = Same-pure tt
Same-refuse_reserved (output ∷ rest) =
    Same->>= (Same-gets _)
      (λ rows. Same-if (reserved rows output) (Same-raise _) (Same-refuse_reserved rest))

pub Same-insert_outputs : (id : String) (outputs : List String) → Same (insert_outputs id outputs)
unfolding insert_outputs
Same-insert_outputs id [] = Same-pure tt
Same-insert_outputs id (output ∷ rest) = Same->>= (Same-gets _) λ rows.
    Same-if (taken rows output) (Same-raise _) (
      Same->>= (Same-modify (with_output id output) (λ s. refl)) (λ _. Same-insert_outputs id rest))
