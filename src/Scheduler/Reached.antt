-- ===== src/Scheduler/Reached.antt =====
-- The service of workbench/service.py as a machine: every handler runs under the lock, so a run is a
-- sequence of handlers, each with its own surroundings and with whatever its caller gives it.
pub mod Carried
use android_workbench.Prelude.{ℕ, String, Option, Bool, List}
use android_workbench.Scheduler.Model.{
  Job, Spec, Outcome, Checkpoint, Observation, Config, Env, State,
}
use android_workbench.Scheduler.Finish.{finish}
use android_workbench.Scheduler.Finish.Frame.{Frame-finish}
use android_workbench.Scheduler.Available.{available}
use android_workbench.Scheduler.Available.Frame.{Frame-available}
use android_workbench.Scheduler.Exclusion.{Sound}
use android_workbench.Scheduler.Select.{select}
use android_workbench.Scheduler.Select.Exclusion.{select-Sound}
use android_workbench.Scheduler.Worker.{Request, worker_request}
use android_workbench.Scheduler.Worker.Frame.{worker_request-Sound}
use android_workbench.Scheduler.Insertion.{insertion_candidates, insert_chosen}
use android_workbench.Scheduler.Insertion.Exclusion.{
  Frame-insertion_candidates, insert_chosen-Sound,
}
use android_workbench.Scheduler.Control.{cancel_job, set_priority, restart}
use android_workbench.Scheduler.Control.Frame.{Frame-cancel_job, Frame-set_priority}
use android_workbench.Scheduler.Control.Restart.{restart-Sound}
use android_workbench.Scheduler.Admission.{Session, Asked}
use android_workbench.Scheduler.Submit.{submit_tried}
use android_workbench.Scheduler.Submit.Sound.{Keeps-submit_tried}
use android_workbench.Scheduler.Tick.{tick, worker_died}
use android_workbench.Scheduler.Tick.Death.{Alone, NoResult}
use android_workbench.Scheduler.Tick.Sound.{NoDeath, StruckActive, tick-Sound, worker_died-Sound}
use android_workbench.Leases.Processes.{Proc}
use android_workbench.Leases.Requests.{Request as LeaseRequest, lease_request}
use android_workbench.Leases.Requests.Frame.{Frame-lease_request}
use android_workbench.Scheduler.Keeps.{Keeps-Frame}

-- One handler. `by_finish` and `by_question` are what `tick` does with one task of its snapshot; a whole
-- `tick` is a step where no worker is gone without a result, and the death of a worker is a step
-- where the task and its unfinished children are active and the children left no result.
pub data Step (config : Config) (s : State) : State → Type 0 where
  by_admission :
      (env : Env) (id : String) (session : Session) (asked : Asked) (priority : ℕ) (spec : Spec)
      (try_only : Bool)
      → Step config s (submit_tried env config id session asked priority spec try_only s).1
  by_selection :
      (env : Env) (stopping : Bool) (lane : String) (candidates : List Job) (chosen : String)
      → Step config s (select env config stopping lane candidates chosen s).1
  by_worker :
      (env : Env) (request : Request) (id token : String)
      → Step config s (worker_request env request id token s).1
  by_search :
      (env : Env) (scene : Job) (cp : Checkpoint) (seen : Observation) (remaining : ℕ)
      → Step config s (insertion_candidates env config scene cp seen remaining s).1
  by_insertion :
      (env : Env) (scene chosen : String) (budget elapsed : ℕ)
      → Step config s (insert_chosen env config scene chosen budget elapsed s).1
  by_cancellation :
      (env : Env) (session id : String) → Step config s (cancel_job env session id s).1
  by_priority :
      (env : Env) (session id : String) (value : ℕ)
      → Step config s (set_priority env session id value s).1
  by_lease :
      (env : Env) (proc : Proc) (stopping : Bool) (session id : String) (request : LeaseRequest)
      → Step config s (lease_request env proc stopping session id request s).1
  by_finish : (env : Env) (job : Job) (result : Outcome) → Step config s (finish env job result s).1
  by_question :
      (env : Env) (parent : Option Job) (fairness : Bool) (job : Job)
      → Step config s (available env config parent fairness job s).1
  by_tick :
      (env : Env) (selecting : List String)
      → NoDeath env
      → Step config s (tick env config selecting s).1
  by_death :
      (env : Env) (job : Job)
      → Alone job s.jobs
      → NoResult env job
      → StruckActive job s.jobs
      → Step config s (worker_died env job s).1
  by_restart : (env : Env) → Step config s (restart env s).1

-- A run from the first state to the second.
pub data Reached (config : Config) (s : State) : State → Type 0 where
  at_start : Reached config s s
  then_step : {t u : State} → Reached config s t → Step config t u → Reached config s u

-- Every handler keeps the promise of the queue.
pub Step-Sound :
    {config : Config} {s t : State} → Step config s t → Sound config s.jobs → Sound config t.jobs
Step-Sound {config} {s} (by_admission env id session asked priority spec try_only) h =
    (Keeps-submit_tried env config id session asked priority spec try_only).at s h
Step-Sound {config} {s} (by_selection env stopping lane candidates chosen) h =
    select-Sound env config stopping lane candidates chosen s h
Step-Sound {config} {s} (by_worker env request id token) h =
    worker_request-Sound env config request id token s h
Step-Sound {config} {s} (by_search env scene cp seen remaining) h =
    (Keeps-Frame config (Frame-insertion_candidates env config scene cp seen remaining)).at s h
Step-Sound {config} {s} (by_insertion env scene chosen budget elapsed) h =
    insert_chosen-Sound env config scene chosen budget elapsed s h
Step-Sound {config} {s} (by_cancellation env session id) h =
    (Keeps-Frame config (Frame-cancel_job env session id)).at s h
Step-Sound {config} {s} (by_priority env session id value) h =
    (Keeps-Frame config (Frame-set_priority env session id value)).at s h
Step-Sound {config} {s} (by_lease env proc stopping session id request) h =
    (Keeps-Frame config (Frame-lease_request env proc stopping session id request)).at s h
Step-Sound {config} {s} (by_finish env job result) h =
    (Keeps-Frame config (Frame-finish env job result)).at s h
Step-Sound {config} {s} (by_question env parent fairness job) h =
    (Keeps-Frame config (Frame-available env config parent fairness job)).at s h
Step-Sound {config} {s} (by_tick env selecting n) h = tick-Sound env config selecting s n h
Step-Sound {config} {s} (by_death env job l n a) h = worker_died-Sound env config job s l n a h
Step-Sound {config} {s} (by_restart env) h = restart-Sound env config s h

-- Every state that a run of the modelled handlers reaches from a sound queue is sound, whatever the
-- clients, the workers and the policy ask, in whatever order, with ticks (that find no worker gone
-- without a result), deaths of workers (whose task and unfinished children are active, and whose
-- children left no result) and restarts in between: ids are unique, conflicting tasks are never
-- active together unless one excuses the other, and no limit is passed.
pub Reached-Sound :
    {config : Config} {s t : State} → Sound config s.jobs → Reached config s t → Sound config t.jobs
Reached-Sound h at_start = h
Reached-Sound h (then_step r step) = Step-Sound step (Reached-Sound h r)
