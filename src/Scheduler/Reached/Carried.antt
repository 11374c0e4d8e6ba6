-- ===== src/Scheduler/Reached/Carried.antt =====
-- What a run of the service of workbench/service.py never loses.
use android_workbench.Scheduler.Model.{Config, State}
use android_workbench.Scheduler.Finish.Frame.{Frame-finish}
use android_workbench.Scheduler.Available.Frame.{Frame-available}
use android_workbench.Scheduler.Worker.Frame.{Frame-worker_request}
use android_workbench.Scheduler.Insertion.Exclusion.{Frame-insertion_candidates}
use android_workbench.Scheduler.Control.Frame.{Frame-cancel_job, Frame-set_priority}
use android_workbench.Scheduler.Tick.Sound.{Frame-tick}
use android_workbench.Leases.Requests.Frame.{Frame-lease_request}
use android_workbench.Scheduler.Carries.{Carries, Carries-refl, Carries-trans, Carry-Frame}
use android_workbench.Scheduler.Carries.Handlers.{
  Carry-select, Carry-insert_chosen, Carry-submit_tried, Carry-restart, Carry-worker_died,
}
use android_workbench.Scheduler.Reached.{
  Step, by_admission, by_selection, by_worker, by_search, by_insertion, by_cancellation,
  by_priority, by_lease, by_finish, by_question, by_tick, by_death, by_restart, Reached, at_start,
  then_step,
}

Step-Carries : {config : Config} {s t : State} → Step config s t → Carries s.jobs t.jobs
Step-Carries {config} {s} (by_admission env id session asked priority spec try_only) =
    (Carry-submit_tried env config id session asked priority spec try_only).at s
Step-Carries {config} {s} (by_selection env stopping lane candidates chosen) =
    (Carry-select env config stopping lane candidates chosen).at s
Step-Carries {config} {s} (by_worker env request id token) =
    (Carry-Frame (Frame-worker_request env request id token)).at s
Step-Carries {config} {s} (by_search env scene cp seen remaining) =
    (Carry-Frame (Frame-insertion_candidates env config scene cp seen remaining)).at s
Step-Carries {config} {s} (by_insertion env scene chosen budget elapsed) =
    (Carry-insert_chosen env config scene chosen budget elapsed).at s
Step-Carries {config} {s} (by_cancellation env session id) =
    (Carry-Frame (Frame-cancel_job env session id)).at s
Step-Carries {config} {s} (by_priority env session id value) =
    (Carry-Frame (Frame-set_priority env session id value)).at s
Step-Carries {config} {s} (by_lease env proc stopping session id request) =
    (Carry-Frame (Frame-lease_request env proc stopping session id request)).at s
Step-Carries {config} {s} (by_finish env job result) =
    (Carry-Frame (Frame-finish env job result)).at s
Step-Carries {config} {s} (by_question env parent fairness job) =
    (Carry-Frame (Frame-available env config parent fairness job)).at s
Step-Carries {config} {s} (by_tick env selecting n) =
    (Carry-Frame (Frame-tick env config n selecting)).at s
Step-Carries {config} {s} (by_death env job l n a) = (Carry-worker_died env job).at s
Step-Carries {config} {s} (by_restart env) = (Carry-restart env).at s

-- In every run of the modelled handlers, with ticks (that find no worker gone without a result), deaths
-- of workers (whose task and unfinished children are active, whose task has no parent, and whose
-- children left no result) and restarts, each task keeps a row under its id, and its lease keeps what
-- it has: a tree that was closed stays closed, a release and an expected call stand, and the tracked
-- process, the environment and the receipt are never replaced by others or forgotten.
pub Reached-Carries : {config : Config} {s t : State} → Reached config s t → Carries s.jobs t.jobs
Reached-Carries {s = s} at_start = Carries-refl s.jobs
Reached-Carries {s = s} (then_step {t} {u} r step) =
    Carries-trans s.jobs t.jobs u.jobs (Reached-Carries r) (Step-Carries step)
