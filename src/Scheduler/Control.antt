-- ===== src/Scheduler/Control.antt =====
-- workbench/service.py: what the owner of a task asks (`jobs.cancel` 640-671, `jobs.set_priority`
-- 767-777), and what a start of the service does to the tasks that it finds active (127-137). The
-- clean-up of old evidence at a start deletes files and is left out.
pub mod Frame
pub mod Restart
use android_workbench.Prelude.{
  ℕ, ◌+◌, String, none, some, Bool, true, not, ◌&&◌, List, [], ◌∷◌, leb, ◌==◌, if◌then◌else◌,
}
use android_workbench.Scheduler.Model.{
  needs_recovery, cancelled, Spec, Job, Env, State, is_active, is_terminal, is_queued, is_running,
}
use android_workbench.Scheduler.Store.{
  Action, pure, raise, ◌>>=◌, ◌>>◌, gets, job_of, update, event, each,
}
use android_workbench.Scheduler.Finish.{finish}
use android_workbench.Scheduler.Available.{no_action, is_lease}

-- `own`
unfoldable pub own : {A : Type 0} → String → String → (Job → Action A) → Action A
own session id k = do
  job ← job_of id
  if job.owner == session then k job else raise "Task belongs to a different session"

abbrev pub drained_row : Job → Job
drained_row row = record row {
  spec = record row.spec { drain_requested = true };
  reason = some "external_tool_drain_requested";
}

abbrev pub cancelled_row : Job → Job → Job
cancelled_row job row = record row {
  cancel = true;
  reason = some "cancellation_requested";
  revision = job.revision + 1;
}

-- A lease is drained, a waiting task ends, and a running one is asked to stop.
unfoldable pub cancel_owned : Env → Job → Action (Unit {0})
cancel_owned env job =
    if is_terminal job.state
    then pure tt
    else if is_lease job && is_running job.state
    then update env job.id drained_row
    else if is_queued job.state
    then finish env job (no_action cancelled "cancelled_before_start" none)
    else update env job.id (cancelled_row job) >> event env job.id "cancel_requested" []

unfoldable pub cancel_job : Env → String → String → Action (Unit {0})
cancel_job env session id = own session id (cancel_owned env)

abbrev pub reprioritized : Job → ℕ → Job → Job
reprioritized job value row = record row { priority = value; revision = job.revision + 1 }

-- The highest priority, 5, shifted by 5.
abbrev pub max_priority : ℕ
max_priority = 10

unfoldable pub prioritize_owned : Env → ℕ → Job → Action (Unit {0})
prioritize_owned env value job =
    if not (is_queued job.state)
    then raise "Only queued task priority can change"
    else if not (leb value max_priority)
    then raise "priority must be an integer -5..5"
    else update env job.id (reprioritized job value)

unfoldable pub set_priority : Env → String → String → ℕ → Action (Unit {0})
set_priority env session id value = own session id (prioritize_owned env value)

abbrev pub interrupted_row : Job → Job
interrupted_row row = record row {
  state = needs_recovery;
  reason = some "service_restarted_outcome_unconfirmed";
}

unfoldable pub interrupt : Env → Job → Action (Unit {0})
interrupt env job =
    if is_active job.state
    then update env job.id interrupted_row
      >> event env job.id "recovery_required" (("reason", "service_restart") ∷ [])
    else pure tt

unfoldable pub interrupt_all : Env → List Job → Action (Unit {0})
interrupt_all env = each (interrupt env)

-- No outcome of an active task is known to a service that starts.
unfoldable pub restart : Env → Action (Unit {0})
restart env = gets (λ s. s.jobs) >>= interrupt_all env
