-- ===== src/Scheduler/Grant.antt =====
-- workbench/service.py: `grant` (1525-1601), which gives a task its resources. The status cache of
-- the device, which a flashing task invalidates first, stands in a table that nothing here reads.
pub mod Exclusion
use android_workbench.Prelude.{
  String, Option, none, some, Bool, true, false, List, [], ◌∷◌, if◌then◌else◌,
}
use android_workbench.Scheduler.Model.{JobState, running, failed, Job, Outcome, Process, Env, State}
use android_workbench.Scheduler.Store.{
  Action, pure, ◌>>=◌, ◌>>◌, transaction, job_of, update, event,
}
use android_workbench.Scheduler.Finish.{finish}
use android_workbench.Scheduler.Available.{no_action, is_some}

abbrev pub parent_id : Option Job → Option String
parent_id none = none
parent_id (some p) = some p.id

abbrev parent_text : Option Job → String
parent_text none = ""
parent_text (some p) = p.id

-- The row of a started task.
abbrev pub granted_row : Env → Option Job → Job → Job
granted_row env parent row = record row {
  state = running;
  started = some env.now;
  generation = some (env.digest env.token);
  parent = parent_id parent;
  reason = none;
}

-- A worker of its own: its identity is noted, or the task fails where it cannot be started.
pub start_worker : Env → Job → Option (Option Process) → Action (Unit {0})
start_worker env job (some identity) = update env job.id (λ row. record row { worker = identity })
start_worker env job none = do
  row ← job_of job.id
  finish env row (no_action failed "worker_start_failed" none)

unfoldable pub begin_grant : Env → Option Job → Job → Action (Unit {0})
begin_grant env parent job = transaction (do
  update env job.id (granted_row env parent)
  event env job.id "started" (("parent", parent_text parent) ∷ []))

unfoldable pub grant : Env → Option Job → Job → Action (Unit {0})
unfolding start_worker
grant env parent job =
    begin_grant env parent job
    >> (if is_some parent then pure tt else start_worker env job (env.spawn job))
