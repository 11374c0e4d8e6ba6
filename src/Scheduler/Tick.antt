-- ===== src/Scheduler/Tick.antt =====
-- workbench/service.py: `tick` (2004-2110), which looks after the running tasks, sorts the tasks that may
-- start into lanes, and hands phones over to manual control. The kill of a worker, the reaping of
-- processes, the cache of device status and the clean-up of old evidence are left out.
pub mod Death
pub mod Sound
use android_workbench.Prelude.{
  ℕ, ◌+◌, String, Option, none, some, Bool, true, false, not, ◌&&◌, ◌||◌, List, [], ◌∷◌, ◌++◌, any,
  contains, concat, opt_eq, ltb, leb, ◌==◌, if◌then◌else◌,
}
use android_workbench.Resource.{Resource, overlap}
use android_workbench.Scheduler.Model.{
  needs_recovery, expired, Health, Spec, Outcome, Job, Config, Env, State, is_active, is_terminal,
  is_queued, is_needs_recovery,
}
use android_workbench.Scheduler.Store.{
  Action, pure, raise, ◌>>=◌, ◌>>◌, gets, modify, job_of, update, event, health, same_process, each,
}
use android_workbench.Scheduler.Finish.{finish}
use android_workbench.Scheduler.Available.{
  Verdict, legal, waiting, available, no_action, is_lease, is_some,
}

-- The task has run too long, or waits for a repair.
abbrev pub is_overdue : Env → Job → Option ℕ → Action Bool
is_overdue env job none = raise "TypeError"
is_overdue env job (some started) =
    pure (ltb (started + job.spec.timeout) env.now || is_needs_recovery job.state)

-- Whether the worker is to stop, if it lives and is no lease (2013-2022).
unfoldable pub wants_stop : Env → Job → Action Bool
wants_stop env job =
    if not (same_process env job.worker) || is_lease job
    then pure false
    else if job.cancel
    then pure true
    else is_overdue env job job.started

abbrev deadline_of : String → List (String × ℕ) → Option ℕ
deadline_of id [] = none
deadline_of id ((key, t) ∷ rest) = if key == id then some t else deadline_of id rest

-- `setdefault`
abbrev set_deadline : String → ℕ → Option ℕ → Action ℕ
set_deadline id t (some known) = pure known
set_deadline id t none =
    modify (λ s. record s { stop_deadlines = (id, t) ∷ s.stop_deadlines }) >> pure t

-- The worker is killed once its time of grace is over; the grants stay blocked (2023-2031).
unfoldable pub stop_overdue : Env → Config → Job → Action (Unit {0})
stop_overdue env config job = do
  known ← gets (λ s. deadline_of job.id s.stop_deadlines)
  deadline ← set_deadline job.id (env.monotonic + config.cleanup_grace) known
  if leb deadline env.monotonic then event env job.id "controller_deadline_exceeded" [] else pure tt

abbrev pub died_row : String → Job → Job
died_row reason row = record row { state = needs_recovery; reason = some reason }

abbrev pub finish_or_break : Env → Job → Option Outcome → Action (Unit {0})
finish_or_break env child (some saved) = finish env child saved
finish_or_break env child none = update env child.id (died_row "parent_controller_died")

abbrev pub is_child : Job → Job → Bool
is_child job child = opt_eq child.parent (some job.id) && not (is_terminal child.state)

-- A child of a task whose worker died (2048-2061).
unfoldable pub break_child : Env → Job → Job → Action (Unit {0})
break_child env job child =
    if is_child job child then finish_or_break env child (env.saved_result child) else pure tt

-- What the task did is not known (2040-2061).
unfoldable pub worker_died : Env → Job → Action (Unit {0})
worker_died env job =
    update env job.id (died_row "worker_died_outcome_unconfirmed")
    >> event env job.id "recovery_required" (("reason", "worker_died") ∷ [])
    >> (gets (λ s. s.jobs) >>= each (break_child env job))

abbrev pub result_or_death : Env → Job → Option Outcome → Action (Unit {0})
result_or_death env job (some saved) =
    if same_process env job.worker then pure tt else finish env job saved
result_or_death env job none =
    if is_some job.worker && not (same_process env job.worker) && not (is_needs_recovery job.state)
    then worker_died env job
    else pure tt

-- An active task that stands for itself (2011-2061).
unfoldable pub watch : Env → Config → Job → Action (Unit {0})
watch env config job = do
  stop ← wants_stop env job
  (if stop then stop_overdue env config job else pure tt)
  result_or_death env job (env.saved_result job)

abbrev pub lane_of : Spec → String
lane_of spec = elim (spec.device) [
  | none ↦ "local"
  | some device ↦ if device == "" then "local" else concat "device:" device
]

-- `lanes.setdefault(lane, []).append(job)`
unfoldable pub add_to_lane : String → Job → List (String × List Job) → List (String × List Job)
add_to_lane lane job [] = (lane, job ∷ []) ∷ []
add_to_lane lane job ((name, jobs) ∷ lanes) =
    if name == lane
    then (name, jobs ++ job ∷ []) ∷ lanes
    else (name, jobs) ∷ add_to_lane lane job lanes

-- The reason is written where it is new and the task still waits (2075-2081).
abbrev pub wait_for : Env → Job → String → Action (Unit {0})
wait_for env job reason = if opt_eq job.reason (some reason) then pure tt else do
  row ← job_of job.id
  if is_queued row.state
      then update env job.id (λ r. record r { reason = some reason })
      else pure tt

abbrev sort_in : Env → Job → List (String × List Job) → Verdict → Action (List (String × List Job))
sort_in env job lanes legal = pure (add_to_lane (lane_of job.spec) job lanes)
sort_in env job lanes (waiting reason) = wait_for env job reason >> pure lanes

-- A task that waits (2062-2087).
unfoldable pub look_at :
    Env → Config → Job → List (String × List Job) → Action (List (String × List Job))
look_at env config job lanes =
    if not (is_queued job.state)
    then pure lanes
    else if ltb (job.created + job.spec.queue_timeout) env.now
    then finish env job (no_action expired "queue_timeout" none) >> pure lanes
    else available env config none true job >>= sort_in env job lanes

-- The loop over the tasks, as they were when it began.
unfoldable pub look_at_all :
    Env → Config → List Job → List (String × List Job) → Action (List (String × List Job))
look_at_all env config [] lanes = pure lanes
look_at_all env config (job ∷ rest) lanes = do
  (if is_active job.state && not (is_some job.parent) then watch env config job else pure tt)
  lanes' ← look_at env config job lanes
  look_at_all env config rest lanes'

-- An active task uses the resource.
abbrev pub in_use : List Job → String → Bool
in_use all key =
    any
      (λ (j : Job). is_active j.state && any (λ (r : Resource). overlap key r.key) j.spec.resources)
      all

-- A phone that is asked for is handed over when no active task uses it (2088-2098).
unfoldable pub hand_over : Health → Action (Unit {0})
hand_over h = do
  all ← gets (λ s. s.jobs)
  if in_use all h.key then pure tt else health (record h { status = "manual" })

abbrev pub hand_over_pending : Health → Action (Unit {0})
hand_over_pending h = if h.status == "manual_pending" then hand_over h else pure tt

-- The lanes that get a selection, and the lanes that have one then (2099-2107).
unfoldable pub submit_lanes :
    List (String × List Job) → List String → List (String × List Job) × List String
submit_lanes [] selecting = ([], selecting)
submit_lanes ((lane, jobs) ∷ lanes) selecting =
    if contains selecting lane
    then submit_lanes lanes selecting
    else (let rest = submit_lanes lanes (lane ∷ selecting) in ((lane, jobs) ∷ rest.0, rest.1))

-- The selections that are started, and the lanes that have one.
unfoldable pub tick : Env → Config → List String → Action (List (String × List Job) × List String)
tick env config selecting = do
  all ← gets (λ s. s.jobs)
  lanes ← look_at_all env config all []
  rows ← gets (λ s. s.resources)
  each hand_over_pending rows
  pure (submit_lanes lanes selecting)
