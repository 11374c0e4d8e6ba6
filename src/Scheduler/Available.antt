-- ===== src/Scheduler/Available.antt =====
-- workbench/service.py: `dependencies_ready` (1312-1335) and `available` (1422-1523), which decide
-- whether a queued task may start now. Both may finish a task that can no longer start.
pub mod Frame
pub mod Clear
use android_workbench.Prelude.{
  ℕ, String, Option, none, some, Bool, true, false, not, ◌&&◌, ◌||◌, List, [], ◌∷◌, any, keep,
  first, count, contains, opt_eq, concat, ltb, leb, ◌==◌, starts_with, if◌then◌else◌,
}
use android_workbench.Resource.{Resource, Mode, read, resource, overlap, conflict, is_write}
use android_workbench.Scheduler.Model.{
  JobState, failed, cancelled, expired, is_terminal, is_active, is_queued, is_needs_recovery,
  is_succeeded, is_partial, Dependency, Health, Spec, Outcome, Job, Config, Env, State,
}
use android_workbench.Scheduler.Store.{
  Action, pure, ◌>>=◌, ◌>>◌, gets, job_of, find_job, same_process,
}
use android_workbench.Scheduler.Finish.{finish, same_row}

-- A result that the scheduler itself gives to a task that never started.
abbrev pub no_action : JobState → String → Option String → Outcome
no_action st reason related = record {
  state = some st;
  cleanup_ok = true;
  reason = some reason;
  reconciled_jobs = some [];
  recovered_resources = [];
  related = related;
}

abbrev pub accepted : Dependency → JobState → Bool
accepted d st = is_succeeded st || (d.accept_partial && is_partial st)

-- One round of the loop of `dependencies_ready`.
unfoldable pub dependency_ready : Env → Job → Dependency → Action Bool
dependency_ready env job d = do
  upstream ← job_of d.upstream
  if is_terminal upstream.state && not (accepted d upstream.state)
      then (finish env job (no_action failed "dependency_failed" (some upstream.id)) >> pure false)
      else pure (accepted d upstream.state)

unfoldable pub dependencies_from : Env → Job → List Dependency → Action Bool
dependencies_from env job [] = pure true
dependencies_from env job (d ∷ ds) = do
  ready ← dependency_ready env job d
  if ready then dependencies_from env job ds else pure false

unfoldable pub dependencies_ready : Env → Job → Action Bool
dependencies_ready env job = dependencies_from env job job.spec.dependencies

pub data Verdict : Type 0 where
  legal : Verdict
  waiting : String → Verdict

abbrev pub is_legal : Verdict → Bool
is_legal legal = true
is_legal (waiting reason) = false

abbrev pub is_lease : Job → Bool
is_lease j = j.spec.operation == "host.lease"

abbrev worker_gone : Env → Option Job → Bool
worker_gone env none = false
worker_gone env (some old) = not (same_process env old.worker)

-- The fault is one that this repair froze, and the worker of the task it names is gone.
unfoldable pub repairs_fault : Env → Job → List Job → Health → Bool
repairs_fault env job all h =
    job.spec.recovery && any (same_row h) job.spec.recovery_health && elim (h.source) [
      | none ↦ job.spec.operation == "device.recover"
      | some source ↦
          contains job.spec.recovery_targets source && worker_gone env (find_job source all)
    ]

-- The first fault on one of the task's resources that the task may not pass.
unfoldable pub blocked_by_health : Env → Job → List Job → List Health → Option String
blocked_by_health env job all [] = none
blocked_by_health env job all (h ∷ rows) =
    if any (λ (x : Resource). overlap h.key x.key) job.spec.resources
      && not (repairs_fault env job all h)
    then some h.status
    else blocked_by_health env job all rows

abbrev pub is_parent : Option Job → Job → Bool
is_parent none current = false
is_parent (some p) current = current.id == p.id

-- The task repairs this one, whose worker is gone.
abbrev pub repairs_job : Env → Job → Job → Bool
repairs_job env job current =
    job.spec.recovery
    && is_needs_recovery current.state
    && contains job.spec.recovery_targets current.id
    && not (same_process env current.worker)

-- The first active task that holds a resource in conflict with this one's.
unfoldable pub blocked_by_active : Env → Option Job → Job → List Job → Option String
blocked_by_active env parent job [] = none
blocked_by_active env parent job (current ∷ rest) =
    if not (is_parent parent current)
      && not (repairs_job env job current)
      && conflict job.spec.resources current.spec.resources
    then some (concat "waiting_resource:" current.id)
    else blocked_by_active env parent job rest

abbrev pub is_some {ℓ} : {A : Type ℓ} → Option A → Bool
is_some none = false
is_some (some a) = true

-- The workers that count against `max_workers`.
abbrev pub uses_worker : Job → Bool
uses_worker j = not (is_needs_recovery j.state) && not (is_lease j)

unfoldable pub lease_limit : ℕ
lease_limit = 128

unfoldable pub blocked_by_capacity : Config → Option Job → Job → List Job → Option String
blocked_by_capacity config parent job active =
    if not (is_some parent)
      && not (is_lease job)
      && leb config.max_workers (count uses_worker active)
    then some "waiting_capacity"
    else if is_lease job && leb lease_limit (count is_lease active)
    then some "waiting_lease_capacity"
    else if job.spec.compute && leb config.max_compute (count (λ (j : Job). j.spec.compute) active)
    then some "waiting_compute"
    else none

infixr 20 ◌or_else◌
abbrev ◌or_else◌ : Option String → Option String → Option String
none or_else y = y
(some x) or_else y = some x

too_early : Env → Job → Option String
too_early env job = if ltb env.now job.spec.not_before then some "waiting_start_time" else none

-- A discovery that runs reads the adb service.
blocked_by_discovery : Job → State → Option String
blocked_by_discovery job s =
    if ltb 0 s.discovery_readers && conflict job.spec.resources (resource "service:adb" read ∷ [])
    then some "waiting_device_discovery"
    else none

-- The refusals that only read the tables (1448-1499), in their order.
unfoldable pub refusal : Env → Config → Option Job → Job → State → Option String
unfolding too_early blocked_by_discovery
refusal env config parent job s =
    let active = keep (λ (j : Job). is_active j.state) s.jobs in
    too_early env job
    or_else blocked_by_discovery job s
    or_else blocked_by_health env job s.jobs s.resources
    or_else blocked_by_active env parent job active
    or_else blocked_by_capacity config parent job active

abbrev exclusive_writes : Job → List Resource
exclusive_writes j =
    keep (λ (r : Resource). is_write r.mode && not (starts_with r.key "device:")) j.spec.resources

-- One round of the loop over earlier tasks (1503-1522): a ready earlier writer goes first.
unfoldable pub yields_to : Env → Job → Job → Action (Option String)
yields_to env job earlier =
    if earlier.id == job.id || not (is_queued earlier.state) || leb job.created earlier.created
    then pure none
    else do
      ready ← dependencies_ready env earlier
      if not ready || ltb env.now earlier.spec.not_before
          then pure none
          else pure (
              if conflict (exclusive_writes earlier) job.spec.resources
              then some (concat "waiting_earlier_writer:" earlier.id)
              else none)

verdict_or : Option String → Action Verdict → Action Verdict
verdict_or (some reason) next = pure (waiting reason)
verdict_or none next = next

unfoldable pub earlier_writer : Env → Job → List Job → Action Verdict
unfolding verdict_or
earlier_writer env job [] = pure legal
earlier_writer env job (earlier ∷ rest) = do
  found ← yields_to env job earlier
  verdict_or found (earlier_writer env job rest)

-- The lease owner that is gone before the grant, and the scene that the task is bound to.
lease_abandoned : Env → Job → Bool
lease_abandoned env job = is_lease job && not (same_process env job.spec.lease_owner)

abbrev bound_elsewhere : Option Job → Option String → Option String
bound_elsewhere parent none = none
bound_elsewhere none (some scene) = if scene == "" then none else some scene
bound_elsewhere (some p) (some scene) = if scene == "" || scene == p.id then none else some scene

wait_for_scene : Env → Job → String → Action Verdict
wait_for_scene env job id = do
  scene ← job_of id
  (if is_terminal scene.state || is_needs_recovery scene.state
      then finish env job (no_action expired "scene_expired" none)
      else pure tt)
  pure (waiting "waiting_bound_scene")

abandon : Env → Job → Action Verdict
abandon env job =
    finish env job (no_action cancelled "lease_owner_exited_before_grant" none)
    >> pure (waiting "lease_owner_exited_before_grant")

-- From the resource checks on.
unfoldable pub available_now : Env → Config → Option Job → Bool → Job → Action Verdict
unfolding verdict_or
available_now env config parent fairness job = do
  refused ← gets (refusal env config parent job)
  all ← gets (λ s. s.jobs)
  verdict_or refused
      (if fairness && not job.spec.recovery then earlier_writer env job all else pure legal)

bound_or_now : Env → Config → Option Job → Bool → Job → Option String → Action Verdict
unfolding wait_for_scene
bound_or_now env config parent fairness job (some scene) = wait_for_scene env job scene
bound_or_now env config parent fairness job none = available_now env config parent fairness job

unfoldable pub available : Env → Config → Option Job → Bool → Job → Action Verdict
unfolding lease_abandoned abandon bound_or_now
available env config parent fairness job = do
  ready ←
      (if job.cancel || not (is_queued job.state) then pure false else dependencies_ready env job)
  if not ready
      then pure (waiting "waiting_dependency_or_cancelled")
      else if lease_abandoned env job
      then abandon env job
      else bound_or_now env config parent fairness job (bound_elsewhere parent job.spec.scene)
