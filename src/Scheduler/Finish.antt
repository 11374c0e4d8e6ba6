-- ===== src/Scheduler/Finish.antt =====
-- workbench/service.py: `finish` (1603-1721) and `prepare_artifacts` (514-530), with the two scopes
-- of workbench/results.py that they use (10-18). The cache of device status, which `finish` also
-- refreshes, stands in a table of its own that nothing here reads; it is left out.
pub mod Frame
pub mod Blocked
pub mod Faults
use android_workbench.Prelude.{
  String, Option, none, some, Bool, true, false, not, ◌&&◌, ◌||◌, List, [], ◌∷◌, ◌++◌, any, all,
  keep, first, contains, opt_eq, ◌==◌, starts_with, if◌then◌else◌, prefixed,
}
use android_workbench.Resource.{Resource, overlap, is_write}
use android_workbench.Scheduler.Model.{
  JobState, failed, is_terminal, is_succeeded, is_needs_recovery, Spec, Health, Outcome, Job,
  Artifact, Env,
}
use android_workbench.Scheduler.Store.{
  Result, ok, err, Action, pure, raise, ◌>>=◌, ◌>>◌, gets, modify, transaction, job_of, update,
  event, health,
}

unfoldable pub inherited_recovery_health : Spec → List Health
inherited_recovery_health spec = if spec.recovery then spec.recovery_health else []

unfoldable pub recoverable_resources : Spec → List Resource
recoverable_resources spec =
    keep
      (λ item.
        not (any (λ (row : Health). overlap item.key row.key) (inherited_recovery_health spec)))
      spec.resources

-- Equality of two rows of the resources table.
unfoldable pub same_row : Health → Health → Bool
same_row a b =
    a.key == b.key && a.status == b.status && opt_eq a.source b.source && a.reason == b.reason

-- `len(set(xs)) == len(xs)`
unfoldable pub distinct : List String → Bool
distinct [] = true
distinct (x ∷ xs) = not (contains xs x) && distinct xs

subset : List String → List String → Bool
subset xs ys = all (λ x. contains ys x) xs

-- What `finish` has decided before it opens its transaction.
pub record Settled : Type 0 where
  pub state : JobState
  pub cleanup : Bool
  pub result : Outcome
  pub reconciled : List String

-- A state that is missing or not terminal counts as a failure.
abbrev terminal_or_failed : Option JobState → JobState
terminal_or_failed none = failed
terminal_or_failed (some st) = if is_terminal st then st else failed

abbrev outside_targets : Outcome → Settled
outside_targets result = record {
  state = failed;
  cleanup = false;
  result = record result {
    state = some failed;
    cleanup_ok = false;
    reason = some "recovery_result_outside_granted_targets";
  };
  reconciled = [];
}

abbrev check_reported : Spec → JobState → Outcome → Option (List String) → Settled
check_reported spec st result none = outside_targets result
check_reported spec st result (some reported) =
    if distinct reported && subset reported spec.recovery_targets
    then record { state = st; cleanup = true; result = result; reconciled = reported }
    else outside_targets result

-- The terminal state, and the tasks that a repair may call repaired.
unfoldable pub settle : Job → Outcome → Settled
unfolding subset
settle job result =
    let st = terminal_or_failed result.state in
    if job.spec.recovery && is_succeeded st && result.cleanup_ok
    then check_reported job.spec st result result.reconciled_jobs
    else record { state = st; cleanup = result.cleanup_ok; result = result; reconciled = [] }

artifact_record : Env → Job → String → String → Option String → Result Artifact
artifact_record env job name path none = err "Artifact output is missing"
artifact_record env job name path (some sum) = ok (record {
  project = job.project;
  name = name;
  job = job.id;
  path = path;
  sha256 = sum;
  created = env.now;
})

abbrev add_record : Result Artifact → Result (List Artifact) → Result (List Artifact)
add_record (err e) rest = err e
add_record (ok a) (err e) = err e
add_record (ok a) (ok rest) = ok (a ∷ rest)

unfoldable pub prepare_artifacts : Env → Job → List (String × String) → Result (List Artifact)
unfolding artifact_record
prepare_artifacts env job [] = ok []
prepare_artifacts env job ((name, path) ∷ outputs) =
    add_record (artifact_record env job name path (env.file_hash path))
      (prepare_artifacts env job outputs)

abbrev published : Settled → Result (List Artifact) → Settled × List Artifact
published d (ok records) = (d, records)
published d (err e) = (
  record d {
    state = failed;
    result = record d.result { state = some failed; reason = some "artifact_publication_failed" };
  },
  [],
)

-- A failed publication turns a success into a failure; the cleanup stands as reported.
unfoldable pub publish : Env → Job → Settled → Settled × List Artifact
publish env job d =
    if is_succeeded d.state
    then published d (prepare_artifacts env job job.spec.artifact_outputs)
    else (d, [])

-- The resources that an unconfirmed cleanup keeps blocked.
abbrev pub stays_blocked : Job → Resource → Bool
stays_blocked job r =
    is_write r.mode || starts_with r.key "device:" || job.spec.operation == "host.lease"

block_resources : Job → List Resource → Action (Unit {0})
block_resources job [] = pure tt
block_resources job (r ∷ rs) =
    let row : Health = record {
      key = r.key;
      status = "needs_recovery";
      source = some job.id;
      reason = "cleanup_or_outcome_unconfirmed";
    } in
    (if stays_blocked job r then health row else pure tt) >> block_resources job rs

-- The descriptions of the repaired tasks; an unknown one raises.
reconciled_specs : List String → Action (List (String × Spec))
reconciled_specs [] = pure []
reconciled_specs (id ∷ ids) = do
  old ← job_of id
  rest ← reconciled_specs ids
  pure ((id, old.spec) ∷ rest)

abbrev spec_of : Option String → List (String × Spec) → Option Spec
spec_of none specs = none
spec_of (some id) [] = none
spec_of (some id) ((j, spec) ∷ specs) = if j == id then some spec else spec_of (some id) specs

-- `device.recover` after a manual return clears the fault of its device that names no task.
abbrev manual_device : Job → Health → Bool
manual_device job row =
    opt_eq row.source none
    && job.spec.operation == "device.recover"
    && opt_eq (some row.key) (prefixed "device:" job.spec.device)

abbrev recovered_here : Option Spec → Health → Outcome → Bool
recovered_here none row result = false
recovered_here (some spec) row result =
    any (λ (item : Resource). item.key == row.key) (recoverable_resources spec)
    && contains result.recovered_resources row.key

-- The fault that the repaired task had itself inherited at this key.
abbrev previous_fault : Option Spec → Health → Option Health
previous_fault none row = none
previous_fault (some spec) row =
    first (λ (item : Health). item.key == row.key) (inherited_recovery_health spec)

abbrev restore_or_clear : Job → Outcome → Option Spec → Health → Option Health → List Health
restore_or_clear job result old row (some previous) =
    record row { status = previous.status; source = previous.source; reason = previous.reason } ∷ []
restore_or_clear job result old row none =
    if manual_device job row || recovered_here old row result then [] else row ∷ []

-- What a successful repair leaves of one row: a fault that the repair did not freeze stays.
unfoldable pub reconcile_row : Job → Outcome → List (String × Spec) → Health → List Health
reconcile_row job result specs row =
    let old = spec_of row.source specs in
    if any (same_row row) job.spec.recovery_health
    then restore_or_clear job result old row (previous_fault old row)
    else row ∷ []

unfoldable pub reconcile_rows : Job → Outcome → List (String × Spec) → List Health → List Health
reconcile_rows job result specs [] = []
reconcile_rows job result specs (row ∷ rows) =
    reconcile_row job result specs row ++ reconcile_rows job result specs rows

-- The repair succeeded and cleaned up after itself.
abbrev pub repaired : Job → Settled → Bool
repaired job d = job.spec.recovery && is_succeeded d.state && d.cleanup

unfoldable pub clear_faults : Job → Settled → Action (Unit {0})
unfolding reconciled_specs
clear_faults job d =
    if repaired job d
    then (reconciled_specs d.reconciled >>= λ specs.
        modify (λ s. record s { resources = reconcile_rows job d.result specs s.resources }))
    else pure tt

-- INSERT OR REPLACE under UNIQUE(project, name, job).
same_artifact : Artifact → Artifact → Bool
same_artifact a b = a.project == b.project && a.name == b.name && a.job == b.job

store_artifacts : List Artifact → Action (Unit {0})
store_artifacts [] = pure tt
store_artifacts (a ∷ rest) =
    modify (λ s. record s { artifacts = keep (λ b. not (same_artifact a b)) s.artifacts ++ a ∷ [] })
    >> store_artifacts rest

abbrev bool_text : Bool → String
bool_text true = "true"
bool_text false = "false"

abbrev state_text : JobState → String
state_text JobState.succeeded = "succeeded"
state_text JobState.partial = "partial"
state_text JobState.cancelled = "cancelled"
state_text JobState.expired = "expired"
state_text _ = "failed"

-- The row of a finished task.
abbrev pub finished_row : Env → Settled → Job → Job
finished_row env d row = record row {
  state = d.state;
  result = some d.result;
  finished = some env.now;
  reason = d.result.reason;
}

unfoldable pub record_finish : Env → Job → Settled → List Artifact → Action (Unit {0})
unfolding store_artifacts same_artifact
record_finish env job d records = transaction (do
  clear_faults job d
  update env job.id (finished_row env d)
  store_artifacts records
  event env job.id "finished"
      (("state", state_text d.state) ∷ ("cleanup_ok", bool_text d.cleanup) ∷ []))

-- An unconfirmed cleanup is a failure, and blocks the task's resources.
abbrev pub confirmed : Settled → Settled
confirmed d = if d.cleanup then d else record d { state = failed }

unfoldable pub block_unconfirmed : Job → Settled → Action (Unit {0})
unfolding block_resources
block_unconfirmed job d = if d.cleanup then pure tt else block_resources job job.spec.resources

abbrev pub reconciled_outcome : Job → Outcome
reconciled_outcome job = record {
  state = some failed;
  cleanup_ok = true;
  reason = some "reconciled_by_recovery";
  reconciled_jobs = some [];
  recovered_resources = [];
  related = some job.id;
}

-- The tasks that the repair reports as repaired are finished in turn, each by `rec`.
finish_repaired :
    (Job → Outcome → Action (Unit {0})) → Job → List String → List Job → Action (Unit {0})
finish_repaired rec job ids [] = pure tt
finish_repaired rec job ids (old ∷ rest) =
    (if contains ids old.id && is_needs_recovery old.state
      then rec old (reconciled_outcome job)
      else pure tt)
    >> finish_repaired rec job ids rest

unfoldable pub finish_settled :
    Env → (Job → Outcome → Action (Unit {0})) → Job → Settled × List Artifact → Action (Unit {0})
unfolding finish_repaired
finish_settled env rec job (d, records) =
    let d' = confirmed d in
    let tasks = gets (λ s. s.jobs) >>= finish_repaired rec job d'.reconciled in
    block_unconfirmed job d
    >> record_finish env job d' records
    >> (if repaired job d' then tasks else pure tt)

-- The body of `finish`; `rec` stands for its calls of itself.
unfoldable pub finish_step :
    Env → (Job → Outcome → Action (Unit {0})) → Job → Outcome → Action (Unit {0})
finish_step env rec job result =
    if is_terminal job.state
    then pure tt
    else finish_settled env rec job (publish env job (settle job result))

-- The inner calls report a failure, and a failure makes no further call: two levels are enough.
unfoldable pub finish : Env → Job → Outcome → Action (Unit {0})
finish env = finish_step env (finish_step env (λ job result. raise "unreachable"))
