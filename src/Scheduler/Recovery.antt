-- ===== src/Scheduler/Recovery.antt =====
-- workbench/service.py: `adb_lock_recoverable` (1337-1362) and `prepare_recovery` (1364-1420), which freezes
-- what a repair may repair when it is queued. The entry of the tool that the request names is an
-- argument, as far as it is read.
pub mod Targets
use android_workbench.Prelude.{
  ℕ, suc, String, Option, none, some, Bool, true, false, not, ◌&&◌, ◌||◌, List, [], ◌∷◌, ◌++◌, any,
  all, keep, length, map, codes, contains, concat, opt_eq, prefixed, ltb, leb, eqb, ◌==◌,
  if◌then◌else◌,
}
use android_workbench.Resource.{conflict}
use android_workbench.Scheduler.Model.{Process, Health, Spec, Job, Env, State, is_needs_recovery}
use android_workbench.Scheduler.Store.{
  Action, pure, raise, ◌>>=◌, ◌>>◌, gets, find_job, same_process,
}
use android_workbench.Scheduler.Choice.{text_before}
use android_workbench.Scheduler.Finish.{distinct}

-- A file that a worker leaves about the processes it started. A list item may be null.
pub data LockFile : Type 0 where
  absent unreadable : LockFile
  identities : List (Option Process) → LockFile

-- What is seen of the tools and of the files of a task.
pub record Locks : Type 0 where
  pub adb_exclusive : Job → Bool
  pub files : Job → List LockFile
  pub is_adb_server : Process → Bool

abbrev holds_adb : Env → Locks → Option Process → Bool
holds_adb env locks none = false
holds_adb env locks (some p) = not (locks.is_adb_server p) && env.live p

unfoldable pub files_are_free : Env → Locks → List LockFile → Bool
files_are_free env locks [] = true
files_are_free env locks (absent ∷ rest) = files_are_free env locks rest
files_are_free env locks (unreadable ∷ rest) = false
files_are_free env locks (identities ps ∷ rest) =
    if any (holds_adb env locks) ps then false else files_are_free env locks rest

unfoldable pub adb_lock_recoverable : Env → Locks → Option Job → Bool
adb_lock_recoverable env locks none = false
adb_lock_recoverable env locks (some old) =
    if not (locks.adb_exclusive old)
    then false
    else if same_process env old.worker
    then false
    else files_are_free env locks (locks.files old)

-- The key "recovery_jobs" of a request.
pub data Requested : Type 0 where
  unasked malformed : Requested
  listed : List String → Requested

abbrev is_hex : ℕ → Bool
is_hex c = (leb 48 c && leb c 57) || (leb 97 c && leb c 102)

-- `[0-9a-f]{32}`
abbrev pub is_job_id : String → Bool
is_job_id id = let cs = codes id in eqb (length cs) 32 && all is_hex cs

abbrev pub well_formed : List String → Bool
well_formed ids = leb 1 (length ids) && leb (length ids) 200 && all is_job_id ids && distinct ids

-- The scope that is frozen in the request.
pub record Scope : Type 0 where
  pub recovery_targets : List String
  pub adb_recovery_targets : List String
  pub recovery_health : List Health

abbrev pub is_platform : Spec → Bool
is_platform spec = spec.operation == "device.recover"

-- A repair is for the tasks on its phone: the platform's for all of them, and a tool's for those of its
-- project whose operation it is registered for.
abbrev pub covered : Spec → String → List String → Job → Bool
covered spec project repairs old =
    opt_eq old.spec.device spec.device
    && (is_platform spec || (old.project == project && contains repairs old.spec.operation))

abbrev pub is_source : List Health → String → Bool
is_source rows id = any (λ (row : Health). opt_eq row.source (some id)) rows

-- The task waits for a repair, or a fault names it.
abbrev pub is_affected : List Health → Job → Bool
is_affected rows old = is_needs_recovery old.state || is_source rows old.id

abbrev pub may_repair : Spec → String → List String → List Health → Option Job → Bool
may_repair spec project repairs rows none = false
may_repair spec project repairs rows (some old) =
    old.project == project && covered spec project repairs old && is_affected rows old

unfoldable pub check_requested :
    Spec → String → List String → List Health → List Job → List String → Action (Unit {0})
check_requested spec project repairs rows jobs [] = pure tt
check_requested spec project repairs rows jobs (id ∷ ids) =
    if may_repair spec project repairs rows (find_job id jobs)
    then check_requested spec project repairs rows jobs ids
    else raise "Recovery job is outside the affected project/scope"

abbrev insert_text : String → List String → List String
insert_text x [] = x ∷ []
insert_text x (y ∷ ys) = if text_before y x then y ∷ insert_text x ys else x ∷ y ∷ ys

abbrev pub sorted : List String → List String
sorted [] = []
sorted (x ∷ xs) = insert_text x (sorted xs)

abbrev pub is_faulty : Health → Bool
is_faulty row = row.status == "needs_recovery"

abbrev pub source_among : List String → Option String → Bool
source_among targets none = false
source_among targets (some id) = contains targets id

-- The fault is of a target, or of the phone itself and of no task.
abbrev pub is_frozen : Spec → List String → Health → Bool
is_frozen spec targets row =
    source_among targets row.source
    || (is_platform spec
        && opt_eq (some row.key) (prefixed "device:" spec.device)
        && opt_eq row.source none)

abbrev has_adb_fault : List Health → String → Bool
has_adb_fault rows id =
    any (λ (row : Health). row.key == "service:adb" && opt_eq row.source (some id)) rows

-- The row that `manual_release` is about to write, where the phone is given back just now.
abbrev pub returned_row : Spec → List Health → List Health
returned_row spec all_rows = elim (spec.device) [
  | none ↦ []
  | some device ↦
      if is_platform spec
        && any
            (λ (row : Health).
              row.key == concat "device:" device && row.status == "manual_return_pending")
            all_rows
      then record {
        key = concat "device:" device;
        status = "needs_recovery";
        source = none;
        reason = "manual_returned";
      }
        ∷ []
      else []
]

abbrev pub scope_of : Env → Locks → Spec → List Job → List Health → List String → Scope
scope_of env locks spec jobs all_rows targets =
    let rows = keep is_faulty all_rows in
    record {
      recovery_targets = sorted targets;
      adb_recovery_targets = sorted (
          keep
            (λ id.
              is_platform spec
              && adb_lock_recoverable env locks (find_job id jobs)
              && has_adb_fault rows id)
            targets);
      recovery_health = keep (is_frozen spec targets) rows ++ returned_row spec all_rows;
    }

-- The targets where none are asked for.
abbrev pub all_affected : Spec → String → List String → List Health → List Job → List String
all_affected spec project repairs rows jobs =
    map (λ (old : Job). old.id)
      (keep
        (λ (old : Job).
          covered spec project repairs old
          && is_affected rows old
          && conflict spec.resources old.spec.resources)
        jobs)

unfoldable pub targets_of :
    Spec → String → List String → List Health → List Job → Requested → Action (List String)
targets_of spec project repairs rows jobs unasked =
    pure (all_affected spec project repairs rows jobs)
targets_of spec project repairs rows jobs malformed =
    raise "recovery_jobs must be a nonempty unique list of job IDs"
targets_of spec project repairs rows jobs (listed ids) =
    if well_formed ids
    then check_requested spec project repairs rows jobs ids >> pure ids
    else raise "recovery_jobs must be a nonempty unique list of job IDs"

abbrev is_unasked : Requested → Bool
is_unasked unasked = true
is_unasked _ = false

abbrev pub nothing_to_prepare : Requested → Action (Option Scope)
nothing_to_prepare requested =
    if is_unasked requested
    then pure none
    else raise "recovery_jobs requires a registered recovery operation"

unfoldable pub freeze :
    Env → Locks → Spec → String → List String → Requested → Action (Option Scope)
freeze env locks spec project repairs requested = do
  jobs ← gets (λ s. s.jobs)
  all_rows ← gets (λ s. s.resources)
  targets ← targets_of spec project repairs (keep is_faulty all_rows) jobs requested
  pure (some (scope_of env locks spec jobs all_rows targets))

-- `none` is a request that repairs nothing.
unfoldable pub prepare_recovery :
    Env → Locks → Spec → String → List String → Requested → Action (Option Scope)
prepare_recovery env locks spec project repairs requested =
    if not spec.recovery
    then nothing_to_prepare requested
    else freeze env locks spec project repairs requested
