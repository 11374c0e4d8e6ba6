-- ===== src/Scheduler/Model.antt =====
-- The data of workbench/service.py: a row of the jobs table (store.py 309-316), the task
-- description that it carries, the resource faults, the configuration and the surroundings.
use android_workbench.Prelude.{ℕ, String, Option, Bool, true, false, List}
use android_workbench.Resource.{Resource}

pub data JobState : Type 0 where
  queued running paused verifying cleaning needs_recovery : JobState
  succeeded partial failed cancelled expired : JobState

-- common.py, TERMINAL
abbrev pub is_terminal : JobState → Bool
is_terminal succeeded = true
is_terminal partial = true
is_terminal failed = true
is_terminal cancelled = true
is_terminal expired = true
is_terminal _ = false

-- service.py, ACTIVE
abbrev pub is_active : JobState → Bool
is_active running = true
is_active paused = true
is_active verifying = true
is_active cleaning = true
is_active needs_recovery = true
is_active _ = false

abbrev pub is_queued : JobState → Bool
is_queued queued = true
is_queued _ = false

abbrev pub is_running : JobState → Bool
is_running running = true
is_running _ = false

abbrev pub is_paused : JobState → Bool
is_paused paused = true
is_paused _ = false

abbrev pub is_needs_recovery : JobState → Bool
is_needs_recovery needs_recovery = true
is_needs_recovery _ = false

abbrev pub is_succeeded : JobState → Bool
is_succeeded succeeded = true
is_succeeded _ = false

abbrev pub is_partial : JobState → Bool
is_partial partial = true
is_partial _ = false

-- common.py, process_identity
pub record Process : Type 0 where
  pub pid : ℕ
  pub start : String
  pub group : ℕ
  pub boot : String

-- A dependency: a bare id stands for one that does not accept a partial result.
pub record Dependency : Type 0 where
  pub upstream : String
  pub accept_partial : Bool

-- A row of the resources table; its detail is a JSON object with these two keys.
pub record Health : Type 0 where
  pub key : String
  pub status : String
  pub source : Option String
  pub reason : String

-- A checkpoint of a scene's plan. Times are whole tenths of a second.
pub record Checkpoint : Type 0 where
  pub budget : ℕ
  pub allow : List String

-- What a lease writes into its task's description: how it is used, what has been confirmed about its
-- processes, and the call that it is for.
pub record Lease : Type 0 where
  pub mode : Option String
  pub released : Bool
  pub tree_closed : Bool
  pub process : Option Process
  pub expected : Bool
  pub environment : Option String
  pub receipt : Option String
  pub record_digest : Option String
  pub incomplete : Bool

-- What `normalize` leaves of a request, as far as the scheduler reads it. A missing key is `none`,
-- `false`, `0` or the empty list, as its `get` says.
pub record Spec : Type 0 where
  pub operation : String
  pub device : Option String
  pub resources : List Resource
  pub dependencies : List Dependency
  pub scene : Option String
  pub not_before : ℕ
  pub queue_timeout : ℕ
  pub timeout : ℕ
  pub estimate : ℕ
  pub compute : Bool
  pub recovery : Bool
  pub recovery_targets : List String
  pub recovery_health : List Health
  pub lease_owner : Option Process
  pub lease : Lease
  pub drain_requested : Bool
  pub insertable : Bool
  pub app : Option String
  pub activity : Option String
  pub expected_boot : Option String
  pub accept_hooks : Bool
  pub baseline : Bool
  pub checkpoints : List Checkpoint
  pub outputs : List String
  pub artifact_outputs : List (String × String)
  pub release_device_requested : Bool
  pub device_released : Bool

-- The result of a task, as its worker or the scheduler reports it. `none` for the state is a
-- missing key; `none` for the reconciled jobs is a value that is not a list of texts.
pub record Outcome : Type 0 where
  pub state : Option JobState
  pub cleanup_ok : Bool
  pub reason : Option String
  pub reconciled_jobs : Option (List String)
  pub recovered_resources : List String
  pub related : Option String

-- A row of the jobs table. The priority is shifted by 5, so that -5..5 reads 0..10.
pub record Job : Type 0 where
  pub id : String
  pub owner : String
  pub project : String
  pub request_key : String
  pub request_hash : String
  pub state : JobState
  pub spec : Spec
  pub created : ℕ
  pub updated : ℕ
  pub started : Option ℕ
  pub finished : Option ℕ
  pub priority : ℕ
  pub revision : ℕ
  pub generation : Option String
  pub cancel : Bool
  pub parent : Option String
  pub reason : Option String
  pub result : Option Outcome
  pub worker : Option Process

pub record Artifact : Type 0 where
  pub project : String
  pub name : String
  pub job : String
  pub path : String
  pub sha256 : String
  pub created : ℕ

pub record Event : Type 0 where
  pub job : String
  pub kind : String
  pub time : ℕ
  pub detail : List (String × String)

pub record Config : Type 0 where
  pub max_queued : ℕ
  pub max_session_queued : ℕ
  pub max_workers : ℕ
  pub max_compute : ℕ
  pub fair_after : ℕ
  pub candidate_limit : ℕ
  pub test_mode : Bool
  pub cleanup_grace : ℕ

-- What a handler sees of its surroundings while it holds the lock: the clock, the processes of the
-- kernel, the files, and what `secrets`, `hashlib` and `subprocess` return.
pub record Env : Type 0 where
  pub now : ℕ
  pub live : Process → Bool
  pub file_hash : String → Option String
  pub token : String
  pub digest : String → String
  -- `time.monotonic()`
  pub monotonic : ℕ
  -- The result file in the task's directory, if it is there.
  pub saved_result : Job → Option Outcome
  -- `none` where the worker cannot be started, else the identity that /proc shows for it.
  pub spawn : Job → Option (Option Process)

-- What a scene reports of its phone, as far as an insertion compares it.
pub record Observation : Type 0 where
  pub app : Option String
  pub activity : Option String
  pub boot_id : Option String
  pub hooks : Bool

-- The database, the last observation of each phone, the counter of running device discoveries, and
-- when the worker of a task that is to stop is killed.
-- Jobs stand in the order of `ORDER BY created,id`.
pub record State : Type 0 where
  pub jobs : List Job
  pub resources : List Health
  pub artifacts : List Artifact
  pub outputs : List (String × String)
  pub events : List Event
  pub contexts : List (Option String × Observation)
  pub discovery_readers : ℕ
  pub stop_deadlines : List (String × ℕ)
