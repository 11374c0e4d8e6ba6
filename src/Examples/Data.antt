-- ===== src/Examples/Data.antt =====
-- Queues of workbench/service.py: a task that runs and two that wait for a phone, and a scene on a
-- phone with a task that can be put into it.
use android_workbench.Prelude.{
  List, ℕ, String, none, some, true, false, [], ◌∷◌, ◌==◌, if◌then◌else◌, concat,
}
use android_workbench.Resource.{read, write}
use android_workbench.Scheduler.Model.{
  queued, running, paused, Checkpoint, Lease, Spec, Job, Config, Env, State, Process,
}

abbrev pub no_lease : Lease
no_lease = record {
  mode = none;
  released = false;
  tree_closed = false;
  process = none;
  expected = false;
  environment = none;
  receipt = none;
  record_digest = none;
  incomplete = false;
}

abbrev pub plain_spec : Spec
plain_spec = record {
  operation = "apk.pull";
  device = some "phone-1";
  resources = record { key = "device:phone-1"; mode = write } ∷ [];
  dependencies = [];
  scene = none;
  not_before = 0;
  queue_timeout = 3600;
  timeout = 600;
  estimate = 30;
  compute = false;
  recovery = false;
  recovery_targets = [];
  recovery_health = [];
  lease_owner = none;
  lease = no_lease;
  drain_requested = false;
  insertable = false;
  app = none;
  activity = none;
  expected_boot = none;
  accept_hooks = false;
  baseline = false;
  checkpoints = [];
  outputs = [];
  artifact_outputs = [];
  release_device_requested = false;
  device_released = false;
}

abbrev pub waiting_job : String → ℕ → ℕ → Spec → Job
waiting_job id created priority spec = record {
  id = id;
  owner = "session-1";
  project = "/work/app";
  request_key = id;
  request_hash = "sha256:request";
  state = queued;
  spec = spec;
  created = created;
  updated = created;
  started = none;
  finished = none;
  priority = priority;
  revision = 1;
  generation = none;
  cancel = false;
  parent = none;
  reason = none;
  result = none;
  worker = none;
}

abbrev pub worker_process : Process
worker_process = record { pid = 4242; start = "900"; group = 4242; boot = "boot-1" }

-- A task that reads a directory and runs.
abbrev pub reader : Job
reader =
    record (waiting_job "r1" 10 5 (record plain_spec {
      device = none;
      resources = record { key = "path:/work/app"; mode = read } ∷ [];
    })) { state = running; started = some 11; worker = some worker_process }

-- A phone task that has waited since 20, and a more urgent one that came later.
abbrev pub patient : Job
patient = waiting_job "q1" 20 5 plain_spec

abbrev pub urgent : Job
urgent = waiting_job "q2" 300 10 plain_spec

abbrev pub config : Config
config = record {
  max_queued = 500;
  max_session_queued = 100;
  max_workers = 8;
  max_compute = 2;
  fair_after = 120;
  candidate_limit = 16;
  test_mode = false;
  cleanup_grace = 300;
}

abbrev pub env : Env
env = record {
  now = 400;
  live = λ p. true;
  file_hash = λ path. if path == "/work/out.apk" then some "cafe" else none;
  token = "secret";
  digest = concat "sha256:";
  monotonic = 9000;
  saved_result = λ j. none;
  spawn = λ j. some (some worker_process);
}

abbrev pub queue : State
queue = record {
  jobs = reader ∷ patient ∷ urgent ∷ [];
  resources = [];
  artifacts = [];
  outputs = [];
  events = [];
  contexts = [];
  discovery_readers = 0;
  stop_deadlines = [];
}

-- A scene on a phone: it runs, may be paused at one checkpoint, and has been asked to give the phone
-- back.
abbrev pub checkpoint_here : Checkpoint
checkpoint_here = record { budget = 600; allow = "probe.screen" ∷ [] }

abbrev pub scene : Job
scene =
    record (waiting_job "s1" 30 5
      (record plain_spec { checkpoints = checkpoint_here ∷ []; release_device_requested = true })) {
        state = running;
        started = some 40;
        generation = some (concat "sha256:" "secret");
        worker = some worker_process;
      }

-- A task that can be put into the scene.
abbrev pub probe : Job
probe = waiting_job "p1" 50 5 (record plain_spec { operation = "probe.screen"; insertable = true })

abbrev pub with_jobs : List Job → State
with_jobs js = record {
  jobs = js;
  resources = [];
  artifacts = [];
  outputs = [];
  events = [];
  contexts = [];
  discovery_readers = 0;
  stop_deadlines = [];
}

abbrev pub running_scene : State
running_scene = with_jobs (scene ∷ probe ∷ [])

abbrev pub paused_scene : State
paused_scene = with_jobs (record scene { state = paused } ∷ probe ∷ [])
