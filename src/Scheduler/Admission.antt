-- ===== src/Scheduler/Admission.antt =====
-- workbench/service.py: `submit` (1192-1311) from the second time that it takes the lock, with the
-- normalized request. The scope of a repair, which `prepare_recovery` freezes in the request, is part
-- of the request here; the attempt to start a task at once is in Scheduler/Submit.
pub mod Sound
pub mod Reads
pub mod Again
use android_workbench.Prelude.{
  ℕ, String, Option, none, some, Bool, ◌&&◌, first, keep, count, length, leb, opt_eq, true, false,
  ◌||◌, List, [], ◌∷◌, ◌++◌, any, concat, ◌==◌, if◌then◌else◌,
}
use android_workbench.Resource.{overlap}
use android_workbench.Scheduler.Model.{queued, is_queued, Dependency, Config, Spec, Job, Env, State}
use android_workbench.Scheduler.Store.{
  Action, pure, raise, ◌>>=◌, ◌>>◌, gets, modify, transaction, event, job_of,
}
use android_workbench.Scheduler.Choice.{older, insert_by}

-- The identity of the session, and its project.
pub record Session : Type 0 where
  pub token : String
  pub project : String

-- The key that the client gave its request, and the digest of the whole request.
pub record Asked : Type 0 where
  pub key : String
  pub hash : String

-- The row of an earlier request under the key.
abbrev pub is_earlier : Session → String → Job → Bool
is_earlier session key j =
    j.owner == session.token && j.project == session.project && j.request_key == key

abbrev answer_earlier : String → Option Job → Action (Option String)
answer_earlier hash none = pure none
answer_earlier hash (some j) =
    if j.request_hash == hash
    then pure (some j.id)
    else raise "Idempotency key conflicts with a different request"

-- The same request under the same key is answered with the task that it made (1201-1210, 1232-1241).
unfoldable pub earlier : Session → Asked → Action (Option String)
earlier session asked s = answer_earlier asked.hash (first (is_earlier session asked.key) s.jobs) s

unfoldable pub check_capacity : Config → Session → Action (Unit {0})
check_capacity config session = do
  all ← gets (λ s. s.jobs)
  let queued_jobs = keep (λ (j : Job). is_queued j.state) all
  if leb config.max_queued (length queued_jobs)
        || leb config.max_session_queued (count (λ (j : Job). j.owner == session.token) queued_jobs)
      then raise "Queue capacity exceeded"
      else pure tt

-- `shared`
unfoldable pub shared : Session → String → Action Job
shared session id = do
  job ← job_of id
  if job.project == session.project then pure job else raise "Task belongs to a different project"

unfoldable pub check_dependencies : Session → List Dependency → Action (Unit {0})
check_dependencies session [] = pure tt
check_dependencies session (d ∷ ds) =
    shared session d.upstream >>= λ _. check_dependencies session ds

unfoldable pub check_scene : Session → Option String → Option String → Action (Unit {0})
check_scene session none device = pure tt
check_scene session (some id) device = do
  scene ← shared session id
  if opt_eq scene.spec.device device then pure tt else raise "Scene and observation device differ"

-- The output lies in one that another task has reserved, or the other way round.
abbrev pub reserved : List (String × String) → String → Bool
reserved rows output = any (λ r. overlap (concat "path:" output) (concat "path:" r.0)) rows

unfoldable pub refuse_reserved : List String → Action (Unit {0})
refuse_reserved [] = pure tt
refuse_reserved (output ∷ rest) = do
  rows ← gets (λ s. s.outputs)
  if reserved rows output
      then raise "Output already reserved by another task"
      else refuse_reserved rest

abbrev pub new_row : Env → String → Session → Asked → ℕ → Spec → Job
new_row env id session asked priority spec = record {
  id = id;
  owner = session.token;
  project = session.project;
  request_key = asked.key;
  request_hash = asked.hash;
  state = queued;
  spec = spec;
  created = env.now;
  updated = env.now;
  started = none;
  finished = none;
  priority = priority;
  revision = 1;
  generation = none;
  cancel = false;
  parent = none;
  reason = none;
  result = none;
  worker = none;
}

-- The row breaks the primary key or UNIQUE(owner, project, request_key).
abbrev pub collides : Job → Job → Bool
collides row j =
    j.id == row.id
    || (j.owner == row.owner && j.project == row.project && j.request_key == row.request_key)

-- INSERT INTO jobs
unfoldable pub insert_job : Job → Action (Unit {0})
insert_job row = do
  all ← gets (λ s. s.jobs)
  if any (collides row) all
      then raise "UNIQUE constraint failed: jobs"
      else modify (λ s. record s { jobs = insert_by older row s.jobs })

abbrev pub taken : List (String × String) → String → Bool
taken rows output = any (λ r. r.0 == output) rows

abbrev pub with_output : String → String → State → State
with_output id output s = record s { outputs = s.outputs ++ (output, id) ∷ [] }

-- INSERT INTO outputs, one by one, under the primary key.
unfoldable pub insert_outputs : String → List String → Action (Unit {0})
insert_outputs id [] = pure tt
insert_outputs id (output ∷ rest) = do
  rows ← gets (λ s. s.outputs)
  if taken rows output
      then raise "UNIQUE constraint failed: outputs.path"
      else (modify (with_output id output) >> insert_outputs id rest)

unfoldable pub admit : Env → String → Session → Asked → ℕ → Spec → Action (Unit {0})
admit env id session asked priority spec =
    refuse_reserved spec.outputs
    >> transaction (
        insert_job (new_row env id session asked priority spec)
        >> insert_outputs id spec.outputs
        >> event env id "accepted" (("operation", spec.operation) ∷ []))

unfoldable pub admit_new :
    Env → Config → String → Session → Asked → ℕ → Spec → Option String → Action String
admit_new env config id session asked priority spec (some known) = pure known
admit_new env config id session asked priority spec none =
    check_capacity config session
    >> check_dependencies session spec.dependencies
    >> check_scene session spec.scene spec.device
    >> admit env id session asked priority spec
    >> pure id

-- From the second time that the lock is taken on; the answer is the id of the task.
unfoldable pub submit_prepared : Env → Config → String → Session → Asked → ℕ → Spec → Action String
submit_prepared env config id session asked priority spec =
    earlier session asked >>= admit_new env config id session asked priority spec
