-- ===== src/Leases/Requests.antt =====
-- workbench/service.py: the requests about leases (672-766), from the owner of the task. The file
-- normalized.json, to which each change is copied, is left out; `record_mcp_call`, which keeps a call as
-- files, is an argument: what it returns, if it does not raise, and what it is given.
pub mod Later
pub mod Reads
pub mod Frame
pub mod Released
use android_workbench.Prelude.{
  String, Option, none, some, Bool, true, false, not, ◌&&◌, ◌||◌, List, [], ◌∷◌, any, opt_eq, ◌==◌,
  eqb, if◌then◌else◌,
}
use android_workbench.Resource.{conflict}
use android_workbench.Scheduler.Model.{
  JobState, Lease, Spec, Process, Job, Env, is_queued, is_running,
}
use android_workbench.Scheduler.Store.{
  Result, ok, err, Action, pure, raise, ◌>>=◌, ◌>>◌, gets, job_of, update,
}
use android_workbench.Scheduler.Available.{dependencies_ready, is_lease, is_some}
use android_workbench.Scheduler.Control.{own}
use android_workbench.Leases.Processes.{Proc, process_status, is_alive, same_identity}
use android_workbench.Leases.Descent.{descendants, verify_lease_tree}

-- A call of a tool as it is kept: the digest of the record, the receipt that keeping it gives, and whether
-- its outcome is incomplete.
pub record RecordedCall : Type 0 where
  pub digest : String
  pub receipt : Option String
  pub incomplete : Bool

pub data Request : Type 0 where
  release close state : Request
  track : Option Process → Request
  expect_mcp : String → Request
  record_mcp : RecordedCall → Request

pub data Reply : Type 0 where
  expected tracked : Reply
  receipt : String → Reply
  closed : Bool → Reply
  draining : Bool → JobState → Reply

abbrev pub lift : {A : Type 0} → Result A → Action A
lift r s = (r, s)

abbrev pub with_lease : Lease → Job → Job
with_lease lease row = record row { spec = record row.spec { lease = lease } }

abbrev pub has_mode : String → Job → Bool
has_mode mode job = opt_eq job.spec.lease.mode (some mode)

abbrev pub same_owner : Option Process → Option Process → Bool
same_owner none none = true
same_owner none (some q) = false
same_owner (some p) none = false
same_owner (some p) (some q) = same_identity p q

-- `spec.get("lease_environment", id) == id`
abbrev pub bound_to : String → Option String → Bool
bound_to id none = true
bound_to id (some e) = e == id

-- Both tasks are leases of one owner, and the environment is in use.
pub serves : Job → Job → Bool
serves job environment =
    is_lease environment
    && has_mode "environment" environment
    && is_running environment.state
    && not environment.spec.lease.tree_closed
    && same_owner environment.spec.lease_owner job.spec.lease_owner
    && bound_to environment.id job.spec.lease.environment

open_analysis : Job → Bool
open_analysis job = is_running job.state && has_mode "analysis" job && not job.spec.lease.released

abbrev pub expecting : String → Job → Lease
expecting environment job = record job.spec.lease {
  expected = true;
  environment = some environment;
}

expect : Env → String → String → Job → Action Reply
unfolding open_analysis serves
expect env session environment_id job =
    if not (open_analysis job)
    then raise "MCP call requires a running unreleased analysis lease"
    else own session environment_id λ environment.
      if not (serves job environment)
      then raise "MCP call requires its owner's active environment lease"
      else update env job.id (λ row. with_lease (expecting environment.id job) row) >> pure expected

abbrev pub recorded : RecordedCall → String → Job → Lease
recorded call kept job = record job.spec.lease {
  receipt = some kept;
  record_digest = some call.digest;
  incomplete = call.incomplete;
}

-- The first call of the lease is kept.
keep_call : Env → RecordedCall → Option String → Job → Action Reply
keep_call env call none job = raise "MCP record"
keep_call env call (some kept) job =
    update env job.id (λ row. with_lease (recorded call kept job) row) >> pure (receipt kept)

-- A second one has to be the same.
record_call : Env → RecordedCall → Option String → Job → Action Reply
unfolding keep_call
record_call env call none job = keep_call env call call.receipt job
record_call env call (some kept) job =
    if opt_eq job.spec.lease.record_digest (some call.digest)
    then pure (receipt kept)
    else raise "MCP receipt retry differs from the recorded request"

record_open : Env → RecordedCall → Job → Action Reply
unfolding record_call open_analysis
record_open env call job =
    if not (open_analysis job)
    then raise "MCP recording requires an owned running unreleased analysis lease"
    else record_call env call job.spec.lease.receipt job

-- A call that is expected and has no complete record.
pub unrecorded : Job → Bool
unrecorded job =
    job.spec.lease.expected && (not (is_some job.spec.lease.receipt) || job.spec.lease.incomplete)

-- `self.store.job(spec["lease_environment"])`
pub environment_of : Option String → Action Job
environment_of none = raise "KeyError"
environment_of (some id) = job_of id

-- The environment of such a call has to be closed, and its tree gone.
pub upstream_closed : Proc → Job → Action (Unit {0})
unfolding environment_of
upstream_closed proc job = do
  environment ← environment_of job.spec.lease.environment
  if not environment.spec.lease.tree_closed
      then raise "Incomplete MCP call requires supervised upstream tree closure"
      else lift (verify_lease_tree proc environment.spec)

abbrev pub closed_lease : Bool → Job → Lease
closed_lease releases job = record job.spec.lease {
  tree_closed = true;
  released = releases || job.spec.lease.released;
}

pub close_tree : Env → Proc → Bool → Job → Action Reply
unfolding unrecorded upstream_closed
close_tree env proc releases job = do
  (if unrecorded job then upstream_closed proc job else pure tt)
  (if has_mode "environment" job then lift (verify_lease_tree proc job.spec) else pure tt)
  update env job.id (λ row. with_lease (closed_lease releases job) row)
  pure (closed (releases || job.spec.lease.released))

-- `identity in descendants(...)`
abbrev listed : Process → Result (List Process) → Action Bool
listed p (ok ps) = pure (any (same_identity p) ps)
listed p (err e) = raise e

abbrev alive_below : Proc → Process → Option Process → Action Bool
alive_below proc p none = pure false
alive_below proc p (some owner) =
    if is_alive (process_status proc (some owner))
    then listed p (descendants proc owner.pid true)
    else pure false

abbrev pub tracking : Process → Job → Lease
tracking p job = record job.spec.lease { process = some p }

-- The tracked process is a live leader of its group below the owner.
track_live : Env → Proc → Option Process → Job → Action Reply
track_live env proc none job = raise "Upstream process not alive"
track_live env proc (some p) job =
    if not (is_alive (process_status proc (some p))) then raise "Upstream process not alive" else do
      below ← alive_below proc p job.spec.lease_owner
      if not (below && eqb p.group p.pid)
          then raise "Upstream must be an isolated descendant of the lease owner"
          else update env job.id (λ row. with_lease (tracking p job) row) >> pure tracked

abbrev pub replaces : Option Process → Option Process → Bool
replaces none identity = false
replaces (some p) identity = not (same_owner (some p) identity)

track_tree : Env → Proc → Option Process → Job → Action Reply
unfolding track_live
track_tree env proc identity job =
    if not (has_mode "environment" job)
    then raise "Only an environment lease tracks the upstream process tree"
    else if job.spec.lease.tree_closed
    then raise "Lease process tree is already closed"
    else if not (is_running job.state) || job.spec.lease.released
    then raise "Upstream tracking requires a running unreleased lease"
    else if replaces job.spec.lease.process identity
    then raise "Tracked upstream identity cannot be replaced"
    else track_live env proc identity job

-- A queued task that could start but for the lease's resources. To ask may end a queued task.
unfoldable pub pending : Env → Job → List Job → Action Bool
pending env job [] = pure false
pending env job (x ∷ rest) = do
  ready ← (if is_queued x.state then dependencies_ready env x else pure false)
  if ready && conflict x.spec.resources job.spec.resources then pure true else pending env job rest

lease_state : Env → Bool → Job → Action Reply
lease_state env stopping job = do
  all ← gets (λ s. s.jobs)
  waited_for ← pending env job all
  pure (
      draining (stopping || waited_for || job.spec.drain_requested || not (is_running job.state))
        job.state)

unfoldable pub serve : Env → Proc → Bool → String → Request → Job → Action Reply
unfolding expect record_open close_tree track_tree lease_state
serve env proc stopping session release job = close_tree env proc true job
serve env proc stopping session close job = close_tree env proc false job
serve env proc stopping session state job = lease_state env stopping job
serve env proc stopping session (track identity) job = track_tree env proc identity job
serve env proc stopping session (expect_mcp environment) job = expect env session environment job
serve env proc stopping session (record_mcp call) job = record_open env call job

-- A request under the service's lock; `stopping` is `self.draining`.
unfoldable pub lease_request : Env → Proc → Bool → String → String → Request → Action Reply
lease_request env proc stopping session id request = own session id λ job.
    if is_lease job then serve env proc stopping session request job else raise "Not a lease job"
