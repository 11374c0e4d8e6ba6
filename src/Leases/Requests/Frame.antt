-- ===== src/Leases/Requests/Frame.antt =====
-- A request about a lease, as workbench/service.py serves it: the table of tasks gets no stronger, and no
-- lease loses what it had.
use android_workbench.Prelude.{
  String, Option, none, some, Bool, true, false, not, ◌&&◌, ◌||◌, List, [], ◌∷◌, eqb, ◌==◌, ◌≡◌,
  refl, opt_eq,
}
use android_workbench.Resource.{conflict}
use android_workbench.Scheduler.Model.{Lease, Job, Env, State, Process, is_queued, is_running}
use android_workbench.Scheduler.Store.{pure, ◌>>=◌, job_of, find_job, update}
use android_workbench.Scheduler.Grows.{Grows}
use android_workbench.Scheduler.Frame.{
  Shrinks-refl, Frame, Frame-pure, Frame-gets, Frame->>=, Frame-if,
}
use android_workbench.Scheduler.Rows.{job_of-Shrinks, Shrinks-update}
use android_workbench.Scheduler.Available.{is_lease}
use android_workbench.Scheduler.Available.Frame.{Frame-dependencies_ready}
use android_workbench.Scheduler.Control.{own}
use android_workbench.Leases.Processes.{Proc, process_status, is_alive}
use android_workbench.Leases.Requests.{
  RecordedCall, Request, Reply, with_lease, has_mode, serves, open_analysis, expect, keep_call,
  record_call, record_open, unrecorded, close_tree, track_live, replaces, track_tree, pending,
  lease_state, serve, lease_request, release, close, state, track, expect_mcp, record_mcp,
}
use android_workbench.Leases.Requests.Later.{
  Weaker-with_lease, Grows-tracking, Grows-expecting, Grows-recorded, Grows-closed_lease,
  serves-bound,
}
use android_workbench.Leases.Requests.Reads.{
  Reads-job_of, Local, Local-if, Local-refuse, Local-Reads, Reads-lift, Reads-if,
  Reads-upstream_closed, Reads-alive_below,
}

Frame-pending : (env : Env) (job : Job) (js : List Job) → Frame (pending env job js)
unfolding pending
Frame-pending env job [] = Frame-pure false
Frame-pending env job (x ∷ rest) =
    Frame->>= (Frame-if (is_queued x.state) (Frame-dependencies_ready env x) (Frame-pure false))
      (λ ready.
        Frame-if (ready && conflict x.spec.resources job.spec.resources) (Frame-pure true)
          (Frame-pending env job rest))

Frame-lease_state : (env : Env) (stopping : Bool) (job : Job) → Frame (lease_state env stopping job)
unfolding lease_state
Frame-lease_state env stopping job =
    Frame->>= (Frame-gets _) (λ all. Frame->>= (Frame-pending env job all) (λ b. Frame-pure _))

module _ (env : Env) (proc : Proc) (job : Job) (s : State)
    (read : find_job job.id s.jobs ≡ some job) where
  -- The lease of the row that was read is changed to a later one.
  Local-lease :
      (l : Lease) (reply : Reply)
      → Grows job.spec.lease l
      → Local s (update env job.id (λ row. with_lease l row) >>= λ _. pure reply)
  Local-lease l reply g =
      Shrinks-update env (with_lease l) (pure reply) job s read (Weaker-with_lease job l g)
        (Frame-pure reply)

  Local-expect : (session id : String) → Local s (expect env session id job)
  unfolding expect own
  Local-expect session id =
      Local-if s (not (open_analysis job)) _ _ (λ _. Shrinks-refl s.jobs)
        λ _. Local-Reads s (job_of id) _ (Reads-job_of id) λ environment.
          Local-if s (environment.owner == session) _ _
            (λ _.
              Local-if s (not (serves job environment)) _ _ (λ _. Shrinks-refl s.jobs)
                λ h.
                  Local-lease _ _
                    (Grows-expecting environment.id job (serves-bound job environment h)))
            (λ _. Shrinks-refl s.jobs)

  Local-record_open : (call : RecordedCall) → Local s (record_open env call job)
  unfolding record_open
  Local-record_open call =
      Local-if s (not (open_analysis job)) _ _ (λ _. Shrinks-refl s.jobs)
        λ _. go job.spec.lease.receipt refl
    where
      keeps :
          (o : Option String) → job.spec.lease.receipt ≡ none → Local s (keep_call env call o job)
      keeps none e = Shrinks-refl s.jobs
      keeps (some kept) e = Local-lease _ _ (Grows-recorded call kept job e)

      go : (o : Option String) → job.spec.lease.receipt ≡ o → Local s (record_call env call o job)
      go none e = keeps call.receipt e
      go (some kept) e =
          Local-if s (opt_eq job.spec.lease.record_digest (some call.digest)) _ _
            (λ _. Shrinks-refl s.jobs) (λ _. Shrinks-refl s.jobs)

  Local-close_tree : (releases : Bool) → Local s (close_tree env proc releases job)
  unfolding close_tree
  Local-close_tree releases =
      Local-Reads s _ _ (Reads-if (unrecorded job) (Reads-upstream_closed proc job) (Reads-lift _))
        λ _.
          Local-Reads s _ _ (Reads-if (has_mode "environment" job) (Reads-lift _) (Reads-lift _))
            λ _. Local-lease _ _ (Grows-closed_lease releases job)

  Local-track_tree : (identity : Option Process) → Local s (track_tree env proc identity job)
  unfolding track_tree
  Local-track_tree identity = Local-refuse s (not (has_mode "environment" job)) _ _ λ _.
      Local-refuse s job.spec.lease.tree_closed _ _ λ _.
        Local-refuse s (not (is_running job.state) || job.spec.lease.released) _ _
          λ _. Local-refuse s (replaces job.spec.lease.process identity) _ _ (go identity)
    where
      go :
          (o : Option Process)
          → replaces job.spec.lease.process o ≡ false
          → Local s (track_live env proc o job)
      go none h = Shrinks-refl s.jobs
      go (some p) h = Local-refuse s (not (is_alive (process_status proc (some p)))) _ _ λ _.
          Local-Reads s _ _ (Reads-alive_below proc p job.spec.lease_owner) λ below.
            Local-refuse s (not (below && eqb p.group p.pid)) _ _
              λ _. Local-lease _ _ (Grows-tracking p job h)

  Local-serve :
      (stopping : Bool) (session : String) (request : Request)
      → Local s (serve env proc stopping session request job)
  unfolding serve
  Local-serve stopping session release = Local-close_tree true
  Local-serve stopping session close = Local-close_tree false
  Local-serve stopping session state = (Frame-lease_state env stopping job).at s
  Local-serve stopping session (track identity) = Local-track_tree identity
  Local-serve stopping session (expect_mcp id) = Local-expect session id
  Local-serve stopping session (record_mcp call) = Local-record_open call

-- Whatever is asked about a lease, the table gets no stronger and every lease grows.
pub Frame-lease_request :
    (env : Env) (proc : Proc) (stopping : Bool) (session id : String) (request : Request)
    → Frame (lease_request env proc stopping session id request)
unfolding lease_request own
Frame-lease_request env proc stopping session id request = record {
  at = job_of-Shrinks id _ λ job s read.
      Local-if s (job.owner == session) _ _
        (λ _.
          Local-if s (is_lease job) _ _
            (λ _. Local-serve env proc job s read stopping session request)
            (λ _. Shrinks-refl s.jobs))
        (λ _. Shrinks-refl s.jobs);
}
