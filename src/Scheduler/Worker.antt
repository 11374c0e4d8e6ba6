-- ===== src/Scheduler/Worker.antt =====
-- workbench/service.py: `worker_request` (1775-1939), what a running worker asks of the service, up to
-- the choice of an insertion. The checks of files and of nested entries (1780-1783, 1819-1876) only
-- answer and are left out.
pub mod Frame
pub mod Laws
use android_workbench.Prelude.{
  ℕ, ◌+◌, String, Option, none, some, Bool, true, false, not, ◌&&◌, ◌||◌, List, [], ◌∷◌, any, keep,
  opt_eq, eqb, ltb, ◌==◌, starts_with, if◌then◌else◌,
}
use android_workbench.Resource.{Resource}
use android_workbench.Scheduler.Model.{
  running, paused, Process, Checkpoint, Spec, Outcome, Job, Observation, Env, State, is_active,
  is_running, is_paused, is_needs_recovery,
}
use android_workbench.Scheduler.Store.{
  Action, pure, raise, ◌>>=◌, ◌>>◌, modify, job_of, update, event,
}
use android_workbench.Scheduler.Finish.{finish}
use android_workbench.Scheduler.Available.{is_some}

pub data Request : Type 0 where
  finished : Outcome → Request
  release_device_request release_device_state release_device_ack : Request
  ready : Option Process → Request
  report : String → List (String × String) → Request
  authorize : Bool → Request
  observe : Observation → Request
  checkpoint : Checkpoint → Request
  resumed : Request

pub data Reply : Type 0 where
  accepted is_ready is_resumed no_insert : Reply
  released : Bool → Reply
  cancelled : Reply
  authorized : Bool → Bool → Reply
  -- The task is paused, and an insertion is sought for it.
  seeks : Job → Reply

-- The token is the one that the task's grant carried.
abbrev pub holds_grant : Env → String → Job → Bool
holds_grant env token job = opt_eq job.generation (some (env.digest token))

abbrev pub releasable : Job → Bool
releasable job =
    job.spec.operation == "apk.pull" && not (is_some job.parent) && is_running job.state

abbrev pub held_by_device : Resource → Bool
held_by_device r = starts_with r.key "device:" || r.key == "service:adb"

abbrev pub request_release : Job → Job
request_release row = record row { spec = record row.spec { release_device_requested = true } }

-- The task goes on without the phone.
abbrev pub release_device : Job → Job
release_device row = record row {
  spec = record row.spec {
    device_released = true;
    resources = keep (λ (r : Resource). not (held_by_device r)) row.spec.resources;
  };
}

acknowledge : Env → Job → Action Reply
acknowledge env job =
    if job.spec.release_device_requested
    then update env job.id release_device
      >> event env job.id "device_released" []
      >> pure (released true)
    else raise "No device release requested"

abbrev pub overdue : Env → Job → Bool
overdue env job = elim (job.started) [
  | none ↦ false
  | some t ↦ not (eqb t 0) && ltb (t + job.spec.timeout) env.now
]

-- The execution of a borrowed scene stops when its scene is no longer paused.
scene_is_paused : Option String → Action (Unit {0})
scene_is_paused none = pure tt
scene_is_paused (some id) = do
  scene ← job_of id
  if is_paused scene.state then pure tt else raise "Borrowed scene no longer active"

unfoldable pub authorized_now : Env → Bool → Job → Action Reply
unfolding scene_is_paused
authorized_now env cleanup job =
    if not (is_active job.state)
      || ((is_paused job.state || is_needs_recovery job.state) && not cleanup)
    then raise "Execution is not current"
    else if job.cancel && not cleanup
    then pure cancelled
    else scene_is_paused job.parent
      >> pure (
          authorized (overdue env job && not cleanup)
            (job.spec.release_device_requested && not job.spec.device_released))

abbrev put_context :
    Option String
    → Observation
    → List (Option String × Observation)
    → List (Option String × Observation)
put_context device o [] = (device, o) ∷ []
put_context device o ((d, old) ∷ rest) =
    if opt_eq d device then (device, o) ∷ rest else (d, old) ∷ put_context device o rest

observed : Env → Job → Observation → Action Reply
observed env job o =
    if is_active job.state
    then modify (λ s. record s { contexts = put_context job.spec.device o s.contexts })
      >> event env job.id "observation" []
      >> pure accepted
    else raise "Inactive observation"

abbrev same_texts : List String → List String → Bool
same_texts [] [] = true
same_texts [] (y ∷ ys) = false
same_texts (x ∷ xs) [] = false
same_texts (x ∷ xs) (y ∷ ys) = x == y && same_texts xs ys

abbrev pub registered : Checkpoint → Job → Bool
registered cp job =
    any (λ (c : Checkpoint). eqb c.budget cp.budget && same_texts c.allow cp.allow)
      job.spec.checkpoints

abbrev pub paused_row : Job → Job
paused_row row = record row { state = paused }

abbrev pub resumed_row : Job → Job
resumed_row row = record row { state = running }

pause_at : Env → Job → Checkpoint → Action Reply
pause_at env job cp =
    if not (is_running job.state) || job.cancel || is_some job.parent
    then pure no_insert
    else if registered cp job
    then update env job.id paused_row >> event env job.id "checkpoint" [] >> pure (seeks job)
    else raise "Unregistered checkpoint"

resume : Env → Job → Action Reply
resume env job =
    if is_paused job.state
    then update env job.id resumed_row >> event env job.id "resumed" [] >> pure is_resumed
    else raise "Not paused"

become_ready : Env → Job → Option Process → Action Reply
become_ready env job none = raise "Worker identity not live"
become_ready env job (some identity) =
    update env job.id (λ row. record row { worker = some identity }) >> pure is_ready

-- The result of a top-level task is taken when its worker has left.
finish_borrowed : Env → Job → Outcome → Action Reply
finish_borrowed env job result =
    (if is_some job.parent then finish env job result else pure tt) >> pure accepted

release_phase : Job → Action Reply → Action Reply
release_phase job m = if releasable job then m else raise "Operation has no releasable device phase"

unfoldable pub serve : Env → Request → Job → Action Reply
unfolding acknowledge observed pause_at resume become_ready finish_borrowed release_phase
serve env (finished result) job = finish_borrowed env job result
serve env release_device_request job =
    release_phase job
      (update env job.id request_release >> pure (released job.spec.device_released))
serve env release_device_state job = release_phase job (pure (released job.spec.device_released))
serve env release_device_ack job = release_phase job (acknowledge env job)
serve env (ready identity) job = become_ready env job identity
serve env (report kind detail) job = event env job.id kind detail >> pure accepted
serve env (authorize cleanup) job = authorized_now env cleanup job
serve env (observe o) job = observed env job o
serve env (checkpoint cp) job = pause_at env job cp
serve env resumed job = resume env job

unfoldable pub worker_request : Env → Request → String → String → Action Reply
worker_request env request id token = do
  job ← job_of id
  if holds_grant env token job then serve env request job else raise "Invalid execution token"
