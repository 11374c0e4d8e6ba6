-- ===== src/Scheduler/Worker/Frame.antt =====
-- A worker's request leaves the table of tasks no stronger.
use android_workbench.Prelude.{
  String, Option, none, some, Bool, true, not, ◌||◌, [], inl, inr, Bool-cases, ◌≡◌, refl, arith,
}
use android_workbench.Resource.{Resource}
use android_workbench.Resource.Laws.{conflict-keep}
use android_workbench.Scheduler.Model.{
  Job, Env, Config, State, Process, Checkpoint, Outcome, Observation, is_running, is_paused,
  JobState, running, paused, queued, verifying, cleaning, needs_recovery, succeeded, partial,
  failed, cancelled, expired,
}
use android_workbench.Scheduler.Grows.{Grows-refl}
use android_workbench.Scheduler.Store.{Action, pure, ◌>>◌, update, event}
use android_workbench.Scheduler.Frame.{
  Weaker, Shrinks, Weaker-same, Shrinks-refl, Frame, Frame-pure, Frame-raise, Frame->>=, Frame->>,
  Frame-if, Frame-job_of, Frame-update, Frame-event, Frame-modify,
}
use android_workbench.Scheduler.Rows.{job_of-Shrinks, Shrinks-update}
use android_workbench.Scheduler.Store.{find_job}
use android_workbench.Scheduler.Finish.Frame.{Frame-finish}
use android_workbench.Scheduler.Exclusion.{Sound, Sound-Shrinks}
use android_workbench.Scheduler.Available.{is_some}
use android_workbench.Scheduler.Worker.{
  Request, Reply, holds_grant, serve, worker_request, release_device, request_release,
  held_by_device, acknowledge, seeks, is_resumed, registered, scene_is_paused, authorized_now,
  observed, pause_at, resume, become_ready, finish_borrowed, release_phase, paused_row, resumed_row,
  finished, release_device_request, release_device_state, release_device_ack, ready, report,
  authorize, observe, checkpoint, resumed,
}

Weaker-request_release : (j : Job) → Weaker j (request_release j)
Weaker-request_release j = record {
  same_id = refl;
  same_parent = refl;
  same_operation = refl;
  same_compute = refl;
  same_recovery = refl;
  same_targets = refl;
  lease_grows = Grows-refl _;
  still_active = λ h. h;
  still_occupies = λ h. h;
  still_broken = λ a h. h;
  fewer_resources = λ rs h. h;
}

Weaker-release_device : (j : Job) → Weaker j (release_device j)
Weaker-release_device j = record {
  same_id = refl;
  same_parent = refl;
  same_operation = refl;
  same_compute = refl;
  same_recovery = refl;
  same_targets = refl;
  lease_grows = Grows-refl _;
  still_active = λ h. h;
  still_occupies = λ h. h;
  still_broken = λ a h. h;
  fewer_resources =
      λ rs h. conflict-keep (λ (r : Resource). not (held_by_device r)) j.spec.resources rs h;
}

-- What a running or a paused state is and is not.
running_is : (st : JobState) → is_running st ≡ true → st ≡ running
running_is running h = refl
running_is queued h = cc
running_is paused h = cc
running_is verifying h = cc
running_is cleaning h = cc
running_is needs_recovery h = cc
running_is succeeded h = cc
running_is partial h = cc
running_is failed h = cc
running_is cancelled h = cc
running_is expired h = cc

paused_is : (st : JobState) → is_paused st ≡ true → st ≡ paused
paused_is paused h = refl
paused_is running h = cc
paused_is queued h = cc
paused_is verifying h = cc
paused_is cleaning h = cc
paused_is needs_recovery h = cc
paused_is succeeded h = cc
paused_is partial h = cc
paused_is failed h = cc
paused_is cancelled h = cc
paused_is expired h = cc

-- A running or paused task stays active when it changes between the two.
Weaker-paused : (j : Job) → is_running j.state ≡ true → Weaker j (paused_row j)
Weaker-paused j r = record {
  same_id = refl;
  same_parent = refl;
  same_operation = refl;
  same_compute = refl;
  same_recovery = refl;
  same_targets = refl;
  lease_grows = Grows-refl _;
  still_active = λ h. rw (running_is j.state r);
  still_occupies = λ h. rw (running_is j.state r);
  still_broken = λ a h. rw (running_is j.state r) at h;
  fewer_resources = λ rs h. h;
}

Weaker-resumed : (j : Job) → is_paused j.state ≡ true → Weaker j (resumed_row j)
Weaker-resumed j r = record {
  same_id = refl;
  same_parent = refl;
  same_operation = refl;
  same_compute = refl;
  same_recovery = refl;
  same_targets = refl;
  lease_grows = Grows-refl _;
  still_active = λ h. rw (paused_is j.state r);
  still_occupies = λ h. rw (paused_is j.state r);
  still_broken = λ a h. rw (paused_is j.state r) at h;
  fewer_resources = λ rs h. h;
}

-- The action changes no row.
module _ (env : Env) (job : Job) where
  Frame-scene_is_paused : (o : Option String) → Frame (scene_is_paused o)
  unfolding scene_is_paused
  Frame-scene_is_paused none = Frame-pure tt
  Frame-scene_is_paused (some id) =
      Frame->>= (Frame-job_of id)
        (λ scene. Frame-if (is_paused scene.state) (Frame-pure tt) (Frame-raise _))

  Frame-authorized_now : (cleanup : Bool) → Frame (authorized_now env cleanup job)
  unfolding authorized_now
  Frame-authorized_now cleanup =
      Frame-if _ (Frame-raise _)
        (Frame-if _ (Frame-pure _) (Frame->> (Frame-scene_is_paused job.parent) (Frame-pure _)))

  Frame-observed : (o : Observation) → Frame (observed env job o)
  unfolding observed
  Frame-observed o =
      Frame-if _
        (Frame->>
          (Frame->> (Frame-modify _ (λ s. Shrinks-refl s.jobs)) (Frame-event env job.id _ _))
          (Frame-pure _))
        (Frame-raise _)

  Frame-acknowledge : Frame (acknowledge env job)
  unfolding acknowledge
  Frame-acknowledge =
      Frame-if _
        (Frame->>
          (Frame->> (Frame-update env job.id release_device Weaker-release_device)
            (Frame-event env job.id _ _))
          (Frame-pure _))
        (Frame-raise _)

  Frame-become_ready : (o : Option Process) → Frame (become_ready env job o)
  unfolding become_ready
  Frame-become_ready none = Frame-raise _
  Frame-become_ready (some identity) =
      Frame->>
        (Frame-update env job.id (λ row. record row { worker = some identity })
          (λ row. Weaker-same row (record row { worker = some identity }) refl refl refl refl))
        (Frame-pure _)

  Frame-finish_borrowed : (result : Outcome) → Frame (finish_borrowed env job result)
  unfolding finish_borrowed
  Frame-finish_borrowed result =
      Frame->> (Frame-if _ (Frame-finish env job result) (Frame-pure tt)) (Frame-pure _)

  Frame-release_phase : {m : Action Reply} → Frame m → Frame (release_phase job m)
  unfolding release_phase
  Frame-release_phase h = Frame-if _ h (Frame-raise _)

  module _ (s : State) (read : find_job job.id s.jobs ≡ some job) where
    pause_at-Shrinks : (cp : Checkpoint) → Shrinks s.jobs (pause_at env job cp s).1.jobs
    unfolding pause_at update event
    pause_at-Shrinks cp =
        elim (Bool-cases (not (is_running job.state) || job.cancel || is_some job.parent)) [
          | inl e ↦ rw e (Shrinks-refl s.jobs)
          | inr e ↦ elim (Bool-cases (registered cp job)) [
            | inl r ↦
                rw (e, r)
                  (Shrinks-update env paused_row
                    (event env job.id "checkpoint" [] >> pure (seeks job)) job s read
                    (Weaker-paused job (ground arith))
                    (Frame->> (Frame-event env job.id _ _) (Frame-pure _)))
            | inr r ↦ rw (e, r) (Shrinks-refl s.jobs)
          ]
        ]

    resume-Shrinks : Shrinks s.jobs (resume env job s).1.jobs
    unfolding resume update event
    resume-Shrinks = elim (Bool-cases (is_paused job.state)) [
      | inl e ↦ rw e (
          Shrinks-update env resumed_row (event env job.id "resumed" [] >> pure is_resumed) job s
            read (Weaker-resumed job e) (Frame->> (Frame-event env job.id _ _) (Frame-pure _)))
      | inr e ↦ rw e (Shrinks-refl s.jobs)
    ]

    serve-Shrinks : (request : Request) → Shrinks s.jobs (serve env request job s).1.jobs
    unfolding serve
    serve-Shrinks (finished result) = (Frame-finish_borrowed result).at s
    serve-Shrinks release_device_request =
        (Frame-release_phase (
            Frame->> (Frame-update env job.id request_release Weaker-request_release)
              (Frame-pure _))).at
          s
    serve-Shrinks release_device_state = (Frame-release_phase (Frame-pure _)).at s
    serve-Shrinks release_device_ack = (Frame-release_phase Frame-acknowledge).at s
    serve-Shrinks (ready identity) = (Frame-become_ready identity).at s
    serve-Shrinks (report kind detail) =
        (Frame->> (Frame-event env job.id kind detail) (Frame-pure _)).at s
    serve-Shrinks (authorize cleanup) = (Frame-authorized_now cleanup).at s
    serve-Shrinks (observe o) = (Frame-observed o).at s
    serve-Shrinks (checkpoint cp) = pause_at-Shrinks cp
    serve-Shrinks resumed = resume-Shrinks

-- Whatever a worker asks, and with whatever token, the table of tasks is left no stronger: no task
-- becomes active, and no task gains a resource.
pub worker_request-Shrinks :
    (env : Env) (request : Request) (id token : String) (s : State)
    → Shrinks s.jobs (worker_request env request id token s).1.jobs
unfolding worker_request
worker_request-Shrinks env request id token = job_of-Shrinks id _ λ job s read.
    elim (Bool-cases (holds_grant env token job)) [
      | inl e ↦ rw e (serve-Shrinks env job s read request)
      | inr e ↦ rw e (Shrinks-refl s.jobs)
    ]

pub Frame-worker_request :
    (env : Env) (request : Request) (id token : String)
    → Frame (worker_request env request id token)
Frame-worker_request env request id token = record {
  at = worker_request-Shrinks env request id token;
}

-- Whatever a worker asks, and with whatever token, a sound queue stays sound, whether the request is
-- served or refused.
pub worker_request-Sound :
    (env : Env) (config : Config) (request : Request) (id token : String) (s : State)
    → Sound config s.jobs
    → Sound config (worker_request env request id token s).1.jobs
worker_request-Sound env config request id token s h =
    Sound-Shrinks config s.jobs (worker_request env request id token s).1.jobs
      (worker_request-Shrinks env request id token s) h
