-- ===== src/Scheduler/Worker/Laws.antt =====
-- What the replies to a worker mean: `worker.authorize`, `worker.release_device_ack`, and the pair
-- `worker.checkpoint` and `worker.resumed`.
use android_workbench.Prelude.{
  String, Option, none, some, Bool, true, false, ◌&&◌, ◌||◌, not, List, All, Any, All-map, keep,
  keep-All, keep-has, starts_with, ◌==◌, ◌≡◌, refl, sym, inl, inr, Bool-cases, Option-cases, arith,
  subst,
}
use android_workbench.Resource.{Resource}
use android_workbench.Scheduler.Model.{
  Job, Env, State, Checkpoint, is_active, is_paused, is_needs_recovery, is_running, running, paused,
}
use android_workbench.Scheduler.Store.{
  ok, Action, pure, ◌>>=◌, ◌>>◌, find_job, job_of, update, event, update_first,
}
use android_workbench.Scheduler.Available.{is_some}
use android_workbench.Scheduler.Ends.{find_job-id}
use android_workbench.Scheduler.Rows.{find-update_first}
use android_workbench.Scheduler.Worker.{
  Reply, authorized, authorized_now, scene_is_paused, release_device_ack, checkpoint, resumed,
  seeks, is_resumed, worker_request, serve, holds_grant, held_by_device, release_device,
  acknowledge, release_phase, releasable, pause_at, resume, registered, paused_row, resumed_row,
}

-- The scene from which a task is borrowed, if there is one, is in the table and paused.
abbrev pub ScenePaused : Option String → List Job → Type 0
ScenePaused none js = Unit
ScenePaused (some id) js =
    (scene : Job) × (find_job id js ≡ some scene) × (is_paused scene.state ≡ true)

-- The task may act on its phone: it is active, neither paused nor broken nor cancelled, and the
-- scene that it is inserted in is paused.
pub record MayAct (job : Job) (js : List Job) : Type 0 where
  pub active : is_active job.state ≡ true
  pub current : (is_paused job.state || is_needs_recovery job.state) ≡ false
  pub wanted : job.cancel ≡ false
  pub scene : ScenePaused job.parent js

scene_lem :
    (o : Option String) (reply later : Reply) (s : State)
    → ((scene_is_paused o >> pure later) s).0 ≡ ok reply
    → ScenePaused o s.jobs
unfolding scene_is_paused job_of
scene_lem none reply later s h = tt
scene_lem (some id) reply later s h = elim (Option-cases (find_job id s.jobs)) [
  | inl e ↦ ground (arith, e, h)
  | inr (scene, e) ↦ elim (Bool-cases (is_paused scene.state)) [
    | inl p ↦ (scene, e, p)
    | inr p ↦ let bad = rw (e, p) at h in cc
  ]
]

-- A task that is told to go on, outside a cleanup, may act.
pub authorized_now-MayAct :
    (env : Env) (job : Job) (late release : Bool) (s : State)
    → (authorized_now env false job s).0 ≡ ok (authorized late release)
    → MayAct job s.jobs
unfolding authorized_now
authorized_now-MayAct env job late release s h =
    let stale =
      not (is_active job.state)
      || ((is_paused job.state || is_needs_recovery job.state) && not false) in
    elim (Bool-cases stale) [
      | inl e ↦ let bad = rw e at h in cc
      | inr e ↦ elim (Bool-cases (job.cancel && not false)) [
        | inl c ↦ let bad = rw (e, c) at h in cc
        | inr c ↦ record {
          active = ground arith;
          current = ground arith;
          wanted = ground arith;
          scene = scene_lem job.parent _ _ s (rw (e, c) at h);
        }
      ]
    ]

-- What a request says of the row that it was made for.
abbrev pub RowAfter : (Job → Type 0) → String → List Job → Type 0
RowAfter P id js = (row : Job) × (find_job id js ≡ some row) × P row

served_found :
    {A : Type 0} (P : Job → Type 0) (id : String) (k : Job → Action A) (a : A) (s : State)
    → ((job : Job)
        → find_job id s.jobs ≡ some job
        → (k job s).0 ≡ ok a
        → RowAfter P id (k job s).1.jobs)
    → ((job_of id >>= k) s).0 ≡ ok a
    → RowAfter P id ((job_of id >>= k) s).1.jobs
unfolding job_of
served_found P id k a s f h = elim (Option-cases (find_job id s.jobs)) [
  | inl e ↦ let bad = rw e at h in cc
  | inr (job, e) ↦ rw e (f job e (rw e at h))
]

-- The key is neither that of a phone nor that of the adb service.
abbrev pub KeptKey : String → Type 0
KeptKey key = (starts_with key "device:" ≡ false) × ((key == "service:adb") ≡ false)

-- The row has left the phone: it holds no phone and not the adb service, and all else that was held
-- before.
pub record OffDevice (before : List Resource) (row : Job) : Type 0 where
  pub released : All (λ (r : Resource). KeptKey r.key) row.spec.resources
  pub others : All (λ (r : Resource). KeptKey r.key → Any (λ x. x ≡ r) row.spec.resources) before

kept_key : (r : Resource) → not (held_by_device r) ≡ true → KeptKey r.key
kept_key r h = (ground (arith, h), ground (arith, h))

is_kept : (r : Resource) → KeptKey r.key → not (held_by_device r) ≡ true
is_kept r h = ground (arith, h.0, h.1)

release_device-OffDevice :
    (env : Env) (job : Job)
    → OffDevice job.spec.resources (record (release_device job) { updated = env.now })
release_device-OffDevice env job =
    let others = λ (r : Resource). not (held_by_device r) in
    let rs = job.spec.resources in
    record {
      released = All-map kept_key (keep others rs) (keep-All others rs);
      others = All-map (λ r has k. has (is_kept r k)) rs (keep-has others rs);
    }

acknowledge-OffDevice :
    (env : Env) (id : String) (job : Job) (s : State) (reply : Reply)
    → find_job id s.jobs ≡ some job
    → job.id ≡ id
    → (release_phase job (acknowledge env job) s).0 ≡ ok reply
    → RowAfter (OffDevice job.spec.resources) id (release_phase job (acknowledge env job) s).1.jobs
unfolding release_phase acknowledge update event
acknowledge-OffDevice env id job s reply f i h = elim (Bool-cases (releasable job)) [
  | inr e ↦ let bad = rw e at h in cc
  | inl e ↦ elim (Bool-cases job.spec.release_device_requested) [
    | inr r ↦ let bad = rw (e, r) at h in cc
    | inl r ↦
        rw (e, r, i)
          (
            record (release_device job) { updated = env.now },
            find-update_first id (λ j. record (release_device j) { updated = env.now }) job s.jobs
                (λ j. refl) f,
            release_device-OffDevice env job,
          )
  ]
]

-- When the release of the phone is acknowledged, the task's row holds no phone and not the adb service,
-- and it still holds every other resource that it held.
pub worker_request-OffDevice :
    (env : Env) (id token : String) (s : State) (job : Job) (reply : Reply)
    → find_job id s.jobs ≡ some job
    → (worker_request env release_device_ack id token s).0 ≡ ok reply
    → RowAfter
        (OffDevice job.spec.resources)
        id
        (worker_request env release_device_ack id token s).1.jobs
unfolding worker_request serve job_of
worker_request-OffDevice env id token s job reply f h =
    let h' = rw f at h in
    elim (Bool-cases (holds_grant env token job)) [
      | inl e ↦
          rw (f, e)
            (acknowledge-OffDevice env id job s reply f (find_job-id id job s.jobs f) (rw e at h'))
      | inr e ↦ let bad = rw e at h' in cc
    ]

abbrev paused_at : Env → Job → Job
paused_at env job = record (paused_row job) { updated = env.now }

pause_at_lem :
    (env : Env) (cp : Checkpoint) (job k : Job) (s : State)
    → find_job job.id s.jobs ≡ some job
    → (pause_at env job cp s).0 ≡ ok (seeks k)
    → find_job job.id (pause_at env job cp s).1.jobs ≡ some (paused_at env job)
unfolding pause_at update event
pause_at_lem env cp job k s f h =
    elim (Bool-cases (not (is_running job.state) || job.cancel || is_some job.parent)) [
      | inl e ↦ let bad = rw e at h in cc
      | inr e ↦ elim (Bool-cases (registered cp job)) [
        | inl r ↦ rw (e, r) (find-update_first job.id (paused_at env) job s.jobs (λ j. refl) f)
        | inr r ↦ let bad = rw (e, r) at h in cc
      ]
    ]

-- The row is paused, and the token is still its own.
abbrev AwaitsResume : Env → String → Job → Type 0
AwaitsResume env token row = (holds_grant env token row ≡ true) × (row.state ≡ paused)

checkpoint-AwaitsResume :
    (env : Env) (cp : Checkpoint) (id token : String) (s : State) (k : Job)
    → (worker_request env (checkpoint cp) id token s).0 ≡ ok (seeks k)
    → RowAfter (AwaitsResume env token) id (worker_request env (checkpoint cp) id token s).1.jobs
unfolding worker_request serve
checkpoint-AwaitsResume env cp id token s k =
    served_found (AwaitsResume env token) id _ (seeks k) s λ job f h.
      elim (Bool-cases (holds_grant env token job)) [
        | inl e ↦
            let i = find_job-id id job s.jobs f in
            let here = subst (λ x. find_job x s.jobs ≡ some job) (sym i) f in
            let row = pause_at_lem env cp job k s here (rw e at h) in
            let there =
              subst (λ x. find_job x (pause_at env job cp s).1.jobs ≡ some (paused_at env job)) i
                row in
            rw e (paused_at env job, there, (e, refl))
        | inr e ↦ let bad = rw e at h in cc
      ]

abbrev resumed_at : Env → Job → Job
resumed_at env job = record (resumed_row job) { updated = env.now }

-- A paused task whose worker resumes it with its token runs again.
resumed_lem :
    (env : Env) (id token : String) (s : State) (row : Job)
    → find_job id s.jobs ≡ some row
    → AwaitsResume env token row
    → ((worker_request env resumed id token s).0 ≡ ok is_resumed)
      × RowAfter (λ j. j.state ≡ running) id (worker_request env resumed id token s).1.jobs
unfolding worker_request serve resume update event job_of
resumed_lem env id token s row f w =
    let p : is_paused row.state ≡ true = rw w.1 refl in
    let i = find_job-id id row s.jobs f in
    let row_is = find-update_first id (resumed_at env) row s.jobs (λ j. refl) f in
    let there =
      subst (λ x. find_job id (update_first x (resumed_at env) s.jobs) ≡ some (resumed_at env row))
        (sym i) row_is in
    rw (f, w.0, p) (refl, (resumed_at env row, there, refl))

-- A checkpoint that pauses a task can be undone: if the worker then resumes it with the same token,
-- at any later time at which nothing else has changed, it is told so and the task runs again.
pub checkpoint-resumed :
    (env later : Env) (cp : Checkpoint) (id token : String) (s : State) (k : Job)
    → later.digest ≡ env.digest
    → (worker_request env (checkpoint cp) id token s).0 ≡ ok (seeks k)
    → ((worker_request later resumed id token (worker_request env (checkpoint cp) id token s).1).0
        ≡ ok is_resumed)
      × RowAfter
          (λ j. j.state ≡ running)
          id
          (worker_request later resumed id token
            (worker_request env (checkpoint cp) id token s).1).1.jobs
checkpoint-resumed env later cp id token s k d h =
    let (row, f, w) = checkpoint-AwaitsResume env cp id token s k h in
    resumed_lem later id token (worker_request env (checkpoint cp) id token s).1 row f
      (rw d w.0, w.1)
