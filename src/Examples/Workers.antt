-- ===== src/Examples/Workers.antt =====
-- A scene of workbench/service.py under the requests of its worker.
use android_workbench.Prelude.{some, true, false, List, [], ◌∷◌, ◌≡◌, refl, concat, map}
use android_workbench.Resource.{
  conflict, overlap, path_overlap, path_text, is_relative_to, pure_path, resource,
}
use android_workbench.Scheduler.Model.{Job, JobState, running, paused, State}
use android_workbench.Scheduler.Store.{
  ok, find_job, job_of, update, update_first, event, transaction,
}
use android_workbench.Scheduler.Available.{
  available, dependencies_ready, dependencies_from, available_now, refusal, blocked_by_health,
  blocked_by_active, blocked_by_capacity, earlier_writer, yields_to, lease_limit,
}
use android_workbench.Scheduler.Grant.{grant, begin_grant}
use android_workbench.Scheduler.Worker.{
  released, seeks, is_resumed, authorized, checkpoint, resumed, release_device_ack, worker_request,
  serve, authorized_now,
}
use android_workbench.Scheduler.Worker.Laws.{
  MayAct, authorized_now-MayAct, RowAfter, OffDevice, worker_request-OffDevice, checkpoint-resumed,
}
use android_workbench.Scheduler.Insertion.{insert_chosen, insert_now}
use android_workbench.Examples.Data.{
  env, config, scene, checkpoint_here, running_scene, paused_scene,
}

is_released :
    (worker_request env release_device_ack "s1" "secret" running_scene).0 ≡ ok (released true)
unfolding worker_request serve job_of find_job update event concat
is_released = refl

is_listed : find_job "s1" running_scene.jobs ≡ some scene
unfolding find_job
is_listed = refl

worker_request-OffDevice_example :
    RowAfter
      (OffDevice scene.spec.resources)
      "s1"
      (worker_request env release_device_ack "s1" "secret" running_scene).1.jobs
worker_request-OffDevice_example =
    worker_request-OffDevice env "s1" "secret" running_scene scene (released true) is_listed
      is_released

is_paused_now :
    (worker_request env (checkpoint checkpoint_here) "s1" "secret" running_scene).0
    ≡ ok (seeks scene)
unfolding worker_request serve job_of find_job update event concat
is_paused_now = refl

abbrev after_pause : State
after_pause = (worker_request env (checkpoint checkpoint_here) "s1" "secret" running_scene).1

checkpoint-resumed_example :
    ((worker_request env resumed "s1" "secret" after_pause).0 ≡ ok is_resumed)
    × RowAfter
        (λ j. j.state ≡ running)
        "s1"
        (worker_request env resumed "s1" "secret" after_pause).1.jobs
checkpoint-resumed_example =
    checkpoint-resumed env env checkpoint_here "s1" "secret" running_scene scene refl is_paused_now

may_go_on : (authorized_now env false scene running_scene).0 ≡ ok (authorized false true)
unfolding authorized_now
may_go_on = refl

authorized_now-MayAct_example : MayAct scene running_scene.jobs
authorized_now-MayAct_example = authorized_now-MayAct env scene false true running_scene may_go_on

-- The probe runs in the scene, although both hold the phone.
states_inserted : List JobState
unfolding insert_chosen insert_now job_of find_job available dependencies_ready dependencies_from
    available_now refusal blocked_by_health blocked_by_active conflict overlap path_overlap
    path_text blocked_by_capacity earlier_writer yields_to concat is_relative_to pure_path resource
    lease_limit event begin_grant grant transaction update update_first
states_inserted =
    map (λ (j : Job). j.state) (insert_chosen env config "s1" "p1" 600 10 paused_scene).1.jobs

both_active : states_inserted ≡ paused ∷ running ∷ []
unfolding states_inserted
both_active = refl
