-- ===== src/Examples/Runs.antt =====
-- A run of the service of workbench/service.py from an empty queue.
use android_workbench.Prelude.{[], ◌∷◌, ◌≡◌, refl, arith, false, map}
use android_workbench.Scheduler.Model.{State, failed}
use android_workbench.Scheduler.Exclusion.{Sound, Distinct}
use android_workbench.Scheduler.Store.{
  ok, transaction, event, job_of, find_job, update, update_first,
}
use android_workbench.Scheduler.Available.{
  available, dependencies_ready, dependencies_from, dependency_ready,
}
use android_workbench.Scheduler.Finish.{
  finish, finish_step, finish_settled, block_unconfirmed, publish, settle, record_finish,
  clear_faults,
}
use android_workbench.Scheduler.Choice.{insert_by}
use android_workbench.Scheduler.Admission.Again.{submit_prepared-again}
use android_workbench.Scheduler.Admission.{
  earlier, check_capacity, check_dependencies, check_scene, admit, admit_new, refuse_reserved,
  insert_job, insert_outputs, Session, Asked, submit_prepared,
}
use android_workbench.Scheduler.Submit.{submit_tried, try_now}
use android_workbench.Scheduler.Select.{select}
use android_workbench.Scheduler.Control.{restart}
use android_workbench.Scheduler.Control.Restart.{after_restart, restart_lem}
use android_workbench.Scheduler.Reached.{
  at_start, then_step, by_admission, by_selection, by_restart, Reached-Sound,
}
use android_workbench.Examples.Data.{
  env, config, plain_spec, waiting_job, patient, with_jobs, running_scene,
}

abbrev session : Session
session = record { token = "session-1"; project = "/work/app" }

abbrev asked : Asked
asked = record { key = "first"; hash = "sha256:first" }

empty-Sound : Sound config []
empty-Sound = record {
  distinct = tt;
  exclusive = tt;
  workers = omega arith;
  leases = omega arith;
  compute = omega arith;
}

abbrev admitted : State
admitted = (submit_tried env config "q1" session asked 5 plain_spec false (with_jobs [])).1

abbrev selected : State
selected = (select env config false "device:phone-1" (patient ∷ []) "q1" admitted).1

Reached-Sound_example : Sound config (restart env selected).1.jobs
Reached-Sound_example = Reached-Sound {s = with_jobs []} empty-Sound (
    then_step
      (then_step (then_step at_start (by_admission env "q1" session asked 5 plain_spec false))
        (by_selection env false "device:phone-1" (patient ∷ []) "q1"))
      (by_restart env))

scene-Distinct : Distinct running_scene.jobs
scene-Distinct = ((refl, tt), (tt, tt))

restart_lem_example :
    (restart env running_scene).1.jobs ≡ map (after_restart env) running_scene.jobs
restart_lem_example = restart_lem env running_scene scene-Distinct

is_accepted :
    (submit_prepared env config "q1" session asked 5 plain_spec (with_jobs [])).0 ≡ ok "q1"
unfolding submit_prepared earlier admit_new check_capacity check_dependencies check_scene admit
    refuse_reserved insert_job insert_outputs transaction event insert_by
is_accepted = refl

submit_prepared-again_example :
    submit_prepared env config "q7" session asked 5 plain_spec
      (submit_prepared env config "q1" session asked 5 plain_spec (with_jobs [])).1
    ≡ (ok "q1", (submit_prepared env config "q1" session asked 5 plain_spec (with_jobs [])).1)
submit_prepared-again_example =
    submit_prepared-again env env config config "q1" "q7" "q1" session asked 5 5 plain_spec
      plain_spec (with_jobs []) is_accepted

-- A task that is to start at once and whose dependency has failed is finished twice: the second reason
-- replaces the first.
abbrev hopeless : State
hopeless = with_jobs (
    record (waiting_job "d1" 10 5 plain_spec) { state = failed }
    ∷ waiting_job "q1" 20 5 (record plain_spec {
      dependencies = record { upstream = "d1"; accept_partial = false } ∷ [];
    })
    ∷ [])

finished_twice :
    map (λ e. e.kind) (try_now env config "q1" hopeless).1.events ≡ "finished" ∷ "finished" ∷ []
unfolding try_now job_of find_job available dependencies_ready dependencies_from dependency_ready
    finish finish_step finish_settled block_unconfirmed publish settle record_finish transaction
    clear_faults update update_first event
finished_twice = refl
