-- ===== src/Examples/Care.antt =====
-- A death of a worker and a repair in workbench/service.py.
use android_workbench.Prelude.{
  String, Option, none, some, ◌≡◌, true, false, [], ◌∷◌, All, keep, map, concat, refl,
}
use android_workbench.Resource.{conflict, overlap, path_overlap, path_text}
use android_workbench.Scheduler.Model.{needs_recovery, Process, Health, Spec, Job, State}
use android_workbench.Scheduler.Store.{ok, find_job, each, same_process}
use android_workbench.Scheduler.Available.{
  is_some, available, dependencies_ready, dependencies_from, available_now, refusal,
  blocked_by_health, blocked_by_active, blocked_by_capacity, earlier_writer, yields_to,
}
use android_workbench.Scheduler.Exclusion.{Distinct}
use android_workbench.Scheduler.Tick.{
  worker_died, tick, look_at_all, watch, wants_stop, look_at, add_to_lane, submit_lanes,
}
use android_workbench.Scheduler.Tick.Death.{worker_died_lem, after_death, Alone}
use android_workbench.Scheduler.Recovery.{
  Locks, unasked, listed, prepare_recovery, targets_of, check_requested, freeze, Scope, is_faulty,
  adb_lock_recoverable,
}
use android_workbench.Scheduler.Recovery.Targets.{IsOwn, prepare_recovery-IsOwn}
use android_workbench.Scheduler.Finish.{distinct}
use android_workbench.Examples.Data.{
  env, config, plain_spec, waiting_job, queue, reader, patient, urgent, with_jobs,
}

queue-Distinct : Distinct queue.jobs
queue-Distinct = ((refl, (refl, tt)), ((refl, tt), (tt, tt)))

queue-Alone : Alone reader queue.jobs
queue-Alone = ((λ h. refl), ((λ h. refl), ((λ h. refl), tt)))

worker_died_lem_example :
    (worker_died env reader queue).1.jobs ≡ map (after_death env reader) queue.jobs
worker_died_lem_example =
    worker_died_lem env reader queue queue-Distinct queue-Alone (λ child h. refl)

abbrev hex_id : String
hex_id = "0123456789abcdef0123456789abcdef"

abbrev broken_job : Job
broken_job = record (waiting_job hex_id 20 5 plain_spec) {
  state = needs_recovery;
  started = some 30;
}

abbrev repair_spec : Spec
repair_spec = record plain_spec { operation = "device.recover"; recovery = true }

abbrev fault : Health
fault = record {
  key = "device:phone-1";
  status = "needs_recovery";
  source = some hex_id;
  reason = "cleanup";
}

abbrev broken_queue : State
broken_queue = record (with_jobs (broken_job ∷ [])) { resources = fault ∷ [] }

abbrev no_locks : Locks
no_locks = record { adb_exclusive = λ j. false; files = λ j. []; is_adb_server = λ p. false }

abbrev scope : Scope
scope = record {
  recovery_targets = hex_id ∷ [];
  adb_recovery_targets = [];
  recovery_health = fault ∷ [];
}

is_prepared :
    (prepare_recovery env no_locks repair_spec "/work/app" [] (listed (hex_id ∷ [])) broken_queue).0
    ≡ ok (some scope)
unfolding prepare_recovery freeze targets_of check_requested find_job distinct adb_lock_recoverable
    concat
is_prepared = refl

prepare_recovery-IsOwn_example :
    All
      (IsOwn repair_spec "/work/app" [] (keep is_faulty (fault ∷ [])) (broken_job ∷ []))
      (hex_id ∷ [])
prepare_recovery-IsOwn_example =
    prepare_recovery-IsOwn env no_locks repair_spec "/work/app" [] (hex_id ∷ []) broken_queue scope
      is_prepared

finds_it :
    (prepare_recovery env no_locks repair_spec "/work/app" [] unasked broken_queue).0
    ≡ ok (some scope)
unfolding prepare_recovery freeze targets_of adb_lock_recoverable conflict overlap find_job concat
finds_it = refl

both_may_start :
    tick env config [] queue
    ≡ (ok (("device:phone-1", patient ∷ urgent ∷ []) ∷ [], "device:phone-1" ∷ []), queue)
unfolding tick look_at_all watch wants_stop look_at add_to_lane submit_lanes each concat
    same_process available dependencies_ready dependencies_from available_now refusal
    blocked_by_health blocked_by_active conflict overlap path_overlap path_text blocked_by_capacity
    earlier_writer yields_to
both_may_start = refl

lives_or_none : (o : Option Process) → same_process env o ≡ false → is_some o ≡ false
unfolding same_process
lives_or_none none h = refl
lives_or_none (some p) h = cc
