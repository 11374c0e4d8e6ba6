-- ===== src/Examples/Repairs.antt =====
-- A repair of workbench/service.py that was queued for one fault and meets another.
use android_workbench.Prelude.{String, some, none, true, [], ◌∷◌, refl}
use android_workbench.Scheduler.Model.{Job, Health, Outcome, State, running, succeeded}
use android_workbench.Scheduler.Finish.{finish, same_row}
use android_workbench.Scheduler.Finish.Blocked.{Blocked, Unrepaired}
use android_workbench.Scheduler.Finish.Faults.{finish-Blocked}
use android_workbench.Examples.Data.{env, plain_spec, waiting_job, with_jobs}

abbrev fault : String → Health
fault reason = record {
  key = "device:phone-1";
  status = "needs_recovery";
  source = none;
  reason = reason;
}

-- The repair froze one fault of the phone.
abbrev repair : Job
repair =
    record (waiting_job "f1" 60 5 (record plain_spec {
      operation = "device.recover";
      recovery = true;
      recovery_health = fault "manual_returned" ∷ [];
    })) { state = running }

abbrev success : Outcome
success = record {
  state = some succeeded;
  cleanup_ok = true;
  reason = none;
  reconciled_jobs = some [];
  recovered_resources = "device:phone-1" ∷ [];
  related = none;
}

-- Since then the phone has got another fault.
abbrev faulty : State
faulty = record (with_jobs (repair ∷ [])) { resources = fault "cleanup_failed" ∷ [] }

new_fault : Unrepaired repair "device:phone-1" faulty.resources
unfolding same_row
new_fault = refl

finish-Blocked_example : Blocked "device:phone-1" (finish env repair success faulty).1.resources
finish-Blocked_example = finish-Blocked "device:phone-1" repair env success faulty new_fault
