-- ===== src/Scheduler/Control/Frame.antt =====
-- A request of a task's owner leaves the table of tasks no stronger.
use android_workbench.Prelude.{ℕ, String, not, ◌&&◌, leb, refl, ◌==◌}
use android_workbench.Scheduler.Model.{Job, Env, is_terminal, is_running, is_queued}
use android_workbench.Scheduler.Grows.{Grows-refl}
use android_workbench.Scheduler.Store.{Action}
use android_workbench.Scheduler.Frame.{
  Weaker, Weaker-same, Frame, Frame-pure, Frame-raise, Frame->>=, Frame->>, Frame-if, Frame-job_of,
  Frame-update, Frame-event,
}
use android_workbench.Scheduler.Finish.Frame.{Frame-finish}
use android_workbench.Scheduler.Available.{is_lease}
use android_workbench.Scheduler.Control.{
  own, cancel_owned, cancel_job, prioritize_owned, set_priority, drained_row, cancelled_row,
  reprioritized, max_priority,
}

Weaker-drained : (j : Job) → Weaker j (drained_row j)
Weaker-drained j = record {
  same_id = refl;
  same_parent = refl;
  same_operation = refl;
  same_compute = refl;
  same_recovery = refl;
  same_targets = refl;
  lease_grows = Grows-refl _;
  still_active = λ h. h;
  still_occupies = λ h. h;
  still_broken = λ a h. h;
  fewer_resources = λ rs h. h;
}

Frame-own :
    {A : Type 0} (session id : String) {k : Job → Action A}
    → ((job : Job) → Frame (k job))
    → Frame (own session id k)
unfolding own
Frame-own session id h =
    Frame->>= (Frame-job_of id) (λ job. Frame-if (job.owner == session) (h job) (Frame-raise _))

Frame-cancel_owned : (env : Env) (job : Job) → Frame (cancel_owned env job)
unfolding cancel_owned
Frame-cancel_owned env job = Frame-if (is_terminal job.state) (Frame-pure tt) (
    Frame-if (is_lease job && is_running job.state)
      (Frame-update env job.id drained_row Weaker-drained)
      (Frame-if (is_queued job.state) (Frame-finish env job _) (
        Frame->>
          (Frame-update env job.id (cancelled_row job)
            (λ row. Weaker-same row (cancelled_row job row) refl refl refl refl))
          (Frame-event env job.id _ _))))

Frame-prioritize_owned :
    (env : Env) (value : ℕ) (job : Job) → Frame (prioritize_owned env value job)
unfolding prioritize_owned
Frame-prioritize_owned env value job = Frame-if (not (is_queued job.state)) (Frame-raise _) (
    Frame-if (not (leb value max_priority)) (Frame-raise _) (
      Frame-update env job.id (reprioritized job value)
        (λ row. Weaker-same row (reprioritized job value row) refl refl refl refl)))

pub Frame-cancel_job : (env : Env) (session id : String) → Frame (cancel_job env session id)
unfolding cancel_job
Frame-cancel_job env session id = Frame-own session id (Frame-cancel_owned env)

pub Frame-set_priority :
    (env : Env) (session id : String) (value : ℕ) → Frame (set_priority env session id value)
unfolding set_priority
Frame-set_priority env session id value = Frame-own session id (Frame-prioritize_owned env value)
