-- ===== src/Scheduler/Available/Frame.antt =====
-- Asking whether a task may start leaves no task stronger.
use android_workbench.Prelude.{
  String, Option, none, some, Bool, List, [], ◌∷◌, ◌||◌, not, ◌&&◌, ltb,
}
use android_workbench.Scheduler.Model.{
  Job, Config, Env, Dependency, is_terminal, is_queued, is_needs_recovery,
}
use android_workbench.Scheduler.Store.{Action}
use android_workbench.Scheduler.Frame.{
  Frame, Frame-pure, Frame-gets, Frame->>=, Frame->>, Frame-if, Frame-job_of,
}
use android_workbench.Scheduler.Finish.Frame.{Frame-finish}
use android_workbench.Scheduler.Available.{
  Verdict, legal, dependency_ready, dependencies_from, dependencies_ready, accepted, yields_to,
  verdict_or, earlier_writer, available, available_now, bound_or_now, lease_abandoned,
  bound_elsewhere, refusal,
}

Frame-dependency_ready :
    (env : Env) (job : Job) (d : Dependency) → Frame (dependency_ready env job d)
unfolding dependency_ready
Frame-dependency_ready env job d = Frame->>= (Frame-job_of d.upstream) λ upstream.
    Frame-if (is_terminal upstream.state && not (accepted d upstream.state))
      (Frame->> (Frame-finish env job _) (Frame-pure _)) (Frame-pure _)

Frame-dependencies_from :
    (env : Env) (job : Job) (ds : List Dependency) → Frame (dependencies_from env job ds)
unfolding dependencies_from
Frame-dependencies_from env job [] = Frame-pure _
Frame-dependencies_from env job (d ∷ ds) =
    Frame->>= (Frame-dependency_ready env job d)
      λ ready. Frame-if ready (Frame-dependencies_from env job ds) (Frame-pure _)

pub Frame-dependencies_ready : (env : Env) (job : Job) → Frame (dependencies_ready env job)
unfolding dependencies_ready
Frame-dependencies_ready env job = Frame-dependencies_from env job job.spec.dependencies

Frame-yields_to : (env : Env) (job earlier : Job) → Frame (yields_to env job earlier)
unfolding yields_to
Frame-yields_to env job earlier = Frame-if _ (Frame-pure none) (
    Frame->>= (Frame-dependencies_ready env earlier) λ ready.
      Frame-if (not ready || ltb env.now earlier.spec.not_before) (Frame-pure _) (Frame-pure _))

Frame-verdict_or :
    (o : Option String) {next : Action Verdict} → Frame next → Frame (verdict_or o next)
unfolding verdict_or
Frame-verdict_or none h = h
Frame-verdict_or (some reason) h = Frame-pure _

pub Frame-earlier_writer :
    (env : Env) (job : Job) (js : List Job) → Frame (earlier_writer env job js)
unfolding earlier_writer
Frame-earlier_writer env job [] = Frame-pure legal
Frame-earlier_writer env job (earlier ∷ rest) =
    Frame->>= (Frame-yields_to env job earlier)
      λ found. Frame-verdict_or found (Frame-earlier_writer env job rest)

module _ (env : Env) (config : Config) (parent : Option Job) (fairness : Bool) (job : Job) where
  Frame-available_now : Frame (available_now env config parent fairness job)
  unfolding available_now
  Frame-available_now = Frame->>= (Frame-gets (refusal env config parent job)) λ refused.
      Frame->>= (Frame-gets (λ s. s.jobs)) λ all. Frame-verdict_or refused (
        Frame-if (fairness && not job.spec.recovery) (Frame-earlier_writer env job all)
          (Frame-pure legal))

  Frame-bound_or_now : (o : Option String) → Frame (bound_or_now env config parent fairness job o)
  unfolding bound_or_now
  Frame-bound_or_now none = Frame-available_now
  Frame-bound_or_now (some id) = Frame->>= (Frame-job_of id) λ scene.
      Frame->>
        (Frame-if (is_terminal scene.state || is_needs_recovery scene.state)
          (Frame-finish env job _) (Frame-pure tt))
        (Frame-pure _)

  -- A question never makes a task active.
  pub Frame-available : Frame (available env config parent fairness job)
  unfolding available
  Frame-available =
      Frame->>=
        (Frame-if (job.cancel || not (is_queued job.state)) (Frame-pure _)
          (Frame-dependencies_ready env job))
        λ ready. Frame-if (not ready) (Frame-pure _) (
          Frame-if (lease_abandoned env job) (Frame->> (Frame-finish env job _) (Frame-pure _))
            (Frame-bound_or_now (bound_elsewhere parent job.spec.scene)))
