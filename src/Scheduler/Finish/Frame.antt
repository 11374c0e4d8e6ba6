-- ===== src/Scheduler/Finish/Frame.antt =====
-- `finish` leaves no task stronger.
use android_workbench.Prelude.{
  String, Option, none, some, true, List, [], ◌∷◌, ◌++◌, ◌≡◌, refl, ap, arith, Bool-cases, inl, inr,
  ◌&&◌, keep, not,
}
use android_workbench.Resource.{Resource}
use android_workbench.Scheduler.Model.{
  Job, JobState, Outcome, Env, Spec, Artifact, is_terminal, is_active, is_succeeded,
}
use android_workbench.Scheduler.Grows.{Grows-same}
use android_workbench.Scheduler.Store.{Action, Result, ok, err}
use android_workbench.Scheduler.Frame.{
  Frame, Frame-pure, Frame-raise, Frame-gets, Frame-modify, Frame->>=, Frame->>, Frame-if,
  Frame-transaction, Frame-job_of, Frame-update, Frame-event, Frame-health, Weaker, Shrinks-refl,
  occupies,
}
use android_workbench.Scheduler.Finish.{
  Settled, settle, publish, finish, finish_step, finish_settled, finish_repaired, block_unconfirmed,
  confirmed, check_reported, terminal_or_failed, distinct, subset, published, prepare_artifacts,
  block_resources, record_finish, finished_row, clear_faults, reconciled_specs, repaired,
  store_artifacts, same_artifact, reconciled_outcome, stays_blocked,
}

pub ruleset frame_rules = (
  Frame-pure, Frame-raise, Frame-gets, Frame->>=, Frame->>, Frame-if, Frame-transaction,
  Frame-job_of, Frame-event, Frame-health,
)

abbrev IsClosed : Settled → Type 0
IsClosed d = is_terminal d.state ≡ true

terminal_or_failed-closed : (o : Option JobState) → is_terminal (terminal_or_failed o) ≡ true
terminal_or_failed-closed none = refl
terminal_or_failed-closed (some st) = ground arith

check_reported-IsClosed :
    (spec : Spec) (st : JobState) (result : Outcome) (o : Option (List String))
    → is_terminal st ≡ true
    → IsClosed (check_reported spec st result o)
check_reported-IsClosed spec st result none h = refl
check_reported-IsClosed spec st result (some ids) h =
    elim (Bool-cases (distinct ids && subset ids spec.recovery_targets)) [
      | inl e ↦ rw e h
      | inr e ↦ rw e
    ]

-- The state of a settled task is always one of the terminal ones.
settle-IsClosed : (job : Job) (result : Outcome) → IsClosed (settle job result)
unfolding settle
settle-IsClosed job result =
    let st = terminal_or_failed result.state in
    elim (Bool-cases (job.spec.recovery && is_succeeded st && result.cleanup_ok)) [
      | inl e ↦ rw e (
          check_reported-IsClosed job.spec st result result.reconciled_jobs
            (terminal_or_failed-closed result.state))
      | inr e ↦ rw e (terminal_or_failed-closed result.state)
    ]

published-IsClosed :
    (d : Settled) (r : Result (List Artifact)) → IsClosed d → IsClosed (published d r).0
published-IsClosed d (ok records) h = h
published-IsClosed d (err e) h = refl

publish-IsClosed :
    (env : Env) (job : Job) (d : Settled) → IsClosed d → IsClosed (publish env job d).0
unfolding publish
publish-IsClosed env job d h = elim (Bool-cases (is_succeeded d.state)) [
  | inl e ↦ rw e (published-IsClosed d (prepare_artifacts env job job.spec.artifact_outputs) h)
  | inr e ↦ rw e h
]

confirmed-IsClosed : (d : Settled) → IsClosed d → IsClosed (confirmed d)
confirmed-IsClosed d h = elim (Bool-cases d.cleanup) [ inl e ↦ rw e h | inr e ↦ rw e ]

not_active : (st : JobState) → is_terminal st ≡ true → is_active st ≡ true → ⊥
not_active st h k = ground arith

-- A row that is no longer active holds nothing.
pub Weaker-inactive :
    (j k : Job)
    → k.id ≡ j.id
    → k.parent ≡ j.parent
    → k.spec ≡ j.spec
    → (is_active k.state ≡ true → ⊥)
    → Weaker j k
Weaker-inactive j k i p s h = record {
  same_id = i;
  same_parent = p;
  same_operation = ap (λ (x : Spec). x.operation) s;
  same_compute = ap (λ (x : Spec). x.compute) s;
  same_recovery = ap (λ (x : Spec). x.recovery) s;
  same_targets = ap (λ (x : Spec). x.recovery_targets) s;
  lease_grows = Grows-same (ap (λ (x : Spec). x.lease) s);
  still_active = λ a. absurd (h a);
  still_occupies = λ a. absurd (h (ground arith));
  still_broken = λ a _. absurd (h a);
  fewer_resources = λ rs e. rw s e;
}

Weaker-finished_row :
    (env : Env) (d : Settled) (j : Job) → IsClosed d → Weaker j (finished_row env d j)
Weaker-finished_row env d j h =
    Weaker-inactive j (finished_row env d j) refl refl refl (not_active d.state h)

Frame-block_resources : (job : Job) (rs : List Resource) → Frame (block_resources job rs)
unfolding block_resources
Frame-block_resources job [] = Frame-pure tt
Frame-block_resources job (r ∷ rs) =
    Frame->> (Frame-if (stays_blocked job r) (Frame-health _) (Frame-pure tt))
      (Frame-block_resources job rs)

Frame-block_unconfirmed : (job : Job) (d : Settled) → Frame (block_unconfirmed job d)
unfolding block_unconfirmed
Frame-block_unconfirmed job d =
    Frame-if d.cleanup (Frame-pure tt) (Frame-block_resources job job.spec.resources)

Frame-reconciled_specs : (ids : List String) → Frame (reconciled_specs ids)
unfolding reconciled_specs
Frame-reconciled_specs [] = Frame-pure []
Frame-reconciled_specs (id ∷ ids) =
    Frame->>= (Frame-job_of id)
      (λ old. Frame->>= (Frame-reconciled_specs ids) (λ rest. Frame-pure _))

Frame-clear_faults : (job : Job) (d : Settled) → Frame (clear_faults job d)
unfolding clear_faults
Frame-clear_faults job d =
    Frame-if (repaired job d)
      (Frame->>= (Frame-reconciled_specs d.reconciled)
        (λ specs. record { at = λ s. Shrinks-refl s.jobs }))
      (Frame-pure tt)

Frame-store_artifacts : (as' : List Artifact) → Frame (store_artifacts as')
unfolding store_artifacts
Frame-store_artifacts [] = Frame-pure tt
Frame-store_artifacts (a ∷ as') =
    Frame->>
      (Frame-modify
        (λ s. record s { artifacts = keep (λ b. not (same_artifact a b)) s.artifacts ++ a ∷ [] })
        (λ s. Shrinks-refl s.jobs))
      (Frame-store_artifacts as')

Frame-record_finish :
    (env : Env) (job : Job) (d : Settled) (records : List Artifact)
    → IsClosed d
    → Frame (record_finish env job d records)
unfolding record_finish
Frame-record_finish env job d records h = Frame-transaction (
    Frame->> (Frame-clear_faults job d) (
      Frame->> (Frame-update env job.id (finished_row env d) (λ j. Weaker-finished_row env d j h))
        (Frame->> (Frame-store_artifacts records) (Frame-event env job.id _ _))))

module _ (env : Env) (rec : Job → Outcome → Action (Unit {0})) where
  Frame-finish_repaired :
      ((job : Job) (result : Outcome) → Frame (rec job result))
      → (job : Job) (ids : List String) (js : List Job) → Frame (finish_repaired rec job ids js)
  unfolding finish_repaired
  Frame-finish_repaired h job ids [] = Frame-pure tt
  Frame-finish_repaired h job ids (old ∷ rest) =
      Frame->> (Frame-if _ (h old (reconciled_outcome job)) (Frame-pure tt))
        (Frame-finish_repaired h job ids rest)

  Frame-finish_settled :
      ((job : Job) (result : Outcome) → Frame (rec job result))
      → (job : Job) (d : Settled) (records : List Artifact) → IsClosed d
      → Frame (finish_settled env rec job (d, records))
  unfolding finish_settled
  Frame-finish_settled h job d records c =
      Frame->>
        (Frame->> (Frame-block_unconfirmed job d)
          (Frame-record_finish env job (confirmed d) records (confirmed-IsClosed d c)))
        (Frame-if (repaired job (confirmed d))
          (Frame->>= (Frame-gets (λ s. s.jobs))
            (Frame-finish_repaired h job (confirmed d).reconciled))
          (Frame-pure tt))

  Frame-finish_step :
      ((job : Job) (result : Outcome) → Frame (rec job result))
      → (job : Job) (result : Outcome) → Frame (finish_step env rec job result)
  unfolding finish_step
  Frame-finish_step h job result =
      let p = publish env job (settle job result) in
      Frame-if (is_terminal job.state) (Frame-pure tt) (
        Frame-finish_settled h job p.0 p.1
          (publish-IsClosed env job (settle job result) (settle-IsClosed job result)))

pub Frame-finish : (env : Env) (job : Job) (result : Outcome) → Frame (finish env job result)
unfolding finish
Frame-finish env =
    Frame-finish_step env _ (Frame-finish_step env _ (λ job result. Frame-raise "unreachable"))
