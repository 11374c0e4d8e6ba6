-- ===== src/Scheduler/Finish/Faults.antt =====
-- Which faults stay in the resources table when a task of workbench/service.py is finished.
use android_workbench.Prelude.{
  String, Option, none, some, Bool, true, false, ◌&&◌, List, [], ◌∷◌, ◌≡◌, refl, if◌then◌else◌,
  Bool-cases, inl, inr, arith, subst, sym, ◌∙◌, Option-cases, contains,
}
use android_workbench.Resource.{Resource}
use android_workbench.Scheduler.Model.{
  Job, Health, Outcome, Spec, Env, State, Artifact, is_terminal, is_needs_recovery, failed,
}
use android_workbench.Scheduler.Store.{
  Result, ok, err, Action, and_then, pure, raise, ◌>>=◌, ◌>>◌, gets, modify, transaction,
  commit_or_rollback, job_of, found, find_job, update, event, health,
}
use android_workbench.Scheduler.Finish.{
  Settled, finish, finish_step, finish_settled, finish_repaired, settle, publish, confirmed,
  repaired, block_unconfirmed, block_resources, stays_blocked, record_finish, finished_row,
  clear_faults, reconcile_rows, reconciled_specs, store_artifacts, reconciled_outcome,
}
use android_workbench.Scheduler.Finish.Blocked.{
  Blocked, Unrepaired, Unrepaired-Blocked, reconcile_rows-Blocked, upsert-Blocked,
}

-- What a finish makes of the result that it gives to a repaired task.
abbrev failure : Job → Settled
failure job = record {
  state = failed;
  cleanup = true;
  result = reconciled_outcome job;
  reconciled = [];
}

settled_failure :
    (env : Env) (job old : Job)
    → publish env old (settle old (reconciled_outcome job)) ≡ (failure job, [])
unfolding publish settle
settled_failure env job old = elim (Bool-cases old.spec.recovery) [
  | inl r ↦ rw r refl
  | inr r ↦ rw r refl
]

no_repair : (b : Bool) → (b && false && true) ≡ false
no_repair b = ground arith

pure_after :
    {A B : Type 0} (r : Result A × State) (f : A → B) → (and_then r (λ a. pure (f a))).1 ≡ r.1
pure_after (ok a, s) f = refl
pure_after (err e, s) f = refl

reads_only : (ids : List String) (s : State) → (reconciled_specs ids s).1 ≡ s
unfolding reconciled_specs job_of
reads_only [] s = refl
reads_only (id ∷ ids) s = elim (Option-cases (find_job id s.jobs)) [
  | inl e ↦ rw e refl
  | inr (old, e) ↦
      rw e (pure_after (reconciled_specs ids s) (λ rest. (id, old.spec) ∷ rest) ∙ reads_only ids s)
]

module _ (k : String) where
  -- The key is blocked after the action, if the rows were as said before it.
  record Leaves {A : Type 0} (before : List Health → Type 0) (m : Action A) : Type 0 where
    at : (s : State) → before s.resources → Blocked k (m s).1.resources

  abbrev Stays : {A : Type 0} → Action A → Type 0
  Stays m = Leaves (Blocked k) m

  module _ {before : List Health → Type 0}
      (weak : (rows : List Health) → before rows → Blocked k rows) where
    Leaves-pure : {A : Type 0} (a : A) → Leaves before (pure a)
    Leaves-pure a = record { at = λ s h. weak s.resources h }

    Leaves-raise : {A : Type 0} (e : String) → Leaves {A = A} before (raise e)
    Leaves-raise e = record { at = λ s h. weak s.resources h }

    Leaves-gets : {A : Type 0} (f : State → A) → Leaves before (gets f)
    Leaves-gets f = record { at = λ s h. weak s.resources h }

    rollback-Blocked :
        {A : Type 0} (s : State) (r : Result A × State)
        → before s.resources
        → Blocked k r.1.resources
        → Blocked k (commit_or_rollback s r).1.resources
    rollback-Blocked s (ok a, t) h b = b
    rollback-Blocked s (err e, t) h b = weak s.resources h

    Leaves-transaction :
        {A : Type 0} {m : Action A} → Leaves before m → Leaves before (transaction m)
    unfolding transaction
    Leaves-transaction {m = m} h = record { at = λ s p. rollback-Blocked s (m s) p (h.at s p) }

    Leaves-job_of : (id : String) → Leaves before (job_of id)
    unfolding job_of
    Leaves-job_of id = record { at = λ s h. go s (find_job id s.jobs) h }
      where
        go : (s : State) (o : Option Job) → before s.resources → Blocked k (found o s).1.resources
        go s none h = weak s.resources h
        go s (some j) h = weak s.resources h

  and_then-Blocked :
      {A B : Type 0} (r : Result A × State) (f : A → Action B)
      → Blocked k r.1.resources
      → ((a : A) → Stays (f a))
      → Blocked k (and_then r f).1.resources
  and_then-Blocked (ok a, s) f h g = (g a).at s h
  and_then-Blocked (err e, s) f h g = h

  Leaves->>= :
      {before : List Health → Type 0} {A B : Type 0} {m : Action A} {f : A → Action B}
      → Leaves before m
      → ((a : A) → Stays (f a))
      → Leaves before (m >>= f)
  Leaves->>= {m = m} {f = f} h g = record { at = λ s p. and_then-Blocked (m s) f (h.at s p) g }

  Leaves->> :
      {before : List Health → Type 0} {B : Type 0} {m : Action (Unit {0})} {n : Action B}
      → Leaves before m
      → Stays n
      → Leaves before (m >> n)
  Leaves->> h g = Leaves->>= h (λ _. g)

  Leaves-if :
      {before : List Health → Type 0} {A : Type 0} (b : Bool) {m n : Action A}
      → Leaves before m
      → Leaves before n
      → Leaves before (if b then m else n)
  Leaves-if true h g = h
  Leaves-if false h g = g

  done : {A : Type 0} (a : A) → Stays (pure a)
  done = Leaves-pure (λ rows h. h)

  Stays-modify :
      (f : State → State)
      → ((s : State) → Blocked k s.resources → Blocked k (f s).resources)
      → Stays (modify f)
  Stays-modify f h = record { at = h }

  Stays-update : (env : Env) (id : String) (f : Job → Job) → Stays (update env id f)
  unfolding update
  Stays-update env id f = record { at = λ s h. h }

  Stays-event :
      (env : Env) (id kind : String) (detail : List (String × String))
      → Stays (event env id kind detail)
  unfolding event
  Stays-event env id kind detail = record { at = λ s h. h }

  Stays-store_artifacts : (records : List Artifact) → Stays (store_artifacts records)
  unfolding store_artifacts
  Stays-store_artifacts [] = done tt
  Stays-store_artifacts (a ∷ rest) =
      Leaves->> (Stays-modify _ (λ s h. h)) (Stays-store_artifacts rest)

  Stays-block_resources : (job : Job) (rs : List Resource) → Stays (block_resources job rs)
  unfolding block_resources health
  Stays-block_resources job [] = done tt
  Stays-block_resources job (r ∷ rs) =
      Leaves->>
        (Leaves-if (stays_blocked job r) (record { at = λ s h. upsert-Blocked k _ s.resources h })
          (done tt))
        (Stays-block_resources job rs)

  Stays-block_unconfirmed : (job : Job) (d : Settled) → Stays (block_unconfirmed job d)
  unfolding block_unconfirmed
  Stays-block_unconfirmed job d =
      Leaves-if d.cleanup (done tt) (Stays-block_resources job job.spec.resources)

  -- The parts of a finish after its faults are cleared.
  Leaves-record_finish :
      {before : List Health → Type 0} (weak : (rows : List Health) → before rows → Blocked k rows)
      (env : Env) (job : Job) (d : Settled) (records : List Artifact)
      → Leaves before (clear_faults job d)
      → Leaves before (record_finish env job d records)
  unfolding record_finish
  Leaves-record_finish weak env job d records h = Leaves-transaction weak (
      Leaves->> h (
        Leaves->> (Stays-update env job.id (finished_row env d))
          (Leaves->> (Stays-store_artifacts records) (Stays-event env job.id _ _))))

  -- A finish that repairs nothing clears no fault.
  Stays-finish_settled :
      (env : Env) (rec : Job → Outcome → Action (Unit {0})) (job : Job) (d : Settled)
      (records : List Artifact)
      → repaired job (confirmed d) ≡ false
      → Stays (finish_settled env rec job (d, records))
  unfolding finish_settled clear_faults
  Stays-finish_settled env rec job d records e = rw e (
      Leaves->>
        (Leaves->> (Stays-block_unconfirmed job d)
          (Leaves-record_finish (λ rows h. h) env job (confirmed d) records (rw e (done tt))))
        (done tt))

  -- The inner calls of a finish report a failure, and so repair nothing.
  Stays-reconciled :
      (env : Env) (rec : Job → Outcome → Action (Unit {0})) (job old : Job)
      → Stays (finish_step env rec old (reconciled_outcome job))
  unfolding finish_step
  Stays-reconciled env rec job old = Leaves-if (is_terminal old.state) (done tt) (
      subst (λ p. Stays (finish_settled env rec old p)) (sym (settled_failure env job old))
        (Stays-finish_settled env rec old (failure job) [] (no_repair old.spec.recovery)))

  Stays-finish_repaired :
      (env : Env) (rec : Job → Outcome → Action (Unit {0})) (job : Job) (ids : List String)
      (olds : List Job)
      → Stays (finish_repaired (finish_step env rec) job ids olds)
  unfolding finish_repaired
  Stays-finish_repaired env rec job ids [] = done tt
  Stays-finish_repaired env rec job ids (old ∷ rest) =
      Leaves->>
        (Leaves-if (contains ids old.id && is_needs_recovery old.state)
          (Stays-reconciled env rec job old) (done tt))
        (Stays-finish_repaired env rec job ids rest)

  module _ (job : Job) where
    weak : (rows : List Health) → Unrepaired job k rows → Blocked k rows
    weak rows = Unrepaired-Blocked job k rows

    cleared :
        (d : Settled) (r : Result (List (String × Spec)) × State)
        → Unrepaired job k r.1.resources
        → Blocked k
            (and_then r (λ specs. modify (λ t. record t {
              resources = reconcile_rows job d.result specs t.resources;
            }))).1.resources
    cleared d (ok specs, t) h = reconcile_rows-Blocked job d.result specs k t.resources h
    cleared d (err e, t) h = weak t.resources h

    Leaves-clear_faults : (d : Settled) → Leaves (Unrepaired job k) (clear_faults job d)
    unfolding clear_faults
    Leaves-clear_faults d =
        Leaves-if (repaired job d)
          (record {
            at = λ s h.
                cleared d (reconciled_specs d.reconciled s)
                  (subst (λ t. Unrepaired job k t.resources) (sym (reads_only d.reconciled s)) h);
          })
          (Leaves-pure weak tt)

    skip :
        {before : List Health → Type 0} {B : Type 0} (b : Bool) (m : Action (Unit {0}))
        {n : Action B}
        → b ≡ true
        → Leaves before n
        → Leaves before ((if b then pure tt else m) >> n)
    skip true m c h = record { at = λ s p. h.at s p }
    skip false m c h = cc

    cleaned : (d : Settled) → repaired job (confirmed d) ≡ true → d.cleanup ≡ true
    cleaned d e = elim (Bool-cases d.cleanup) [ inl c ↦ c | inr c ↦ ground arith ]

    Leaves-finish_settled :
        (env : Env) (rec : Job → Outcome → Action (Unit {0})) (d : Settled)
        (records : List Artifact)
        → Leaves (Unrepaired job k) (finish_settled env (finish_step env rec) job (d, records))
    unfolding finish_settled block_unconfirmed
    Leaves-finish_settled env rec d records = elim (Bool-cases (repaired job (confirmed d))) [
      | inl e ↦
          Leaves->>
            (skip d.cleanup (block_resources job job.spec.resources) (cleaned d e) (
              Leaves-record_finish weak env job (confirmed d) records
                (Leaves-clear_faults (confirmed d))))
            (Leaves-if (repaired job (confirmed d))
              (Leaves->>= (Leaves-gets (λ rows b. b) _)
                (λ olds. Stays-finish_repaired env rec job (confirmed d).reconciled olds))
              (done tt))
      | inr e ↦ record {
        at = λ s h.
            (Stays-finish_settled env (finish_step env rec) job d records e).at s
              (weak s.resources h);
      }
    ]

    -- A fault that the task did not freeze when it was queued still blocks its key when the task is
    -- finished, whatever result is given: a new fault, even for the same key, needs a new repair.
    pub finish-Blocked :
        (env : Env) (result : Outcome) (s : State)
        → Unrepaired job k s.resources
        → Blocked k (finish env job result s).1.resources
    unfolding finish finish_step
    finish-Blocked env result s h =
        let d = publish env job (settle job result) in
        let rest : Leaves (Unrepaired job k) (finish env job result) =
          Leaves-if (is_terminal job.state) (Leaves-pure weak tt)
            (Leaves-finish_settled env (λ old outcome. raise "unreachable") d.0 d.1) in
        rest.at s h
