-- ===== src/Scheduler/Frame.antt =====
-- What every operation of workbench/service.py but a grant does to the table of jobs: rows lose
-- activity and resources, and keep their identity, their parent and the scope of their repair.
use android_workbench.Prelude.{
  ℕ, String, Option, none, some, Bool, true, false, List, [], ◌∷◌, ◌≡◌, refl, ◌∙◌, ap, ◌==◌,
  if◌then◌else◌, Bool-cases, inl, inr,
}
use android_workbench.Resource.{Resource, conflict}
use android_workbench.Scheduler.Model.{Job, State, Env, Spec, is_active, is_needs_recovery, Health}
use android_workbench.Scheduler.Grows.{Grows, Grows-refl, Grows-same, Grows-trans}
use android_workbench.Scheduler.Store.{
  Result, ok, err, Action, pure, raise, ◌>>=◌, ◌>>◌, gets, modify, and_then, transaction,
  commit_or_rollback, job_of, found, find_job, update_first, update, event, health,
}

-- The row holds its task's share of the machine: it runs, and is not waiting for a repair.
abbrev pub occupies : Job → Bool
occupies j = if is_needs_recovery j.state then false else is_active j.state

-- `new` holds no more than `old`.
pub record Weaker (old new : Job) : Type 0 where
  pub same_id : new.id ≡ old.id
  pub same_parent : new.parent ≡ old.parent
  pub same_operation : new.spec.operation ≡ old.spec.operation
  pub same_compute : new.spec.compute ≡ old.spec.compute
  pub same_recovery : new.spec.recovery ≡ old.spec.recovery
  pub same_targets : new.spec.recovery_targets ≡ old.spec.recovery_targets
  pub lease_grows : Grows old.spec.lease new.spec.lease
  pub still_active : is_active new.state ≡ true → is_active old.state ≡ true
  pub still_occupies : occupies new ≡ true → occupies old ≡ true
  pub still_broken :
      is_active new.state ≡ true
      → is_needs_recovery old.state ≡ true
      → is_needs_recovery new.state ≡ true
  pub fewer_resources :
      (rs : List Resource)
      → conflict old.spec.resources rs ≡ false
      → conflict new.spec.resources rs ≡ false

pub Weaker-refl : (j : Job) → Weaker j j
Weaker-refl j = record {
  same_id = refl;
  same_parent = refl;
  same_operation = refl;
  same_compute = refl;
  same_recovery = refl;
  same_targets = refl;
  lease_grows = Grows-refl _;
  still_active = λ h. h;
  still_occupies = λ h. h;
  still_broken = λ a h. h;
  fewer_resources = λ rs h. h;
}

-- A row that keeps its identity, parent, description and state.
pub Weaker-same :
    (j k : Job)
    → k.id ≡ j.id
    → k.parent ≡ j.parent
    → k.spec ≡ j.spec
    → k.state ≡ j.state
    → Weaker j k
Weaker-same j k i p s t = record {
  same_id = i;
  same_parent = p;
  same_operation = ap (λ (x : Spec). x.operation) s;
  same_compute = ap (λ (x : Spec). x.compute) s;
  same_recovery = ap (λ (x : Spec). x.recovery) s;
  same_targets = ap (λ (x : Spec). x.recovery_targets) s;
  lease_grows = Grows-same (ap (λ (x : Spec). x.lease) s);
  still_active = λ h. rw (← t) h;
  still_occupies = λ h. rw (← t) h;
  still_broken = λ a h. rw t h;
  fewer_resources = λ rs e. rw s e;
}

pub Weaker-trans : {a b c : Job} → Weaker a b → Weaker b c → Weaker a c
Weaker-trans v w = record {
  same_id = w.same_id ∙ v.same_id;
  same_parent = w.same_parent ∙ v.same_parent;
  same_operation = w.same_operation ∙ v.same_operation;
  same_compute = w.same_compute ∙ v.same_compute;
  same_recovery = w.same_recovery ∙ v.same_recovery;
  same_targets = w.same_targets ∙ v.same_targets;
  lease_grows = Grows-trans v.lease_grows w.lease_grows;
  still_active = λ h. v.still_active (w.still_active h);
  still_occupies = λ h. v.still_occupies (w.still_occupies h);
  still_broken = λ a h. w.still_broken a (v.still_broken (w.still_active a) h);
  fewer_resources = λ rs h. w.fewer_resources rs (v.fewer_resources rs h);
}

-- The same rows in the same order, each no stronger than before.
abbrev pub Shrinks : List Job → List Job → Type 0
Shrinks [] [] = Unit
Shrinks [] (k ∷ ks) = ⊥
Shrinks (j ∷ js) [] = ⊥
Shrinks (j ∷ js) (k ∷ ks) = Weaker j k × Shrinks js ks

pub Shrinks-refl : (js : List Job) → Shrinks js js
Shrinks-refl [] = tt
Shrinks-refl (j ∷ js) = (Weaker-refl j, Shrinks-refl js)

pub Shrinks-trans : (a b c : List Job) → Shrinks a b → Shrinks b c → Shrinks a c
Shrinks-trans [] [] [] h k = tt
Shrinks-trans (x ∷ a) (y ∷ b) (z ∷ c) h k = (Weaker-trans h.0 k.0, Shrinks-trans a b c h.1 k.1)
Shrinks-trans [] [] (z ∷ c) h k = absurd k
Shrinks-trans [] (y ∷ b) c h k = absurd h
Shrinks-trans (x ∷ a) [] c h k = absurd h
Shrinks-trans (x ∷ a) (y ∷ b) [] h k = absurd k

pub Shrinks-update_first :
    (id : String) (f : Job → Job) (js : List Job)
    → ((j : Job) → Weaker j (f j))
    → Shrinks js (update_first id f js)
unfolding update_first
Shrinks-update_first id f [] w = tt
Shrinks-update_first id f (j ∷ js) w = elim (Bool-cases (j.id == id)) [
  | inl e ↦ rw e (w j, Shrinks-refl js)
  | inr e ↦ rw e (Weaker-refl j, Shrinks-update_first id f js w)
]

-- The action leaves the table of jobs no stronger, whether it returns or raises.
pub record Frame {A : Type 0} (m : Action A) : Type 0 where
  pub at : (s : State) → Shrinks s.jobs (m s).1.jobs

pub Frame-pure : {A : Type 0} (a : A) → Frame (pure a)
Frame-pure a = record { at = λ s. Shrinks-refl s.jobs }

pub Frame-raise : {A : Type 0} (e : String) → Frame {A = A} (raise e)
Frame-raise e = record { at = λ s. Shrinks-refl s.jobs }

pub Frame-gets : {A : Type 0} (f : State → A) → Frame (gets f)
Frame-gets f = record { at = λ s. Shrinks-refl s.jobs }

pub Frame-modify :
    (f : State → State) → ((s : State) → Shrinks s.jobs (f s).jobs) → Frame (modify f)
Frame-modify f h = record { at = h }

and_then-Shrinks :
    {A B : Type 0} (old : State) (r : Result A × State) (f : A → Action B)
    → Shrinks old.jobs r.1.jobs
    → ((a : A) → Frame (f a))
    → Shrinks old.jobs (and_then r f).1.jobs
and_then-Shrinks old (ok a, s) f h k = Shrinks-trans old.jobs s.jobs (f a s).1.jobs h ((k a).at s)
and_then-Shrinks old (err e, s) f h k = h

pub Frame->>= :
    {A B : Type 0} {m : Action A} {f : A → Action B}
    → Frame m
    → ((a : A) → Frame (f a))
    → Frame (m >>= f)
Frame->>= {m = m} {f = f} h k = record { at = λ s. and_then-Shrinks s (m s) f (h.at s) k }

pub Frame->> :
    {B : Type 0} {m : Action (Unit {0})} {k : Action B} → Frame m → Frame k → Frame (m >> k)
Frame->> h k = Frame->>= h (λ _. k)

pub Frame-if :
    {A : Type 0} (b : Bool) {m k : Action A} → Frame m → Frame k → Frame (if b then m else k)
Frame-if true h k = h
Frame-if false h k = k

rollback-Shrinks :
    {A : Type 0} (s : State) (r : Result A × State)
    → Shrinks s.jobs r.1.jobs
    → Shrinks s.jobs (commit_or_rollback s r).1.jobs
rollback-Shrinks s (ok a, t) h = h
rollback-Shrinks s (err e, t) h = Shrinks-refl s.jobs

pub Frame-transaction : {A : Type 0} {m : Action A} → Frame m → Frame (transaction m)
unfolding transaction
Frame-transaction {m = m} h = record { at = λ s. rollback-Shrinks s (m s) (h.at s) }

Frame-found : (o : Option Job) → Frame (found o)
Frame-found none = Frame-raise _
Frame-found (some j) = Frame-pure j

pub Frame-job_of : (id : String) → Frame (job_of id)
unfolding job_of
Frame-job_of id = record { at = λ s. (Frame-found (find_job id s.jobs)).at s }

-- The time of the last change says nothing about what a row holds.
pub Weaker-touch : (t : ℕ) (j k : Job) → Weaker j k → Weaker j (record k { updated = t })
Weaker-touch t j k w = record {
  same_id = w.same_id;
  same_parent = w.same_parent;
  same_operation = w.same_operation;
  same_compute = w.same_compute;
  same_recovery = w.same_recovery;
  same_targets = w.same_targets;
  lease_grows = w.lease_grows;
  still_active = w.still_active;
  still_occupies = w.still_occupies;
  still_broken = w.still_broken;
  fewer_resources = w.fewer_resources;
}

pub Frame-update :
    (env : Env) (id : String) (f : Job → Job)
    → ((j : Job) → Weaker j (f j))
    → Frame (update env id f)
unfolding update
Frame-update env id f w = record {
  at = λ s. Shrinks-update_first id _ s.jobs (λ j. Weaker-touch env.now j (f j) (w j));
}

pub Frame-event :
    (env : Env) (id kind : String) (detail : List (String × String))
    → Frame (event env id kind detail)
unfolding event
Frame-event env id kind detail = record { at = λ s. Shrinks-refl s.jobs }

pub Frame-health : (h : Health) → Frame (health h)
unfolding health
Frame-health h = record { at = λ s. Shrinks-refl s.jobs }
