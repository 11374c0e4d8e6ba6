-- ===== src/Scheduler/Tick/Death.antt =====
-- The table of tasks after the death of a worker.
use android_workbench.Prelude.{
  String, none, some, Bool, ◌&&◌, not, true, false, List, [], ◌∷◌, map, All, ◌==◌, ◌≡◌, refl,
  Option, opt_eq, sym, ◌∙◌, ap, if◌then◌else◌, Bool-cases, inl, inr,
}
use android_workbench.Scheduler.Model.{Job, Env, State, needs_recovery, is_terminal}
use android_workbench.Scheduler.Store.{update, event, ◌>>◌}
use android_workbench.Scheduler.Exclusion.{Distinct}
use android_workbench.Scheduler.Each.{
  update_first-skip, Changes, each-map, Distinct-map, at_id, update_first-map,
}
use android_workbench.Scheduler.Tick.{died_row, is_child, break_child, worker_died}

-- The row needs recovery for the reason, and is updated now.
abbrev pub broken : Env → String → Job → Job
broken env reason row = record row {
  state = needs_recovery;
  reason = some reason;
  updated = env.now;
}

-- The row is that of a child of the task that is in no final state.
abbrev has_parent : String → Option String → Bool
has_parent id none = false
has_parent id (some parent) = parent == id

abbrev pub unfinished_child : Job → Job → Bool
unfinished_child job j = has_parent job.id j.parent && not (is_terminal j.state)

parent_lem : (id : String) (o : Option String) → opt_eq o (some id) ≡ has_parent id o
parent_lem id none = refl
parent_lem id (some parent) = refl

pub child_lem : (job j : Job) → is_child job j ≡ unfinished_child job j
child_lem job j = ap (λ b. b && not (is_terminal j.state)) (parent_lem job.id j.parent)

-- The row behind the loop over the children: a child that is not finished waits for a repair.
abbrev after_child : Env → Job → Job → Job
after_child env job j = if unfinished_child job j then broken env "parent_controller_died" j else j

-- The row after the death: the task's own, that of a child, or another.
abbrev pub after_death : Env → Job → Job → Job
after_death env job j =
    if j.id == job.id then broken env "worker_died_outcome_unconfirmed" j else after_child env job j

-- No unfinished child has left a result.
abbrev pub NoResult : Env → Job → Type 0
NoResult env job = (child : Job) → is_child job child ≡ true → env.saved_result child ≡ none

after_child_id : (env : Env) (job j : Job) → (after_child env job j).id ≡ j.id
after_child_id env job j = elim (Bool-cases (unfinished_child job j)) [
  | inl e ↦ rw e refl
  | inr e ↦ rw e refl
]

break_child-Changes :
    (env : Env) (job : Job) → NoResult env job → Changes (break_child env job) (after_child env job)
unfolding break_child update
break_child-Changes env job n = record {
  keeps_id = after_child_id env job;
  returns =
      λ j s. elim (Bool-cases (is_child job j)) [ inl e ↦ rw (e, n j e) refl | inr e ↦ rw e refl ];
  at = λ j js done s t u. elim (Bool-cases (is_child job j)) [
    | inl e ↦
        let u' = sym (child_lem job j) ∙ e in
        rw (e, u', n j e, t) (update_first-skip (broken env "parent_controller_died") j js done u)
    | inr e ↦ let u' = sym (child_lem job j) ∙ e in rw (e, u') t
  ];
}

-- The row of the task has no parent.
abbrev pub Alone : Job → List Job → Type 0
Alone job js = All (λ j. (j.id == job.id) ≡ true → j.parent ≡ none) js

no_child : (job j : Job) → j.parent ≡ none → unfinished_child job j ≡ false
no_child job j h = rw h refl

map-after_child :
    (env : Env) (job : Job) (js : List Job)
    → Alone job js
    → map
        (after_child env job)
        (map (at_id job.id (broken env "worker_died_outcome_unconfirmed")) js)
      ≡ map (after_death env job) js
map-after_child env job [] a = refl
map-after_child env job (j ∷ js) a = elim (Bool-cases (j.id == job.id)) [
  | inl e ↦
      rw (e, no_child job (broken env "worker_died_outcome_unconfirmed" j) (a.0 e))
        (ap (λ r. broken env "worker_died_outcome_unconfirmed" j ∷ r)
          (map-after_child env job js a.1))
  | inr e ↦ rw e (ap (λ r. after_child env job j ∷ r) (map-after_child env job js a.1))
]

own_id :
    (env : Env) (job j : Job)
    → (at_id job.id (broken env "worker_died_outcome_unconfirmed") j).id ≡ j.id
own_id env job j = elim (Bool-cases (j.id == job.id)) [ inl e ↦ rw e refl | inr e ↦ rw e refl ]

-- If ids are unique, the task has no parent, and no unfinished child has left a result, then the death
-- of its worker gives exactly the task and its unfinished children the state needs_recovery, each
-- with its own reason, and the time of the death, leaves the rest of these rows as it was, and
-- changes no other row.
pub worker_died_lem :
    (env : Env) (job : Job) (s : State)
    → Distinct s.jobs
    → Alone job s.jobs
    → NoResult env job
    → (worker_died env job s).1.jobs ≡ map (after_death env job) s.jobs
unfolding worker_died update event
worker_died_lem env job s d a n =
    let own = at_id job.id (broken env "worker_died_outcome_unconfirmed") in
    let first = update_first-map job.id (broken env "worker_died_outcome_unconfirmed") s.jobs d in
    let t =
      ((update env job.id (died_row "worker_died_outcome_unconfirmed")
          >> event env job.id "recovery_required" (("reason", "worker_died") ∷ []))
        s).1 in
    let d' : Distinct t.jobs = rw first (Distinct-map own s.jobs (own_id env job) d) in
    each-map (break_child env job) (after_child env job) t (break_child-Changes env job n) d'
    ∙ ap (map (after_child env job)) first
    ∙ map-after_child env job s.jobs a
