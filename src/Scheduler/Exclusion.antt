-- ===== src/Scheduler/Exclusion.antt =====
-- The promise of the queue in workbench/service.py: active tasks whose resources conflict are a
-- task and the scene that it was inserted in, or a repair and the broken task that it repairs.
use android_workbench.Prelude.{
  ◌≤◌, String, some, Bool, true, false, not, ◌&&◌, ◌||◌, List, [], ◌∷◌, count, contains, opt_eq,
  All, ◌==◌, ◌≡◌, ◌∙◌, ◌⊎◌, inl, inr, arith, and_mono, or_mono,
}
use android_workbench.Resource.{conflict}
use android_workbench.Resource.Laws.{conflict_comm}
use android_workbench.Scheduler.Model.{Job, Config, is_active, is_needs_recovery}
use android_workbench.Scheduler.Frame.{Weaker, Shrinks, occupies}
use android_workbench.Scheduler.Available.{is_lease, is_some, lease_limit}

-- The first task was inserted in the scene of the second.
abbrev pub inserted_in : Job → Job → Bool
inserted_in child scene = opt_eq child.parent (some scene.id)

-- The first task repairs the second, which waits for it.
abbrev pub repairs : Job → Job → Bool
repairs r broken =
    r.spec.recovery && is_needs_recovery broken.state && contains r.spec.recovery_targets broken.id

abbrev pub excused : Job → Job → Bool
excused i j = inserted_in i j || inserted_in j i || repairs i j || repairs j i

abbrev pub Compatible : Job → Job → Type 0
Compatible i j =
    is_active i.state ≡ true
    → is_active j.state ≡ true
    → (excused i j ≡ true) ⊎ (conflict i.spec.resources j.spec.resources ≡ false)

abbrev pub Exclusive : List Job → Type 0
Exclusive [] = Unit
Exclusive (j ∷ js) = All (Compatible j) js × Exclusive js

-- No two rows have one id.
abbrev pub Distinct : List Job → Type 0
Distinct [] = Unit
Distinct (j ∷ js) = All (λ k. (k.id == j.id) ≡ false) js × Distinct js

-- A task that was given to a worker of its own, and not to the worker of its scene.
abbrev pub own_worker : Job → Bool
own_worker j = occupies j && not (is_lease j) && not (is_some j.parent)

abbrev pub active_lease : Job → Bool
active_lease j = is_active j.state && is_lease j

abbrev pub active_compute : Job → Bool
active_compute j = is_active j.state && j.spec.compute

conflict-Weaker :
    {i j k l : Job}
    → Weaker i k
    → Weaker j l
    → conflict i.spec.resources j.spec.resources ≡ false
    → conflict k.spec.resources l.spec.resources ≡ false
conflict-Weaker {i} {j} {k} {l} v w h =
    let a = v.fewer_resources j.spec.resources h in
    let b = rw (conflict_comm k.spec.resources j.spec.resources) at a in
    rw (conflict_comm k.spec.resources l.spec.resources) (w.fewer_resources k.spec.resources b)

inserted_in-Weaker :
    {i j k l : Job} → Weaker i k → Weaker j l → inserted_in i j ≡ true → inserted_in k l ≡ true
inserted_in-Weaker v w h = rw (v.same_parent, w.same_id) h

pub repairs-Weaker :
    {i j k l : Job}
    → Weaker i k
    → Weaker j l
    → is_active l.state ≡ true
    → repairs i j ≡ true
    → repairs k l ≡ true
repairs-Weaker {i} {j} {k} {l} v w b =
    and_mono (i.spec.recovery && is_needs_recovery j.state) (contains i.spec.recovery_targets j.id)
      (k.spec.recovery && is_needs_recovery l.state) (contains k.spec.recovery_targets l.id)
      (and_mono i.spec.recovery (is_needs_recovery j.state) k.spec.recovery
        (is_needs_recovery l.state) (λ e. v.same_recovery ∙ e) (w.still_broken b))
      (λ e. rw (v.same_targets, w.same_id) e)

excused-Weaker :
    {i j k l : Job}
    → Weaker i k
    → Weaker j l
    → is_active k.state ≡ true
    → is_active l.state ≡ true
    → excused i j ≡ true
    → excused k l ≡ true
excused-Weaker {i} {j} {k} {l} v w a b =
    or_mono (inserted_in i j || inserted_in j i || repairs i j) (repairs j i)
      (inserted_in k l || inserted_in l k || repairs k l) (repairs l k)
      (or_mono (inserted_in i j || inserted_in j i) (repairs i j)
        (inserted_in k l || inserted_in l k) (repairs k l)
        (or_mono (inserted_in i j) (inserted_in j i) (inserted_in k l) (inserted_in l k)
          (inserted_in-Weaker {j = j} {l = l} v w) (inserted_in-Weaker {j = i} {l = k} w v))
        (repairs-Weaker v w b))
      (repairs-Weaker w v a)

Compatible-Weaker : {i j k l : Job} → Weaker i k → Weaker j l → Compatible i j → Compatible k l
Compatible-Weaker v w h a b = elim (h (v.still_active a) (w.still_active b)) [
  | inl e ↦ inl (excused-Weaker v w a b e)
  | inr e ↦ inr (conflict-Weaker v w e)
]

All-Compatible :
    {i k : Job} (js ks : List Job)
    → Weaker i k
    → Shrinks js ks
    → All (Compatible i) js
    → All (Compatible k) ks
All-Compatible [] [] v s h = tt
All-Compatible (j ∷ js) (l ∷ ks) v s h =
    (Compatible-Weaker v s.0 h.0, All-Compatible js ks v s.1 h.1)
All-Compatible [] (l ∷ ks) v s h = absurd s
All-Compatible (j ∷ js) [] v s h = absurd s

pub Exclusive-Shrinks : (js ks : List Job) → Shrinks js ks → Exclusive js → Exclusive ks
Exclusive-Shrinks [] [] s h = tt
Exclusive-Shrinks (j ∷ js) (k ∷ ks) s h =
    (All-Compatible js ks s.0 s.1 h.0, Exclusive-Shrinks js ks s.1 h.1)
Exclusive-Shrinks [] (k ∷ ks) s h = absurd s
Exclusive-Shrinks (j ∷ js) [] s h = absurd s

All-fresh-Shrinks :
    (a b : String) (js ks : List Job)
    → b ≡ a
    → Shrinks js ks
    → All (λ k. (k.id == a) ≡ false) js
    → All (λ k. (k.id == b) ≡ false) ks
All-fresh-Shrinks a b [] [] e s h = tt
All-fresh-Shrinks a b (j ∷ js) (k ∷ ks) e s h =
    (rw (e, s.0.same_id) (h.0), All-fresh-Shrinks a b js ks e s.1 h.1)
All-fresh-Shrinks a b [] (k ∷ ks) e s h = absurd s
All-fresh-Shrinks a b (j ∷ js) [] e s h = absurd s

pub Distinct-Shrinks : (js ks : List Job) → Shrinks js ks → Distinct js → Distinct ks
Distinct-Shrinks [] [] s h = tt
Distinct-Shrinks (j ∷ js) (k ∷ ks) s h =
    (All-fresh-Shrinks j.id k.id js ks s.0.same_id s.1 h.0, Distinct-Shrinks js ks s.1 h.1)
Distinct-Shrinks [] (k ∷ ks) s h = absurd s
Distinct-Shrinks (j ∷ js) [] s h = absurd s

-- A test that no weaker row gains counts no more rows.
pub count-Shrinks :
    (p : Job → Bool) (gain : (j k : Job) → Weaker j k → p k ≡ true → p j ≡ true) (js ks : List Job)
    → Shrinks js ks
    → count p ks ≤ count p js
count-Shrinks p gain [] [] s = omega arith
count-Shrinks p gain (j ∷ js) (k ∷ ks) s =
    ground (arith, gain j k s.0, count-Shrinks p gain js ks s.1)
count-Shrinks p gain [] (k ∷ ks) s = absurd s
count-Shrinks p gain (j ∷ js) [] s = absurd s

pub own_worker-Weaker : (j k : Job) → Weaker j k → own_worker k ≡ true → own_worker j ≡ true
own_worker-Weaker j k w =
    and_mono (occupies k && not (is_lease k)) (not (is_some k.parent))
      (occupies j && not (is_lease j)) (not (is_some j.parent))
      (and_mono (occupies k) (not (is_lease k)) (occupies j) (not (is_lease j)) w.still_occupies
        (λ e. rw (← w.same_operation) e))
      (λ e. rw (← w.same_parent) e)

pub active_lease-Weaker : (j k : Job) → Weaker j k → active_lease k ≡ true → active_lease j ≡ true
active_lease-Weaker j k w =
    and_mono (is_active k.state) _ (is_active j.state) _ w.still_active
      (λ e. rw (← w.same_operation) e)

pub active_compute-Weaker :
    (j k : Job) → Weaker j k → active_compute k ≡ true → active_compute j ≡ true
active_compute-Weaker j k w =
    and_mono (is_active k.state) _ (is_active j.state) _ w.still_active
      (λ e. rw (← w.same_compute) e)

-- The state of the queue that every operation keeps: ids are unique, conflicting active tasks
-- excuse each other, and no limit on workers, leases or computations is passed.
pub record Sound (config : Config) (js : List Job) : Type 0 where
  pub distinct : Distinct js
  pub exclusive : Exclusive js
  pub workers : count own_worker js ≤ config.max_workers
  pub leases : count active_lease js ≤ lease_limit
  pub compute : count active_compute js ≤ config.max_compute

pub Sound-Shrinks :
    (config : Config) (js ks : List Job) → Shrinks js ks → Sound config js → Sound config ks
Sound-Shrinks config js ks s h = record {
  distinct = Distinct-Shrinks js ks s h.distinct;
  exclusive = Exclusive-Shrinks js ks s h.exclusive;
  workers = omega (arith, h.workers, count-Shrinks own_worker own_worker-Weaker js ks s);
  leases = omega (arith, h.leases, count-Shrinks active_lease active_lease-Weaker js ks s);
  compute = omega (arith, h.compute, count-Shrinks active_compute active_compute-Weaker js ks s);
}
