-- ===== src/Scheduler/Ends.antt =====
-- What an action leaves behind, when it returns and when it raises.
use android_workbench.Prelude.{
  String, Option, some, true, false, List, [], ◌∷◌, ◌≡◌, ◌∙◌, All, All-map, subst, ◌==◌, eq_iff,
  eq_refl, some_inj, sym, false≢true, All-both, Bool-cases, inl, inr,
}
use android_workbench.Scheduler.Model.{Job, Config, State}
use android_workbench.Scheduler.Store.{Result, ok, err, Action, and_then, find_job}
use android_workbench.Scheduler.Frame.{Weaker, Weaker-refl, Weaker-trans, Shrinks}
use android_workbench.Scheduler.Exclusion.{Distinct}
use android_workbench.Scheduler.Available.Clear.{Fits, Fits-Shrinks}
use android_workbench.Scheduler.Grant.Exclusion.{Backs}

-- On a return the value and the state satisfy `Q`; on an exception the state satisfies `T`.
abbrev pub Ends : {A : Type 0} → (State → Type 0) → (A → State → Type 0) → Result A × State → Type 0
Ends T Q (ok a, s) = Q a s
Ends T Q (err e, s) = T s

pub Ends-and_then :
    {A B : Type 0} (T : State → Type 0) (R : A → State → Type 0) (Q : B → State → Type 0)
    (r : Result A × State) (f : A → Action B)
    → Ends T R r
    → ((a : A) (t : State) → R a t → Ends T Q (f a t))
    → Ends T Q (and_then r f)
Ends-and_then T R Q (ok a, s) f h k = k a s h
Ends-and_then T R Q (err e, s) f h k = h

pub Ends-map :
    {A : Type 0} (T U : State → Type 0) (R Q : A → State → Type 0) (r : Result A × State)
    → Ends T R r
    → ((t : State) → T t → U t)
    → ((a : A) (t : State) → R a t → Q a t)
    → Ends U Q r
Ends-map T U R Q (ok a, s) h f g = g a s h
Ends-map T U R Q (err e, s) h f g = f s h

-- The two parts of an outcome that an invariant needs.
pub Ends-same : {A : Type 0} (T : State → Type 0) (r : Result A × State) → Ends T (λ _. T) r → T r.1
Ends-same T (ok a, s) h = h
Ends-same T (err e, s) h = h

pub Ends-of : {A : Type 0} (T : State → Type 0) (r : Result A × State) → T r.1 → Ends T (λ _. T) r
Ends-of T (ok a, s) h = h
Ends-of T (err e, s) h = h

find-Shrinks :
    (id : String) (js ks : List Job)
    → Shrinks js ks
    → (row' : Job) → find_job id ks ≡ some row'
    → (row : Job) × (find_job id js ≡ some row) × Weaker row row'
unfolding find_job
find-Shrinks id [] [] s row' h = cc
find-Shrinks id [] (k ∷ ks) s row' h = absurd s
find-Shrinks id (j ∷ js) [] s row' h = absurd s
find-Shrinks id (j ∷ js) (k ∷ ks) s row' h = elim (Bool-cases (j.id == id)) [
  | inl e ↦
      let k_is : (k.id == id) ≡ true = rw s.0.same_id e in
      (j, rw e, subst (Weaker j) (some_inj (rw k_is at h)) s.0)
  | inr e ↦
      let k_not : (k.id == id) ≡ false = rw s.0.same_id e in
      let (row, f, w) = find-Shrinks id js ks s.1 row' (rw k_not at h) in (row, rw e f, w)
]

pub Backs-Shrinks : (job : Job) (js ks : List Job) → Shrinks js ks → Backs job js → Backs job ks
Backs-Shrinks job js ks s b row' h =
    let (row, f, w) = find-Shrinks job.id js ks s row' h in Weaker-trans (b row f) w

-- The task can be granted now: its row stands behind it, and it fits beside the active tasks.
pub record Ready (config : Config) (parent : Option Job) (job : Job) (js : List Job) : Type 0 where
  pub backs : Backs job js
  pub fits : Fits config parent job js

pub Ready-Shrinks :
    (config : Config) (parent : Option Job) (job : Job) (js ks : List Job)
    → Shrinks js ks
    → Ready config parent job js
    → Ready config parent job ks
Ready-Shrinks config parent job js ks s r = record {
  backs = Backs-Shrinks job js ks s r.backs;
  fits = Fits-Shrinks config parent job js ks s r.fits;
}

pub find_job-id :
    (id : String) (job : Job) (js : List Job) → find_job id js ≡ some job → job.id ≡ id
unfolding find_job
find_job-id id job [] h = cc
find_job-id id job (j ∷ js) h = elim (Bool-cases (j.id == id)) [
  | inl e ↦ subst (λ (x : Job). x.id ≡ id) (some_inj (rw e at h)) ((eq_iff j.id id).0 e)
  | inr e ↦ find_job-id id job js (rw e at h)
]

Backs-self : (job : Job) (js : List Job) → find_job job.id js ≡ some job → Backs job js
Backs-self job js h row f = subst (Weaker job) (some_inj (sym h ∙ f)) (Weaker-refl job)

-- A row that was read by its id stands behind its task.
pub Backs-found :
    (id : String) (job : Job) (js : List Job) → find_job id js ≡ some job → Backs job js
Backs-found id job js h =
    Backs-self job js (subst (λ i. find_job i js ≡ some job) (sym (find_job-id id job js h)) h)

find-skip :
    (x j : Job) (xs : List Job)
    → (j.id == x.id) ≡ false
    → find_job j.id xs ≡ some j
    → find_job j.id (x ∷ xs) ≡ some j
unfolding find_job
find-skip x j xs d h = elim (Bool-cases (x.id == j.id)) [
  | inl e ↦ absurd (false≢true (sym d ∙ (eq_iff j.id x.id).1 (sym ((eq_iff x.id j.id).0 e))))
  | inr e ↦ rw e h
]

pub find_self : (js : List Job) → Distinct js → All (λ j. find_job j.id js ≡ some j) js
unfolding find_job
find_self [] d = tt
find_self (x ∷ xs) d = (
  rw (eq_refl x.id),
  All-map (λ j p. find-skip x j xs p.0 p.1) xs
      (All-both (λ j. (j.id == x.id) ≡ false) (λ j. find_job j.id xs ≡ some j) xs d.0
        (find_self xs d.1)),
)

-- Ids are unique, so every row of the table stands behind its own task.
pub Backs-All : (js : List Job) → Distinct js → All (λ j. Backs j js) js
Backs-All js d = All-map (λ j h. Backs-self j js h) js (find_self js d)
