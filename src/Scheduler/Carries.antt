-- ===== src/Scheduler/Carries.antt =====
-- No operation of workbench/service.py loses a task, or what its lease has confirmed: each row has a
-- successor in the table that is left.
pub mod Handlers
use android_workbench.Prelude.{
  String, Option, none, some, Bool, true, false, not, ◌||◌, List, [], ◌∷◌, All, Any, All-map, any,
  ◌==◌, if◌then◌else◌, ◌≡◌, refl, sym, subst, ◌∙◌, inl, inr, Bool-cases,
}
use android_workbench.Scheduler.Model.{Job, State, Env}
use android_workbench.Scheduler.Grows.{Grows, Grows-refl, Grows-trans}
use android_workbench.Scheduler.Store.{
  Result, ok, err, Action, pure, raise, ◌>>=◌, ◌>>◌, and_then, transaction, commit_or_rollback,
  update_first, update, each, modify,
}
use android_workbench.Scheduler.Frame.{Weaker, Shrinks, Frame}

-- The same task at a later time.
pub record Follows (old new : Job) : Type 0 where
  pub same_id : new.id ≡ old.id
  pub lease_grows : Grows old.spec.lease new.spec.lease

pub Follows-refl : (j : Job) → Follows j j
Follows-refl j = record { same_id = refl; lease_grows = Grows-refl _ }

Follows-trans : {i j k : Job} → Follows i j → Follows j k → Follows i k
Follows-trans f g = record {
  same_id = g.same_id ∙ f.same_id;
  lease_grows = Grows-trans f.lease_grows g.lease_grows;
}

-- Every row of the first table has a successor in the second one.
abbrev pub Carries : List Job → List Job → Type 0
Carries js ks = All (λ j. Any (Follows j) ks) js

Any-map {ℓ} :
    {A : Type ℓ} {P Q : A → Type 0} → ((x : A) → P x → Q x) → (xs : List A) → Any P xs → Any Q xs
Any-map f [] a = absurd a
Any-map f (x ∷ xs) (inl p) = inl (f x p)
Any-map f (x ∷ xs) (inr a) = inr (Any-map f xs a)

pub Carries-later : (js ks : List Job) (k : Job) → Carries js ks → Carries js (k ∷ ks)
Carries-later js ks k c = All-map (λ j a. inr a) js c

-- Tables of the same length whose rows follow one another.
pub Carries-cons :
    (j k : Job) (js ks : List Job) → Follows j k → Carries js ks → Carries (j ∷ js) (k ∷ ks)
Carries-cons j k js ks f c = (inl f, Carries-later js ks k c)

pub Carries-refl : (js : List Job) → Carries js js
Carries-refl [] = tt
Carries-refl (j ∷ js) = Carries-cons j j js js (Follows-refl j) (Carries-refl js)

successor : (i : Job) (js ks : List Job) → Any (Follows i) js → Carries js ks → Any (Follows i) ks
successor i [] ks a c = absurd a
successor i (j ∷ js) ks (inl f) c = Any-map (λ k g. Follows-trans f g) ks c.0
successor i (j ∷ js) ks (inr a) c = successor i js ks a c.1

pub Carries-trans : (is js ks : List Job) → Carries is js → Carries js ks → Carries is ks
Carries-trans is js ks c d = All-map (λ i a. successor i js ks a d) is c

Carries-Shrinks : (js ks : List Job) → Shrinks js ks → Carries js ks
Carries-Shrinks [] [] s = tt
Carries-Shrinks (j ∷ js) (k ∷ ks) s =
    Carries-cons j k js ks (record { same_id = s.0.same_id; lease_grows = s.0.lease_grows })
      (Carries-Shrinks js ks s.1)
Carries-Shrinks [] (k ∷ ks) s = absurd s
Carries-Shrinks (j ∷ js) [] s = absurd s

update_first-cons :
    (id : String) (f : Job → Job) (j : Job) (js : List Job)
    → update_first id f (j ∷ js) ≡ (if j.id == id then f j ∷ js else j ∷ update_first id f js)
unfolding update_first
update_first-cons id f j js = refl

pub Carries-if :
    (is js ks : List Job) (b : Bool)
    → Carries is js
    → Carries is ks
    → Carries is (if b then js else ks)
Carries-if is js ks true c d = c
Carries-if is js ks false c d = d

Carries-update_first :
    (id : String) (f : Job → Job) (js : List Job)
    → ((j : Job) → Follows j (f j))
    → Carries js (update_first id f js)
Carries-update_first id f [] w = tt
Carries-update_first id f (j ∷ js) w =
    subst (Carries (j ∷ js)) (sym (update_first-cons id f j js)) (
      Carries-if (j ∷ js) (f j ∷ js) (j ∷ update_first id f js) (j.id == id)
        (Carries-cons j (f j) js js (w j) (Carries-refl js))
        (Carries-cons j j js _ (Follows-refl j) (Carries-update_first id f js w)))

-- The action loses nothing, whether it returns or raises.
pub record Carry {A : Type 0} (m : Action A) : Type 0 where
  pub at : (s : State) → Carries s.jobs (m s).1.jobs

pub Carry-Frame : {A : Type 0} {m : Action A} → Frame m → Carry m
Carry-Frame {m = m} f = record { at = λ s. Carries-Shrinks s.jobs (m s).1.jobs (f.at s) }

and_then-Carries :
    {A B : Type 0} (old : State) (r : Result A × State) (f : A → Action B)
    → Carries old.jobs r.1.jobs
    → ((a : A) → Carry (f a))
    → Carries old.jobs (and_then r f).1.jobs
and_then-Carries old (ok a, s) f h k = Carries-trans old.jobs s.jobs (f a s).1.jobs h ((k a).at s)
and_then-Carries old (err e, s) f h k = h

pub Carry->>= :
    {A B : Type 0} {m : Action A} {f : A → Action B}
    → Carry m
    → ((a : A) → Carry (f a))
    → Carry (m >>= f)
Carry->>= {m = m} {f = f} h k = record { at = λ s. and_then-Carries s (m s) f (h.at s) k }

pub Carry->> :
    {B : Type 0} {m : Action (Unit {0})} {k : Action B} → Carry m → Carry k → Carry (m >> k)
Carry->> h k = Carry->>= h (λ _. k)

pub Carry-if :
    {A : Type 0} (b : Bool) {m k : Action A} → Carry m → Carry k → Carry (if b then m else k)
Carry-if true h k = h
Carry-if false h k = k

rollback-Carries :
    {A : Type 0} (s : State) (r : Result A × State)
    → Carries s.jobs r.1.jobs
    → Carries s.jobs (commit_or_rollback s r).1.jobs
rollback-Carries s (ok a, t) h = h
rollback-Carries s (err e, t) h = Carries-refl s.jobs

pub Carry-transaction : {A : Type 0} {m : Action A} → Carry m → Carry (transaction m)
unfolding transaction
Carry-transaction {m = m} h = record { at = λ s. rollback-Carries s (m s) (h.at s) }

pub Carry-modify :
    (f : State → State) → ((s : State) → Carries s.jobs (f s).jobs) → Carry (modify f)
Carry-modify f h = record { at = h }

pub Carry-each :
    {A : Type 0} {f : A → Action (Unit {0})}
    → ((x : A) → Carry (f x))
    → (xs : List A) → Carry (each f xs)
unfolding each
Carry-each h [] = record { at = λ s. Carries-refl s.jobs }
Carry-each h (x ∷ xs) = Carry->> (h x) (Carry-each h xs)

-- A change of a row that leaves its id and its lease.
pub Carry-update :
    (env : Env) (id : String) (f : Job → Job)
    → ((j : Job) → (f j).id ≡ j.id)
    → ((j : Job) → (f j).spec.lease ≡ j.spec.lease)
    → Carry (update env id f)
unfolding update
Carry-update env id f i l = record {
  at = λ s.
      Carries-update_first id _ s.jobs
        λ j. record { same_id = i j; lease_grows = rw (l j) (Grows-refl j.spec.lease) };
}
