-- ===== src/Scheduler/Recovery/Targets.antt =====
-- Which tasks a repair may name as its targets.
use android_workbench.Prelude.{
  String, some, Bool, true, false, not, List, [], ◌∷◌, All, Any, keep, ◌==◌, ◌≡◌, ◌≢◌, ◌⊎◌, refl,
  if◌then◌else◌, Bool-cases, inl, inr, arith, some_inj, subst, All-map,
}
use android_workbench.Scheduler.Model.{Health, Spec, Job, Env, State}
use android_workbench.Scheduler.Store.{Result, ok, err, find_job, Action, and_then}
use android_workbench.Scheduler.Recovery.{
  Locks, Requested, unasked, malformed, listed, well_formed, Scope, covered, is_affected,
  may_repair, check_requested, sorted, insert_text, is_faulty, targets_of, scope_of,
  prepare_recovery, nothing_to_prepare, freeze,
}
use android_workbench.Scheduler.Choice.{text_before}

All-insert_text :
    (P : String → Type 0) (x : String) (xs : List String)
    → P x
    → All P xs
    → All P (insert_text x xs)
All-insert_text P x [] p h = (p, tt)
All-insert_text P x (y ∷ ys) p h = elim (Bool-cases (text_before y x)) [
  | inl e ↦ rw e (h.0, All-insert_text P x ys p h.1)
  | inr e ↦ rw e (p, h)
]

All-sorted : (P : String → Type 0) (xs : List String) → All P xs → All P (sorted xs)
All-sorted P [] h = tt
All-sorted P (x ∷ xs) h = All-insert_text P x (sorted xs) h.0 (All-sorted P xs h.1)

module _ (spec : Spec) (project : String) (repairs : List String) (rows : List Health) where
  -- Some task has the id, waits for a repair or is named by a fault, and is one that the repair is for.
  abbrev pub IsTarget : List Job → String → Type 0
  IsTarget jobs id =
      Any
        (λ old.
          ((old.id == id) ≡ true)
          × (covered spec project repairs old ≡ true)
          × (is_affected rows old ≡ true))
        jobs

  -- Some task has the id and is of the project.
  abbrev pub IsOwn : List Job → String → Type 0
  IsOwn jobs id = Any (λ old. ((old.id == id) ≡ true) × ((old.project == project) ≡ true)) jobs

  may_repair-IsTarget :
      (id : String) (jobs : List Job)
      → may_repair spec project repairs rows (find_job id jobs) ≡ true
      → IsTarget jobs id × IsOwn jobs id
  unfolding find_job
  may_repair-IsTarget id [] h = cc
  may_repair-IsTarget id (j ∷ js) h = elim (Bool-cases (j.id == id)) [
    | inl e ↦
        let k = rw e at h in
        let own : (j.project == project) ≡ true = ground arith in
        let for_it : covered spec project repairs j ≡ true = ground arith in
        let hit : is_affected rows j ≡ true = ground arith in (inl (e, for_it, hit), inl (e, own))
    | inr e ↦ let (t, o) = may_repair-IsTarget id js (rw e at h) in (inr t, inr o)
  ]

  check_requested-IsTarget :
      (jobs : List Job) (ids : List String) (s : State)
      → (check_requested spec project repairs rows jobs ids s).0 ≡ ok tt
      → All (λ id. IsTarget jobs id × IsOwn jobs id) ids
  unfolding check_requested
  check_requested-IsTarget jobs [] s h = tt
  check_requested-IsTarget jobs (id ∷ ids) s h =
      elim (Bool-cases (may_repair spec project repairs rows (find_job id jobs))) [
        | inl e ↦ (may_repair-IsTarget id jobs e, check_requested-IsTarget jobs ids s (rw e at h))
        | inr e ↦ let bad = rw e at h in cc
      ]

ok_inj : {A : Type 0} {a b : A} → ok a ≡ ok b → a ≡ b
ok_inj h = cc

-- An action that returns has returned from its first part.
from_first :
    {A B : Type 0} (r : Result A × State) (f : A → Action B) (b : B)
    → (and_then r f).0 ≡ ok b
    → (a : A) × (r.0 ≡ ok a) × ((f a r.1).0 ≡ ok b)
from_first (ok a, s) f b h = (a, refl, h)
from_first (err e, s) f b h = cc

module _ (spec : Spec) (project : String) (repairs : List String) (rows : List Health) where
  listed-IsTarget :
      (jobs : List Job) (ids targets : List String) (s : State)
      → (targets_of spec project repairs rows jobs (listed ids) s).0 ≡ ok targets
      → All
          (λ id.
            IsTarget spec project repairs rows jobs id × IsOwn spec project repairs rows jobs id)
          targets
  unfolding targets_of
  listed-IsTarget jobs ids targets s h = elim (Bool-cases (well_formed ids)) [
    | inl e ↦
        let (t, c, r) =
          from_first (check_requested spec project repairs rows jobs ids s) _ targets (rw e at h) in
        subst (All _) (ok_inj r) (check_requested-IsTarget spec project repairs rows jobs ids s c)
    | inr e ↦ let bad = rw e at h in cc
  ]

from_if :
    {A : Type 0} (b : Bool) (m k : Action A) (s : State) (a : A)
    → ((if b then m else k) s).0 ≡ ok a
    → ((m s).0 ≡ ok a) ⊎ ((k s).0 ≡ ok a)
from_if true m k s a h = inl h
from_if false m k s a h = inr h

nothing_prepared :
    (requested : Requested) (s : State) (scope : Scope)
    → (nothing_to_prepare requested s).0 ≢ ok (some scope)
nothing_prepared unasked s scope = λ h. cc
nothing_prepared malformed s scope = λ h. cc
nothing_prepared (listed ids) s scope = λ h. cc

module _ (env : Env) (locks : Locks) (spec : Spec) (project : String) (repairs : List String)
    (requested : Requested) (s : State) (scope : Scope) where
  frozen :
      (freeze env locks spec project repairs requested s).0 ≡ ok (some scope)
      → (targets : List String) × ((targets_of spec project repairs
            (keep is_faulty s.resources)
            s.jobs
            requested
            s).0
          ≡ ok targets)
        × (scope_of env locks spec s.jobs s.resources targets ≡ scope)
  unfolding freeze
  frozen h =
      let (targets, t, r) =
        from_first (targets_of spec project repairs (keep is_faulty s.resources) s.jobs requested s)
          _ (some scope) h in
      (targets, t, some_inj (ok_inj r))

  -- A scope that is returned is that of the targets that were found.
  prepared :
      (prepare_recovery env locks spec project repairs requested s).0 ≡ ok (some scope)
      → (targets : List String) × ((targets_of spec project repairs
            (keep is_faulty s.resources)
            s.jobs
            requested
            s).0
          ≡ ok targets)
        × (scope_of env locks spec s.jobs s.resources targets ≡ scope)
  unfolding prepare_recovery
  prepared h =
      elim (from_if (not spec.recovery) (nothing_to_prepare requested)
        (freeze env locks spec project repairs requested) s (some scope) h) [
          | inl n ↦ absurd (nothing_prepared requested s scope n)
          | inr f ↦ frozen f
        ]

-- A repair whose targets are asked for by name has targets of its own project only, the platform's
-- repair too.
pub prepare_recovery-IsOwn :
    (env : Env) (locks : Locks) (spec : Spec) (project : String) (repairs ids : List String)
    (s : State) (scope : Scope)
    → (prepare_recovery env locks spec project repairs (listed ids) s).0 ≡ ok (some scope)
    → All (IsOwn spec project repairs (keep is_faulty s.resources) s.jobs) scope.recovery_targets
prepare_recovery-IsOwn env locks spec project repairs ids s scope h =
    let (targets, t, e) = prepared env locks spec project repairs (listed ids) s scope h in
    let rows = keep is_faulty s.resources in
    let own =
      All-map (λ id p. p.1) targets
        (listed-IsTarget spec project repairs rows s.jobs ids targets s t) in
    subst (λ (x : Scope). All (IsOwn spec project repairs rows s.jobs) x.recovery_targets) e
      (All-sorted (IsOwn spec project repairs rows s.jobs) targets own)
