-- ===== src/Scheduler/Select/Pick.antt =====
-- Which task `select` grants.
use android_workbench.Prelude.{
  ◌≤◌, String, Option, none, some, Bool, true, false, List, [], ◌∷◌, All, Any, All-Any, All-map,
  keep, ltb, ltb→le, ◌==◌, ◌≡◌, ◌≢◌, refl, subst, ap, inl, inr, Bool-cases, All-keep,
}
use native.Mathlib.Nat.{le_trans}
use android_workbench.Scheduler.Model.{Job, Config, Env}
use android_workbench.Scheduler.Choice.{best, older, more_urgent, higher, top_priority}
use android_workbench.Scheduler.Choice.Laws.{
  best-All, best-Greatest, higher-Descends, top_priority-Greatest, Greatest,
}
use android_workbench.Scheduler.Choice.Oldest.{Waited, IsOldest, keep-IsOldest}
use android_workbench.Scheduler.Select.{pick, pick_from, revalidated, by_priority, by_age, aged}

module _ (P : Job → Type 0) where
  by_priority-All : (job : Job) (fresh : List Job) → P job → All P fresh → P (by_priority job fresh)
  by_priority-All job [] p h = p
  by_priority-All job (x ∷ xs) p h = elim (Bool-cases (ltb job.priority (top_priority x xs))) [
    | inl e ↦ rw e (best-All higher P x xs h)
    | inr e ↦ rw e p
  ]

  by_age-All :
      (chosen : String) (job : Job) (fresh old : List Job)
      → P job
      → All P fresh
      → All P old
      → P (by_age chosen job fresh old)
  by_age-All chosen job fresh [] p h o = by_priority-All job fresh p h
  by_age-All chosen job fresh (x ∷ xs) p h o = elim (Bool-cases ((best older x xs).id == chosen)) [
    | inl e ↦ rw e (by_priority-All job fresh p h)
    | inr e ↦ rw e (best-All older P x xs o)
  ]

  abbrev pub Holds : Option Job → Type 0
  Holds none = Unit
  Holds (some j) = P j

  revalidated-Holds :
      (job : Job) (valid : Bool) (fresh : List Job)
      → (valid ≡ true → P job)
      → All P fresh
      → Holds (revalidated job valid fresh)
  revalidated-Holds job true [] p h = p refl
  revalidated-Holds job false [] p h = tt
  revalidated-Holds job true (x ∷ xs) p h = p refl
  revalidated-Holds job false (x ∷ xs) p h = best-All more_urgent P x xs h

  module _ (env : Env) (config : Config) (chosen : String) (fresh : List Job)
      (h : All P fresh) where
    pick_from-Holds : (o : Option Job) → Holds o → Holds (pick_from env config chosen fresh o)
    pick_from-Holds none p = tt
    pick_from-Holds (some job) p =
        by_age-All chosen job fresh (keep (aged env config) fresh) p h
          (All-keep P (aged env config) fresh h)

    -- What holds of the advised task, if it is still valid, and of every fresh task holds of the
    -- task that is granted.
    pub pick-Holds :
        (job : Job) (valid : Bool)
        → (valid ≡ true → P job)
        → Holds (pick env config chosen job valid fresh)
    unfolding pick
    pick-Holds job valid p =
        pick_from-Holds (revalidated job valid fresh) (revalidated-Holds job valid fresh p h)

-- The granted task has the highest priority of all fresh tasks.
abbrev pub Topmost : List Job → Option Job → Type 0
Topmost fresh none = Unit
Topmost fresh (some j) = All (λ k. k.priority ≤ j.priority) fresh

by_priority-Topmost : (job : Job) (fresh : List Job) → Topmost fresh (some (by_priority job fresh))
by_priority-Topmost job [] = tt
by_priority-Topmost job (x ∷ xs) = elim (Bool-cases (ltb job.priority (top_priority x xs))) [
  | inl e ↦
      let top : best higher x xs ≡ by_priority job (x ∷ xs) = rw e in
      subst (Greatest (λ k. k.priority) (x ∷ xs)) top (best-Greatest higher higher-Descends x xs)
  | inr e ↦
      let kept : job ≡ by_priority job (x ∷ xs) = rw e in
      subst (Greatest (λ k. k.priority) (x ∷ xs)) kept (
        All-map (λ k h. le_trans h (ltb→le job.priority (top_priority x xs) e)) (x ∷ xs)
          (top_priority-Greatest x xs))
]

by_age-Topmost :
    (chosen : String) (job : Job) (fresh old : List Job)
    → ((x : Job) (xs : List Job) → old ≡ x ∷ xs → ((best older x xs).id == chosen) ≡ true)
    → Topmost fresh (some (by_age chosen job fresh old))
by_age-Topmost chosen job fresh [] h = by_priority-Topmost job fresh
by_age-Topmost chosen job fresh (x ∷ xs) h =
    let same : by_priority job fresh ≡ by_age chosen job fresh (x ∷ xs) = rw (h x xs refl) in
    subst (Greatest (λ k. k.priority) fresh) same (by_priority-Topmost job fresh)

module _ (env : Env) (config : Config) (chosen : String) (fresh : List Job) where
  pick_from-Topmost :
      ((x : Job) (xs : List Job)
        → keep (aged env config) fresh ≡ x ∷ xs
        → ((best older x xs).id == chosen) ≡ true)
      → (o : Option Job) → Topmost fresh (pick_from env config chosen fresh o)
  pick_from-Topmost h none = tt
  pick_from-Topmost h (some job) = by_age-Topmost chosen job fresh (keep (aged env config) fresh) h

  -- If the advised task is the oldest of the aged ones, or none has aged, then the granted task
  -- has the highest priority of all fresh ones: an aged task of a lower priority is passed over.
  pub pick-Topmost :
      (job : Job) (valid : Bool)
      → ((x : Job) (xs : List Job)
          → keep (aged env config) fresh ≡ x ∷ xs
          → ((best older x xs).id == chosen) ≡ true)
      → Topmost fresh (pick env config chosen job valid fresh)
  unfolding pick
  pick-Topmost job valid h = pick_from-Topmost h (revalidated job valid fresh)

  revalidated-some :
      (job : Job) (valid : Bool) (js : List Job)
      → js ≢ []
      → (first : Job) × (revalidated job valid js ≡ some first)
  revalidated-some job valid [] h = absurd (h refl)
  revalidated-some job true (x ∷ xs) h = (job, refl)
  revalidated-some job false (x ∷ xs) h = (best more_urgent x xs, refl)

  by_age_lem :
      (job : Job) (valid : Bool) (x : Job) (xs : List Job)
      → keep (aged env config) fresh ≡ x ∷ xs
      → ((best older x xs).id == chosen) ≡ false
      → pick env config chosen job valid fresh ≡ some (best older x xs)
  unfolding pick
  by_age_lem job valid x xs e d =
      let (first, f) = revalidated-some job valid fresh (λ n. cc (ap (keep (aged env config)) n)) in
      rw (f, e, d) refl

  -- If some fresh task was created at least `fair_after` ago, and the advised task is none of those
  -- of them that were created first, then one of these is granted, whatever the priorities are: a
  -- fresh task that was created at least `fair_after` ago, and than which no such fresh task was
  -- created earlier.
  pub pick-aged :
      (job : Job) (valid : Bool)
      → Any (Waited config env.now) fresh
      → All (λ k. IsOldest config env.now fresh k → (k.id == chosen) ≡ false) fresh
      → (j : Job) × (pick env config chosen job valid fresh ≡ some j)
        × IsOldest config env.now fresh j
  pick-aged job valid h d =
      let (x, xs, e, oldest) = keep-IsOldest config env.now fresh h in
      let b = best older x xs in
      let other = All-Any _ b fresh d oldest.inside oldest in
      (b, by_age_lem job valid x xs e other, oldest)
