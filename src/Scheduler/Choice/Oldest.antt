-- ===== src/Scheduler/Choice/Oldest.antt =====
-- The task that has waited longest, of those that have waited long enough (service.py 1750-1762 and
-- policy.py 40-43), described without the searches of the code.
use android_workbench.Prelude.{
  ℕ, ◌+◌, ◌≤◌, Bool, true, List, [], ◌∷◌, any, keep, All, All-map, All-keep, All-keep_of, All-here,
  Any, keep-All, keep-cons, leb, leb→le, ◌≡◌, inl, inr, arith,
}
use android_workbench.Scheduler.Model.{Job, Config}
use android_workbench.Scheduler.Choice.{best, older}
use android_workbench.Scheduler.Choice.Laws.{best-Least, best-All, older-Ascends}

-- The task has waited as long as the configuration asks for.
abbrev pub Waited : Config → ℕ → Job → Type 0
Waited config now j = j.created + config.fair_after ≤ now

-- The task is among the tasks, has waited, and no task that has waited was there before it.
pub record IsOldest (config : Config) (now : ℕ) (js : List Job) (j : Job) : Type 0 where
  pub inside : Any (λ k. k ≡ j) js
  pub waited : Waited config now j
  pub first : All (λ k. Waited config now k → j.created ≤ k.created) js

module _ (config : Config) (now : ℕ) where
  abbrev waits : Job → Bool
  waits j = leb (j.created + config.fair_after) now

  waits-Waited : (j : Job) → waits j ≡ true → Waited config now j
  waits-Waited j h = leb→le (j.created + config.fair_after) now h

  Waited-waits : (j : Job) → Waited config now j → waits j ≡ true
  Waited-waits j h = ground (arith, h)

  any-waits : (js : List Job) → Any (Waited config now) js → any waits js ≡ true
  any-waits [] h = absurd h
  any-waits (j ∷ js) (inl h) = ground (arith, Waited-waits j h)
  any-waits (j ∷ js) (inr h) = ground (arith, any-waits js h)

  -- If a task has waited, the search for those that have finds one, and the first of these in the
  -- order of the code is the oldest.
  pub keep-IsOldest :
      (js : List Job)
      → Any (Waited config now) js
      → (x : Job) × (xs : List Job) × (keep waits js ≡ x ∷ xs)
        × IsOldest config now js (best older x xs)
  keep-IsOldest js h =
      let (x, xs, e) = keep-cons waits js (any-waits js h) in
      let kept = rw e at (keep-All waits js) in
      let here = rw e at (All-keep (λ j. Any (λ k. k ≡ j) js) waits js (All-here js)) in
      let b = best older x xs in
      let least : All (λ k. b.created ≤ k.created) (keep waits js) =
        rw e (best-Least older {key = λ j. j.created} older-Ascends x xs) in
      (
        x,
        xs,
        e,
        record {
          inside = best-All older (λ j. Any (λ k. k ≡ j) js) x xs here;
          waited = waits-Waited b (best-All older (λ j. waits j ≡ true) x xs kept);
          first =
              All-map (λ k g w. g (Waited-waits k w)) js
                (All-keep_of (λ k. b.created ≤ k.created) waits js least);
        },
      )
