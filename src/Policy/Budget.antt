-- ===== src/Policy/Budget.antt =====
-- How often `choose` may ask the model, and how often at once.
use android_workbench.Prelude.{
  ℕ, ◌+◌, ◌-◌, ◌≤◌, Bool, String, Option, some, not, ◌||◌, List, [], ◌∷◌, keep, length, All,
  length-append, leb, ltb, eqb, ◌≡◌, refl, inl, inr, arith, Bool-cases,
}
use android_workbench.Scheduler.Model.{Job, Config}
use android_workbench.Policy.{
  Policy, ModelConfig, Advice, Entry, Chosen, entry_of, payload, choose, consult, recent, among,
  fair_or, shortlist, has_waited, hour,
}
use android_workbench.Policy.Laws.{All-shortlist}

-- The places of the semaphore are as many as before, and the calls of an hour stay within the limit.
abbrev pub WithinBudget : ModelConfig → Policy → Policy → Type 0
WithinBudget model p after = (after.slots ≡ p.slots) × (length after.calls ≤ model.calls_per_hour)

length-keep {ℓ} : {A : Type ℓ} (p : A → Bool) (xs : List A) → length (keep p xs) ≤ length xs
length-keep p [] = omega arith
length-keep p (x ∷ xs) = ground (arith, length-keep p xs)

-- The row says what the task is for.
abbrev pub HasPurpose : (Job → Option String) → Job → Type 0
HasPurpose purpose j = (text : String) × (purpose j ≡ some text)

module _ (purpose : Job → Option String) (now : ℕ) where
  pub payload-some :
      (js : List Job)
      → All (HasPurpose purpose) js
      → (entries : List Entry) × (payload purpose now js ≡ some entries)
  payload-some [] h = ([], refl)
  payload-some (j ∷ js) ((text, e), h) =
      let (entries, f) = payload-some js h in (entry_of now j text ∷ entries, rw (e, f) refl)

  module _ (model : ModelConfig) (ask : List Entry → Option Advice) (p : Policy) where
    module _ (before : length p.calls ≤ model.calls_per_hour) where
      consult_budget :
          (fallback : String) (short : List Job)
          → All (HasPurpose purpose) short
          → WithinBudget model p (consult model purpose now ask p fallback short).1
      unfolding consult
      consult_budget fallback short h =
          let calls = recent now p.calls in
          let fewer = length-keep (λ t. ltb now (t + hour)) p.calls in
          let (entries, f) = payload-some short h in
          elim (Bool-cases (not model.configured || leb model.calls_per_hour (length calls))) [
            | inl e ↦ rw e (refl, omega (arith, fewer))
            | inr e ↦ elim (Bool-cases (eqb p.slots 0)) [
              | inl q ↦ rw (e, q) (refl, omega (arith, fewer))
              | inr q ↦
                  let back : p.slots - 1 + 1 ≡ p.slots = ground arith in
                  rw (e, q, f) (back, ground (arith, length-append calls (now ∷ [])))
            ]
          ]

      among_budget :
          (short : List Job)
          → All (HasPurpose purpose) short
          → WithinBudget model p (among model purpose now ask p short).1
      among_budget [] h = (refl, before)
      among_budget (x ∷ []) h = (refl, before)
      among_budget (x ∷ y ∷ short) h = consult_budget x.id (x ∷ y ∷ short) h

      fair_or_budget :
          (old : List Job) (rest : Option Chosen × Policy)
          → WithinBudget model p rest.1
          → WithinBudget model p (fair_or old p rest).1
      fair_or_budget [] rest h = h
      fair_or_budget (x ∷ xs) rest h = (refl, before)

    -- If at most the permitted number of calls is on record, and every candidate says what it is for,
    -- then after a choice at most the permitted number of calls is on record, and every place of the
    -- semaphore that the choice took is given back, whether the model answers or fails.
    pub choose_budget :
        (config : Config) (x : Job) (xs : List Job)
        → length p.calls ≤ model.calls_per_hour
        → All (HasPurpose purpose) (x ∷ xs)
        → WithinBudget model p (choose config model purpose now ask p x xs).1
    unfolding choose
    choose_budget config x xs before h =
        fair_or_budget before (keep (has_waited config now) (x ∷ xs)) _ (
          among_budget before (shortlist config x xs)
            (All-shortlist (HasPurpose purpose) config x xs h))
