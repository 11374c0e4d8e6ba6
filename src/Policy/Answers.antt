-- ===== src/Policy/Answers.antt =====
-- That `choose` answers, and with a candidate.
use android_workbench.Prelude.{
  ℕ, zero, suc, ◌≤◌, Bool, String, Option, some, true, not, ◌||◌, List, [], ◌∷◌, keep, keep-cons,
  any, Any, All, All-here, take, length, leb, ltb, eqb, ◌==◌, eq_iff, false≢true, ◌≡◌, refl, subst,
  sym, ap, inl, inr, arith, Bool-cases,
}
use android_workbench.Scheduler.Model.{Job, Config}
use android_workbench.Scheduler.Choice.{best, older, insert_by, sort_by, top_priority}
use android_workbench.Scheduler.Choice.Laws.{best-All}
use android_workbench.Policy.{
  Policy, ModelConfig, Advice, Entry, Chosen, choose, consult, recent, among, fair_or, shortlist,
  is_candidate, has_waited,
}
use android_workbench.Policy.Laws.{Names, choose-Names, All-shortlist}
use android_workbench.Policy.Budget.{HasPurpose, payload-some}

abbrev Returns : Option Chosen → Type 0
Returns o = (c : Chosen) × (o ≡ some c)

-- There is a first item.
abbrev Begins : List Job → Type 0
Begins js = (y : Job) × (ys : List Job) × (js ≡ y ∷ ys)

insert_by-Begins :
    (before : Job → Job → Bool) (x : Job) (js : List Job) → Begins (insert_by before x js)
unfolding insert_by
insert_by-Begins before x [] = (x, [], refl)
insert_by-Begins before x (y ∷ ys) = elim (Bool-cases (before y x)) [
  | inl e ↦ (y, insert_by before x ys, rw e refl)
  | inr e ↦ (x, y ∷ ys, rw e refl)
]

sort_by-Begins :
    (before : Job → Job → Bool) (js : List Job) → Begins js → Begins (sort_by before js)
unfolding sort_by
sort_by-Begins before [] (y, ys, e) = absurd cc
sort_by-Begins before (x ∷ xs) h = insert_by-Begins before x (sort_by before xs)

take-Begins : (n : ℕ) (js : List Job) → 1 ≤ n → Begins js → Begins (take n js)
take-Begins zero js l h = absurd (omega (arith, l))
take-Begins (suc n) js l (y, ys, e) = (y, take n ys, ap (take (suc n)) e)

any-here :
    (p : Job → Bool) (b : Job) (js : List Job) → p b ≡ true → Any (λ k. k ≡ b) js → any p js ≡ true
any-here p b [] h k = absurd k
any-here p b (j ∷ js) h (inl e) = let q = subst (λ k. p k ≡ true) (sym e) h in ground (arith, q)
any-here p b (j ∷ js) h (inr k) = ground (arith, any-here p b js h k)

is_candidate-Any :
    (js : List Job) (id : String) → is_candidate js id ≡ true → Any (λ k. k.id ≡ id) js
is_candidate-Any [] id h = absurd (false≢true h)
is_candidate-Any (j ∷ js) id h = elim (Bool-cases (j.id == id)) [
  | inl e ↦ inl ((eq_iff j.id id).0 e)
  | inr e ↦ inr (is_candidate-Any js id (rw e at h))
]

-- Of candidates there is one that has the highest priority, so that the model sees one at least.
shortlist-Begins :
    (config : Config) (x : Job) (xs : List Job)
    → 1 ≤ config.candidate_limit
    → Begins (shortlist config x xs)
unfolding shortlist top_priority
shortlist-Begins config x xs l =
    let js = x ∷ xs in
    let before = λ (a b : Job). ltb b.priority a.priority in
    let b = best before x xs in
    let top = λ (j : Job). eqb j.priority b.priority in
    let there = best-All before (λ j. Any (λ k. k ≡ j) js) x xs (All-here js) in
    let some_top = any-here top b js (ground arith) there in
    take-Begins config.candidate_limit (sort_by older (keep top js)) l
      (sort_by-Begins older (keep top js) (keep-cons top js some_top))

module _ (model : ModelConfig) (purpose : Job → Option String) (now : ℕ)
    (ask : List Entry → Option Advice) (p : Policy) where
  consult-Returns :
      (fallback : String) (short : List Job)
      → All (HasPurpose purpose) short
      → Returns (consult model purpose now ask p fallback short).0
  unfolding consult
  consult-Returns fallback short h =
      let calls = recent now p.calls in
      let (entries, f) = payload-some purpose now short h in
      elim (Bool-cases (not model.configured || leb model.calls_per_hour (length calls))) [
        | inl e ↦ rw e (_, refl)
        | inr e ↦ elim (Bool-cases (eqb p.slots 0)) [
          | inl q ↦ rw (e, q) (_, refl)
          | inr q ↦ rw (e, q, f) (_, refl)
        ]
      ]

  among-Returns :
      (short : List Job)
      → Begins short
      → All (HasPurpose purpose) short
      → Returns (among model purpose now ask p short).0
  among-Returns [] (y, ys, e) h = absurd cc
  among-Returns (x ∷ []) b h = (_, refl)
  among-Returns (x ∷ y ∷ short) b h = consult-Returns x.id (x ∷ y ∷ short) h

fair_or-Returns :
    (old : List Job) (p : Policy) (rest : Option Chosen × Policy)
    → Returns rest.0
    → Returns (fair_or old p rest).0
fair_or-Returns [] p rest h = h
fair_or-Returns (x ∷ xs) p rest h = (_, refl)

module _ (config : Config) (model : ModelConfig) (purpose : Job → Option String) (now : ℕ)
    (ask : List Entry → Option Advice) (p : Policy) where
  -- If at least one candidate may be shown to the model, and every candidate says what it is for, then
  -- `choose` returns, and the id that it returns is that of a candidate, whatever the model answers,
  -- and if it fails too.
  pub choose_answers :
      (x : Job) (xs : List Job)
      → 1 ≤ config.candidate_limit
      → All (HasPurpose purpose) (x ∷ xs)
      → (c : Chosen) × ((choose config model purpose now ask p x xs).0 ≡ some c)
        × Any (λ k. k.id ≡ c.id) (x ∷ xs)
  unfolding choose
  choose_answers x xs l h =
      let short = shortlist config x xs in
      let (c, e) = fair_or-Returns (keep (has_waited config now) (x ∷ xs)) p _ (
        among-Returns model purpose now ask p short (shortlist-Begins config x xs l)
          (All-shortlist (HasPurpose purpose) config x xs h)) in
      let named = subst (Names (x ∷ xs)) e (choose-Names config model purpose now ask p x xs) in
      (c, e, is_candidate-Any (x ∷ xs) c.id named)
