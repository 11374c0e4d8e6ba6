-- ===== src/Policy/Laws.antt =====
-- What `choose` guarantees whatever the model answers.
use android_workbench.Prelude.{
  ℕ, String, Option, none, some, true, refl, not, ◌||◌, List, [], ◌∷◌, Any, All, All-map, All-keep,
  All-take, keep, length, leb, eqb, ◌==◌, eq_iff, eq_refl, ◌≡◌, subst, inl, inr, arith, Bool-cases,
  false≢true,
}
use android_workbench.Scheduler.Model.{Job, Config}
use android_workbench.Scheduler.Choice.{best, older, sort_by, top_priority}
use android_workbench.Scheduler.Choice.Laws.{best-All, All-sort_by}
use android_workbench.Scheduler.Choice.Oldest.{Waited, IsOldest, keep-IsOldest}
use android_workbench.Policy.{
  Policy, ModelConfig, Advice, Chosen, Entry, payload, invoke, choose, consult, checked, recent,
  among, fair_or, shortlist, is_candidate, has_waited, fair_wait_limit,
}

-- The choice names one of the candidates.
abbrev pub Names : List Job → Option Chosen → Type 0
Names js none = Unit
Names js (some c) = is_candidate js c.id ≡ true

All-candidate : (js : List Job) → All (λ j. is_candidate js j.id ≡ true) js
All-candidate [] = tt
All-candidate (x ∷ xs) =
    (ground (arith, eq_refl x.id), All-map (λ j h. ground arith) xs (All-candidate xs))

-- An id that a list of candidates has is an id of the candidates.
candidate_of :
    (js short : List Job) (id : String)
    → All (λ j. is_candidate js j.id ≡ true) short
    → is_candidate short id ≡ true
    → is_candidate js id ≡ true
candidate_of js [] id h k = absurd (false≢true k)
candidate_of js (j ∷ short) id h k = elim (Bool-cases (j.id == id)) [
  | inl e ↦ subst (λ i. is_candidate js i ≡ true) ((eq_iff j.id id).0 e) h.0
  | inr e ↦ candidate_of js short id h.1 (rw e at k)
]

module _ (js : List Job) where
  abbrev Offered : List Job → Type 0
  Offered = All (λ j. is_candidate js j.id ≡ true)

  checked-Offered :
      (fallback : String) (short : List Job) (o : Option Advice)
      → is_candidate js fallback ≡ true
      → Offered short
      → is_candidate js (checked fallback short o).id ≡ true
  checked-Offered fallback short none f h = f
  checked-Offered fallback short (some a) f h = elim (Bool-cases (is_candidate short a.job_id)) [
    | inl e ↦ rw e (candidate_of js short a.job_id h e)
    | inr e ↦ rw e f
  ]

  invoke-Names :
      (ask : List Entry → Option Advice) (p : Policy) (fallback : String) (short : List Job)
      (o : Option (List Entry))
      → is_candidate js fallback ≡ true
      → Offered short
      → Names js (invoke ask p fallback short o).0
  invoke-Names ask p fallback short none f h = tt
  invoke-Names ask p fallback short (some entries) f h =
      checked-Offered fallback short (ask entries) f h

  module _ (model : ModelConfig) (purpose : Job → Option String) (now : ℕ)
      (ask : List Entry → Option Advice) (p : Policy) where
    consult-Names :
        (fallback : String) (short : List Job)
        → is_candidate js fallback ≡ true
        → Offered short
        → Names js (consult model purpose now ask p fallback short).0
    unfolding consult
    consult-Names fallback short f h =
        let none_left =
          not model.configured || leb model.calls_per_hour (length (recent now p.calls)) in
        elim (Bool-cases none_left) [
          | inl e ↦ rw e f
          | inr e ↦ elim (Bool-cases (eqb p.slots 0)) [
            | inl q ↦ rw (e, q) f
            | inr q ↦ rw (e, q) (invoke-Names ask _ fallback short (payload purpose now short) f h)
          ]
        ]

    among-Names :
        (short : List Job) → Offered short → Names js (among model purpose now ask p short).0
    among-Names [] h = tt
    among-Names (x ∷ []) h = h.0
    among-Names (x ∷ y ∷ short) h = consult-Names x.id (x ∷ y ∷ short) h.0 h

  fair_or-Names :
      (old : List Job) (p : Policy) (rest : Option Chosen × Policy)
      → Offered old
      → Names js rest.0
      → Names js (fair_or old p rest).0
  fair_or-Names [] p rest h r = r
  fair_or-Names (x ∷ xs) p rest h r = best-All older (λ j. is_candidate js j.id ≡ true) x xs h

-- What holds of the candidates holds of those that the model sees.
pub All-shortlist :
    (P : Job → Type 0) (config : Config) (x : Job) (xs : List Job)
    → All P (x ∷ xs)
    → All P (shortlist config x xs)
unfolding shortlist
All-shortlist P config x xs h =
    let top = λ (j : Job). eqb j.priority (top_priority x xs) in
    All-take P config.candidate_limit (sort_by older (keep top (x ∷ xs)))
      (All-sort_by older P (keep top (x ∷ xs)) (All-keep P top (x ∷ xs) h))

module _ (config : Config) (model : ModelConfig) (purpose : Job → Option String) (now : ℕ)
    (ask : List Entry → Option Advice) where
  -- Whatever the model answers, a choice is one of the candidates that the scheduler offered.
  pub choose-Names :
      (p : Policy) (x : Job) (xs : List Job)
      → Names (x ∷ xs) (choose config model purpose now ask p x xs).0
  unfolding choose
  choose-Names p x xs =
      let js = x ∷ xs in
      let C = λ (j : Job). is_candidate js j.id ≡ true in
      let offered = All-candidate js in
      fair_or-Names js (keep (has_waited config now) js) p _
        (All-keep C (has_waited config now) js offered)
        (among-Names js model purpose now ask p (shortlist config x xs)
          (All-shortlist C config x xs offered))

  -- If a candidate was created at least `fair_after` ago, then a candidate that was, and than which
  -- no such candidate was created earlier, is chosen for that reason, and neither the model nor the
  -- record of its calls is touched.
  pub choose_fair :
      (p : Policy) (x : Job) (xs : List Job)
      → Any (Waited config now) (x ∷ xs)
      → (j : Job) × (choose config model purpose now ask p x xs
          ≡ (some (record { id = j.id; reason = fair_wait_limit }), p))
        × IsOldest config now (x ∷ xs) j
  unfolding choose
  choose_fair p x xs h =
      let (y, ys, e, oldest) = keep-IsOldest config now (x ∷ xs) h in
      (best older y ys, rw e refl, oldest)
