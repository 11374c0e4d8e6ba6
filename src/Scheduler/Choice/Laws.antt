-- ===== src/Scheduler/Choice/Laws.antt =====
-- What a choice by a key gives.
use android_workbench.Prelude.{
  ℕ, ◌≤◌, Bool, true, false, List, [], ◌∷◌, All, ltb, ◌≡◌, subst, inl, inr, arith, Bool-cases,
}
use native.Mathlib.Nat.{le_refl, le_trans}
use android_workbench.Scheduler.Model.{Job}
use android_workbench.Scheduler.Choice.{
  best, top_priority, older, higher, more_urgent, insert_by, sort_by,
}

-- The order puts smaller values of the key first.
pub record Ascends (before : Job → Job → Bool) (key : Job → ℕ) : Type 0 where
  pub forwards : (a b : Job) → before b a ≡ true → key b ≤ key a
  pub backwards : (a b : Job) → before b a ≡ false → key a ≤ key b

-- The order puts larger values of the key first.
pub record Descends (before : Job → Job → Bool) (key : Job → ℕ) : Type 0 where
  pub forwards : (a b : Job) → before b a ≡ true → key a ≤ key b
  pub backwards : (a b : Job) → before b a ≡ false → key b ≤ key a

abbrev pub Least : (Job → ℕ) → List Job → Job → Type 0
Least key xs b = All (λ y. key b ≤ key y) xs

abbrev pub Greatest : (Job → ℕ) → List Job → Job → Type 0
Greatest key xs b = All (λ y. key y ≤ key b) xs

module _ (before : Job → Job → Bool) where
  -- One round: the item that comes first goes on.
  best-true :
      (x y : Job) (ys : List Job) → before y x ≡ true → best before y ys ≡ best before x (y ∷ ys)
  unfolding best
  best-true x y ys e = rw e

  best-false :
      (x y : Job) (ys : List Job) → before y x ≡ false → best before x ys ≡ best before x (y ∷ ys)
  unfolding best
  best-false x y ys e = rw e

  module _ {key : Job → ℕ} where
    pub best-Least :
        Ascends before key → (x : Job) (xs : List Job) → Least key (x ∷ xs) (best before x xs)
    unfolding best
    best-Least r x [] = (le_refl (key x), tt)
    best-Least r x (y ∷ ys) = elim (Bool-cases (before y x)) [
      | inl e ↦
          let ih = best-Least r y ys in
          subst (Least key (x ∷ y ∷ ys)) (best-true x y ys e) (le_trans ih.0 (r.forwards x y e), ih)
      | inr e ↦
          let ih = best-Least r x ys in
          subst (Least key (x ∷ y ∷ ys)) (best-false x y ys e)
            (ih.0, (le_trans ih.0 (r.backwards x y e), ih.1))
    ]

    pub best-Greatest :
        Descends before key → (x : Job) (xs : List Job) → Greatest key (x ∷ xs) (best before x xs)
    unfolding best
    best-Greatest r x [] = (le_refl (key x), tt)
    best-Greatest r x (y ∷ ys) = elim (Bool-cases (before y x)) [
      | inl e ↦
          let ih = best-Greatest r y ys in
          subst (Greatest key (x ∷ y ∷ ys)) (best-true x y ys e)
            (le_trans (r.forwards x y e) ih.0, ih)
      | inr e ↦
          let ih = best-Greatest r x ys in
          subst (Greatest key (x ∷ y ∷ ys)) (best-false x y ys e)
            (ih.0, (le_trans (r.backwards x y e) ih.0, ih.1))
    ]

  -- What holds of every item holds of the chosen one.
  pub best-All :
      (P : Job → Type 0) (x : Job) (xs : List Job) → All P (x ∷ xs) → P (best before x xs)
  unfolding best
  best-All P x [] h = h.0
  best-All P x (y ∷ ys) h = elim (Bool-cases (before y x)) [
    | inl e ↦ subst P (best-true x y ys e) (best-All P y ys h.1)
    | inr e ↦ subst P (best-false x y ys e) (best-All P x ys (h.0, h.1.1))
  ]

pub older-Ascends : Ascends older (λ j. j.created)
older-Ascends = record { forwards = λ a b h. ground arith; backwards = λ a b h. ground arith }

pub more_urgent-Descends : Descends more_urgent (λ j. j.priority)
more_urgent-Descends = record {
  forwards = λ a b h. ground arith;
  backwards = λ a b h. ground arith;
}

pub higher-Descends : Descends higher (λ j. j.priority)
higher-Descends = record { forwards = λ a b h. ground arith; backwards = λ a b h. ground arith }

by_priority-Descends : Descends (λ a b. ltb b.priority a.priority) (λ j. j.priority)
by_priority-Descends = record {
  forwards = λ a b h. ground arith;
  backwards = λ a b h. ground arith;
}

pub top_priority-Greatest :
    (x : Job) (xs : List Job) → All (λ y. y.priority ≤ top_priority x xs) (x ∷ xs)
unfolding top_priority
top_priority-Greatest x xs =
    best-Greatest (λ a b. ltb b.priority a.priority) by_priority-Descends x xs

module _ (before : Job → Job → Bool) (P : Job → Type 0) where
  All-insert_by : (x : Job) (xs : List Job) → P x → All P xs → All P (insert_by before x xs)
  unfolding insert_by
  All-insert_by x [] p h = (p, tt)
  All-insert_by x (y ∷ ys) p h = elim (Bool-cases (before y x)) [
    | inl e ↦ rw e (h.0, All-insert_by x ys p h.1)
    | inr e ↦ rw e (p, h)
  ]

  -- Sorting keeps what holds of every item.
  pub All-sort_by : (xs : List Job) → All P xs → All P (sort_by before xs)
  unfolding sort_by
  All-sort_by [] h = tt
  All-sort_by (x ∷ xs) h = All-insert_by x (sort_by before xs) h.0 (All-sort_by xs h.1)
