-- ===== src/Prelude/Lists.antt =====
-- Lists over the native numbers, and predicates over a list that compute to tuples.
use Prim.Native.Nat.{ℕ, zero, suc, ◌+◌}
use mathlib.Core.Path.{◌≡◌, refl, sym, subst, ◌∙◌}
use mathlib.Core.Logic.{◌⊎◌, inl, inr}
use mathlib.Core.Bool.{Bool, true, false, ◌&&◌, ◌||◌, false≢true}
use mathlib.Core.Option.{Option, none, some}
use mathlib.Core.List.{List, [], ◌∷◌, ◌++◌}
use native.Mathlib.Omega.{arith}
use package.android_workbench.Prelude.Tests.{if◌then◌else◌, Bool-cases}

module _ {ℓ} {A : Type ℓ} where
  abbrev pub length : List A → ℕ
  length [] = 0
  length (x ∷ xs) = suc (length xs)

  abbrev pub take : ℕ → List A → List A
  take zero xs = []
  take (suc n) [] = []
  take (suc n) (x ∷ xs) = x ∷ take n xs

  abbrev pub drop : ℕ → List A → List A
  drop zero xs = xs
  drop (suc n) [] = []
  drop (suc n) (x ∷ xs) = drop n xs

  abbrev pub get_elem? : List A → ℕ → Option A
  get_elem? [] i = none
  get_elem? (x ∷ xs) zero = some x
  get_elem? (x ∷ xs) (suc i) = get_elem? xs i

  -- `any(p(x) for x in xs)`
  abbrev pub any : (A → Bool) → List A → Bool
  any p [] = false
  any p (x ∷ xs) = p x || any p xs

  abbrev pub all : (A → Bool) → List A → Bool
  all p [] = true
  all p (x ∷ xs) = p x && all p xs

  -- `[x for x in xs if p(x)]`
  abbrev pub keep : (A → Bool) → List A → List A
  keep p [] = []
  keep p (x ∷ xs) = if p x then x ∷ keep p xs else keep p xs

  -- `next((x for x in xs if p(x)), None)`
  abbrev pub first : (A → Bool) → List A → Option A
  first p [] = none
  first p (x ∷ xs) = if p x then some x else first p xs

  abbrev pub count : (A → Bool) → List A → ℕ
  count p [] = 0
  count p (x ∷ xs) = if p x then suc (count p xs) else count p xs

  -- Every item satisfies the predicate; some item does.
  abbrev pub All {κ} : (A → Type κ) → List A → Type κ
  All P [] = Unit
  All P (x ∷ xs) = P x × All P xs

  abbrev pub Any : (A → Type 0) → List A → Type 0
  Any P [] = ⊥
  Any P (x ∷ xs) = P x ⊎ Any P xs

  pub length-append : (xs ys : List A) → length (xs ++ ys) ≡ length xs + length ys
  length-append [] ys = omega arith
  length-append (x ∷ xs) ys = omega (arith, length-append xs ys)

  pub keep-All : (p : A → Bool) (xs : List A) → All (λ x. p x ≡ true) (keep p xs)
  keep-All p [] = tt
  keep-All p (x ∷ xs) = ground (arith, keep-All p xs)

  pub All-map {κ μ} :
      {P : A → Type κ} {Q : A → Type μ}
      → ((x : A) → P x → Q x)
      → (xs : List A) → All P xs
      → All Q xs
  All-map f [] h = tt
  All-map f (x ∷ xs) h = (f x h.0, All-map f xs h.1)

  pub All-keep {κ} : (P : A → Type κ) (p : A → Bool) (xs : List A) → All P xs → All P (keep p xs)
  All-keep P p [] h = tt
  All-keep P p (x ∷ xs) h = elim (Bool-cases (p x)) [
    | inl e ↦ rw e (h.0, All-keep P p xs h.1)
    | inr e ↦ rw e (All-keep P p xs h.1)
  ]

  -- What holds of the kept items holds of every item that passes the test.
  pub All-keep_of {κ} :
      (P : A → Type κ) (p : A → Bool) (xs : List A)
      → All P (keep p xs)
      → All (λ x. p x ≡ true → P x) xs
  All-keep_of P p [] h = tt
  All-keep_of P p (x ∷ xs) h = elim (Bool-cases (p x)) [
    | inl e ↦ let k = rw e at h in ((λ _. k.0), All-keep_of P p xs k.1)
    | inr e ↦ ((λ q. absurd (false≢true (sym e ∙ q))), All-keep_of P p xs (rw e at h))
  ]

  pub All-take {κ} : (P : A → Type κ) (n : ℕ) (xs : List A) → All P xs → All P (take n xs)
  All-take P zero xs h = tt
  All-take P (suc n) [] h = tt
  All-take P (suc n) (x ∷ xs) h = (h.0, All-take P n xs h.1)

  -- A test that some item passes keeps an item.
  pub keep-cons :
      (p : A → Bool) (xs : List A)
      → any p xs ≡ true
      → (y : A) × (ys : List A) × (keep p xs ≡ y ∷ ys)
  keep-cons p [] h = absurd (false≢true h)
  keep-cons p (x ∷ xs) h = elim (Bool-cases (p x)) [
    | inl e ↦ (x, keep p xs, rw e)
    | inr e ↦ let k = keep-cons p xs (rw e at h) in (k.0, k.1, rw e (k.2))
  ]

  pub All-both {κ μ} :
      (P : A → Type κ) (Q : A → Type μ) (xs : List A)
      → All P xs
      → All Q xs
      → All (λ x. P x × Q x) xs
  All-both P Q [] h k = tt
  All-both P Q (x ∷ xs) h k = ((h.0, k.0), All-both P Q xs h.1 k.1)

module _ {A : Type 0} where
  keep-more :
      (P : A → Type 0) (p : A → Bool) (x : A) (xs : List A)
      → Any P (keep p xs)
      → Any P (keep p (x ∷ xs))
  keep-more P p x xs h = elim (Bool-cases (p x)) [ inl e ↦ rw e (inr h) | inr e ↦ rw e h ]

  -- Every item that passes the test is kept.
  pub keep-has :
      (p : A → Bool) (xs : List A) → All (λ x. p x ≡ true → Any (λ y. y ≡ x) (keep p xs)) xs
  keep-has p [] = tt
  keep-has p (x ∷ xs) = (
    (λ t. rw t (inl refl)),
    All-map (λ y h t. keep-more (λ z. z ≡ y) p x xs (h t)) xs (keep-has p xs),
  )

  -- Every item is among the items.
  pub All-here : (xs : List A) → All (λ x. Any (λ y. y ≡ x) xs) xs
  All-here [] = tt
  All-here (x ∷ xs) = (inl refl, All-map (λ y h. inr h) xs (All-here xs))

  -- What holds of every item holds of one that is among them.
  pub All-Any : (P : A → Type 0) (x : A) (xs : List A) → All P xs → Any (λ y. y ≡ x) xs → P x
  All-Any P x [] h k = absurd k
  All-Any P x (y ∷ ys) h (inl e) = subst P e h.0
  All-Any P x (y ∷ ys) h (inr k) = All-Any P x ys h.1 k
