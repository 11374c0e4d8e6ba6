-- ===== src/Resource/Paths.antt =====
-- The part of pathlib's PurePosixPath on which workbench/common.py rests: how a text is taken
-- apart, and `is_relative_to`.
use android_workbench.Prelude.{
  ℕ, Bool, true, false, not, ◌&&◌, List, [], ◌∷◌, ◌++◌, keep, eqb, codes, codes_eq, if◌then◌else◌,
  ◌≡◌, refl, ◌↔◌, arith, Bool-cases, inl, inr,
}

-- The slashes of the root (none, one or two) and the parts below it.
pub record PurePath : Type 0 where
  pub root : ℕ
  pub parts : List (List ℕ)

-- `text.split("/")`, with the part that is being read.
split_slash : List ℕ → List ℕ → List (List ℕ)
split_slash part [] = part ∷ []
split_slash part (c ∷ s) = elim (eqb c b'/') [
  | true ↦ part ∷ split_slash [] s
  | false ↦ split_slash (part ++ c ∷ []) s
]

-- Two leading slashes are a root of their own; three or more are one.
root_of : List ℕ → ℕ
root_of (a ∷ b ∷ c ∷ s) =
    if eqb a b'/' then (if eqb b b'/' then (if eqb c b'/' then 1 else 2) else 1) else 0
root_of (a ∷ b ∷ []) = if eqb a b'/' then (if eqb b b'/' then 2 else 1) else 0
root_of (a ∷ []) = if eqb a b'/' then 1 else 0
root_of [] = 0

is_part : List ℕ → Bool
is_part part = not (codes_eq part []) && not (codes_eq part (codes "."))

unfoldable pub pure_path : List ℕ → PurePath
unfolding split_slash root_of is_part
pure_path text = record { root = root_of text; parts = keep is_part (split_slash [] text) }

is_prefix : List (List ℕ) → List (List ℕ) → Bool
is_prefix [] ys = true
is_prefix (x ∷ xs) [] = false
is_prefix (x ∷ xs) (y ∷ ys) = if codes_eq x y then is_prefix xs ys else false

-- `x.is_relative_to(y)`: `y` is `x` or one of its parents.
unfoldable pub is_relative_to : PurePath → PurePath → Bool
unfolding is_prefix
is_relative_to x y = eqb x.root y.root && is_prefix y.parts x.parts

codes_eq_iff : (a b : List ℕ) → (codes_eq a b ≡ true) ↔ (a ≡ b)
codes_eq_iff [] [] = ((λ _. refl), (λ _. refl))
codes_eq_iff [] (b ∷ bs) = ground arith
codes_eq_iff (a ∷ as') [] = ground arith
codes_eq_iff (a ∷ as') (b ∷ bs) = ground (arith, codes_eq_iff as' bs)

is_prefix-split :
    (xs ys : List (List ℕ)) → is_prefix xs ys ≡ true → (rest : List (List ℕ)) × (ys ≡ xs ++ rest)
unfolding is_prefix
is_prefix-split [] ys h = (ys, refl)
is_prefix-split (x ∷ xs) [] h = ground arith
is_prefix-split (x ∷ xs) (y ∷ ys) h = elim (Bool-cases (codes_eq x y)) [
  | inl e ↦
      let ih = is_prefix-split xs ys (rw e at h) in (ih.0, ground (arith, codes_eq_iff x y, ih.1))
  | inr e ↦ ground arith
]

is_prefix-append : (xs rest : List (List ℕ)) → is_prefix xs (xs ++ rest) ≡ true
unfolding is_prefix
is_prefix-append [] rest = refl
is_prefix-append (x ∷ xs) rest = ground (arith, codes_eq_iff x x, is_prefix-append xs rest)

-- The path is the other one or lies below it.
abbrev pub Below : PurePath → PurePath → Type 0
Below x y = (x.root ≡ y.root) × ((rest : List (List ℕ)) × (x.parts ≡ y.parts ++ rest))

-- A path is relative to another exactly if they have one root and its parts begin with the other's.
pub is_relative_to_iff : (x y : PurePath) → (is_relative_to x y ≡ true) ↔ Below x y
unfolding is_relative_to
is_relative_to_iff x y = (
  (λ h. (ground arith, is_prefix-split y.parts x.parts (ground arith))),
  (λ h. rw h.1.1 (ground (arith, h.0, is_prefix-append y.parts h.1.0))),
)
