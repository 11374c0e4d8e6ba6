-- ===== src/Resource/Laws.antt =====
-- workbench/common.py: what `overlap` and `conflict` decide.
use android_workbench.Prelude.{
  ℕ, String, Option, none, some, Bool, true, false, ◌||◌, List, [], ◌∷◌, any, ◌==◌, eq_iff, ◌≡◌,
  refl, ◌↔◌, ◌⊎◌, inl, inr, arith, Bool-cases, keep, sym, ap, ◌∙◌,
}
use mathlib.Core.Path.{fun_ext}
use android_workbench.Resource.{
  Resource, overlap, conflict, clash, Overlaps, path_text, path_overlap, pure_path, is_relative_to,
  is_relative_to_iff, Below,
}

or_true : (a b : Bool) → ((a || b) ≡ true) ↔ ((a ≡ true) ⊎ (b ≡ true))
or_true true b = ground arith
or_true false b = ground arith

Below-iff :
    (p q : List ℕ)
    → (path_overlap (some p) (some q) ≡ true)
      ↔ (Below (pure_path p) (pure_path q) ⊎ Below (pure_path q) (pure_path p))
unfolding path_overlap
Below-iff p q =
    let x = pure_path p in
    let y = pure_path q in
    (
      (λ h. elim ((or_true (is_relative_to x y) (is_relative_to y x)).0 h) [
        | inl e ↦ inl ((is_relative_to_iff x y).0 e)
        | inr e ↦ inr ((is_relative_to_iff y x).0 e)
      ]),
      (λ d. (or_true (is_relative_to x y) (is_relative_to y x)).1 (elim d [
        | inl e ↦ inl ((is_relative_to_iff x y).1 e)
        | inr e ↦ inr ((is_relative_to_iff y x).1 e)
      ])),
    )

path_overlap_iff :
    (s t : Option (List ℕ))
    → (path_overlap s t ≡ true) ↔ (
        (p : List ℕ) × (q : List ℕ) × (s ≡ some p)
        × (t ≡ some q)
        × (Below (pure_path p) (pure_path q) ⊎ Below (pure_path q) (pure_path p)))
path_overlap_iff none t = (unfold path_overlap in (λ h. cc), (λ h. cc (h.2)))
path_overlap_iff (some p) none = (unfold path_overlap in (λ h. cc), (λ h. cc (h.3)))
path_overlap_iff (some p) (some q) = (
  (λ h. (p, q, refl, refl, (Below-iff p q).0 h)),
  (λ h. rw (h.2, h.3) ((Below-iff h.0 h.1).1 h.4)),
)

-- Two keys overlap exactly if they are equal, or both name a path and one path is the other or
-- lies below it.
pub overlap_iff : (a b : String) → (overlap a b ≡ true) ↔ Overlaps a b
unfolding overlap
overlap_iff a b = elim (Bool-cases (a == b)) [
  | inl e ↦ ((λ h. inl ((eq_iff a b).0 e)), (λ h. rw e))
  | inr e ↦ (
    (λ h. inr ((path_overlap_iff (path_text a) (path_text b)).0 (rw e at h))),
    (λ d. elim d [
      | inl p ↦ rw ((eq_iff a b).1 p)
      | inr q ↦ rw e ((path_overlap_iff (path_text a) (path_text b)).1 q)
    ]),
  )
]

or_comm : (a b : Bool) → (a || b) ≡ (b || a)
or_comm true b = ground arith
or_comm false b = ground arith

path_overlap_comm : (s t : Option (List ℕ)) → path_overlap s t ≡ path_overlap t s
unfolding path_overlap
path_overlap_comm none none = refl
path_overlap_comm none (some q) = refl
path_overlap_comm (some p) none = refl
path_overlap_comm (some p) (some q) = ground arith

pub overlap_comm : (a b : String) → overlap a b ≡ overlap b a
unfolding overlap
overlap_comm a b =
    ground (arith, eq_iff a b, eq_iff b a, path_overlap_comm (path_text a) (path_text b))

clash_comm : (x y : Resource) → clash x y ≡ clash y x
clash_comm x y = ground (arith, overlap_comm x.key y.key)

any-or {ℓ} :
    {A : Type ℓ} (p q : A → Bool) (xs : List A) → any (λ x. p x || q x) xs ≡ (any p xs || any q xs)
any-or p q [] = refl
any-or p q (x ∷ xs) = ground (arith, any-or p q xs)

any-false {ℓ} : {A : Type ℓ} (xs : List A) → any (λ x. false) xs ≡ false
any-false [] = refl
any-false (x ∷ xs) = any-false xs

any-any_comm {ℓ} :
    {A B : Type ℓ} (p : A → B → Bool) (xs : List A) (ys : List B)
    → any (λ x. any (p x) ys) xs ≡ any (λ y. any (λ x. p x y) xs) ys
any-any_comm p [] ys = sym (any-false ys)
any-any_comm p (x ∷ xs) ys =
    rw (any-or (p x) (λ y. any (λ x'. p x' y) xs) ys)
      (ap (λ b. any (p x) ys || b) (any-any_comm p xs ys))

-- Whether two tasks exclude each other does not depend on which one is asked first.
pub conflict_comm : (a b : List Resource) → conflict a b ≡ conflict b a
unfolding conflict
conflict_comm a b =
    any-any_comm clash a b
    ∙ ap (λ (f : Resource → Resource → Bool). any (λ y. any (λ x. f x y) a) b)
        (fun_ext (λ x. fun_ext (λ y. clash_comm x y)))

-- Dropping resources from one side keeps two tasks compatible.
pub conflict-keep :
    (p : Resource → Bool) (a b : List Resource)
    → conflict a b ≡ false
    → conflict (keep p a) b ≡ false
unfolding conflict
conflict-keep p [] b h = refl
conflict-keep p (x ∷ xs) b h = ground (arith, conflict-keep p xs b)
