-- ===== src/Leases/Descent/Closure.antt =====
-- The loop of `descendants` in workbench/common.py finds the family of a process.
use android_workbench.Prelude.{
  ℕ, zero, suc, ◌≤◌, ◌<◌, true, false, not, ◌&&◌, ◌||◌, List, [], ◌∷◌, ◌++◌, length, count, Any,
  eqb, ◌≡◌, ◌⊎◌, inl, inr, ◌↔◌, refl, arith, Bool-cases, sym, ◌∙◌, subst,
}
use android_workbench.Leases.Descent.{Link, owns, extra, close, family}

-- The process has the other one among its ancestors, according to the links.
pub data Descends (links : List Link) (pid : ℕ) : ℕ → Type 0 where
  born : (c : ℕ) → Any (λ l. (l.child ≡ c) × (l.parent ≡ pid)) links → Descends links pid c
  further :
      (c p : ℕ)
      → Descends links pid p
      → Any (λ l. (l.child ≡ c) × (l.parent ≡ p)) links
      → Descends links pid c

owns-append : (xs ys : List ℕ) (c : ℕ) → owns (xs ++ ys) c ≡ (owns xs c || owns ys c)
owns-append [] ys c = refl
owns-append (x ∷ xs) ys c = ground (arith, owns-append xs ys c)

List-cases {ℓ} :
    {A : Type ℓ} (xs : List A) → (xs ≡ []) ⊎ ((x : A) × (rest : List A) × (xs ≡ x ∷ rest))
List-cases [] = inl refl
List-cases (x ∷ xs) = inr (x, xs, refl)

owns-here : (c : ℕ) (xs : List ℕ) → owns (c ∷ xs) c ≡ true
owns-here c xs = ground arith

none_extra : (owned : List ℕ) (c : ℕ) → owns (extra [] owned) c ≡ true → ⊥
unfolding extra
none_extra owned c h = cc

extra_nil : (owned : List ℕ) (x : ℕ) (xs : List ℕ) → extra [] owned ≡ x ∷ xs → ⊥
unfolding extra
extra_nil owned x xs h = cc

owns-left : (xs ys : List ℕ) (c : ℕ) → owns xs c ≡ true → owns (xs ++ ys) c ≡ true
owns-left xs ys c h = ground (arith, owns-append xs ys c)

owns-right : (xs ys : List ℕ) (c : ℕ) → owns ys c ≡ true → owns (xs ++ ys) c ≡ true
owns-right xs ys c h = ground (arith, owns-append xs ys c)

extra-cons :
    (l : Link) (links : List Link) (owned : List ℕ)
    → (owns owned l.parent && not (owns owned l.child)) ≡ true
    → extra (l ∷ links) owned ≡ l.child ∷ extra links owned
unfolding extra
extra-cons l links owned e = rw e refl

extra-skip :
    (l : Link) (links : List Link) (owned : List ℕ)
    → (owns owned l.parent && not (owns owned l.child)) ≡ false
    → extra (l ∷ links) owned ≡ extra links owned
unfolding extra
extra-skip l links owned e = rw e refl

-- A child that is found has an owned parent.
owns-extra :
    (links : List Link) (owned : List ℕ) (c : ℕ)
    → owns (extra links owned) c ≡ true
    → (p : ℕ) × (owns owned p ≡ true) × Any (λ l. (l.child ≡ c) × (l.parent ≡ p)) links
owns-extra [] owned c h = absurd (none_extra owned c h)
owns-extra (l ∷ links) owned c h =
    elim (Bool-cases (owns owned l.parent && not (owns owned l.child))) [
      | inl e ↦ elim (Bool-cases (eqb c l.child)) [
        | inl here ↦ (l.parent, ground arith, inl (ground arith, refl))
        | inr other ↦
            let k : owns (extra links owned) c ≡ true =
              rw (extra-cons l links owned e, other) at h in
            let (p, o, a) = owns-extra links owned c k in (p, o, inr a)
      ]
      | inr e ↦
          let (p, o, a) = owns-extra links owned c (rw (extra-skip l links owned e) at h) in
          (p, o, inr a)
    ]

-- Where no child is found, the owned processes have no child outside.
extra-none :
    (links : List Link) (owned : List ℕ) (c p : ℕ)
    → extra links owned ≡ []
    → Any (λ l. (l.child ≡ c) × (l.parent ≡ p)) links
    → owns owned p ≡ true
    → owns owned c ≡ true
extra-none [] owned c p e a o = absurd a
extra-none (l ∷ links) owned c p e a o =
    elim (Bool-cases (owns owned l.parent && not (owns owned l.child))) [
      | inl more ↦ cc (extra-cons l links owned more)
      | inr no_more ↦ elim a [
        | inl here ↦ ground arith
        | inr later ↦
            extra-none links owned c p (sym (extra-skip l links owned no_more) ∙ e) later o
      ]
    ]

-- The links whose child is still to be found.
missing : List ℕ → List Link → ℕ
missing owned = count (λ l. not (owns owned l.child))

missing_mono :
    (owned new : List ℕ)
    → ((c : ℕ) → owns owned c ≡ true → owns new c ≡ true)
    → (links : List Link) → missing new links ≤ missing owned links
unfolding missing
missing_mono owned new sub [] = omega arith
missing_mono owned new sub (l ∷ links) =
    ground (arith, sub l.child, missing_mono owned new sub links)

missing-le-length : (owned : List ℕ) (links : List Link) → missing owned links ≤ length links
unfolding missing
missing-le-length owned [] = omega arith
missing-le-length owned (l ∷ links) = ground (arith, missing-le-length owned links)

-- A round that finds a child leaves fewer to be found.
missing_falls :
    (owned new : List ℕ)
    → ((c : ℕ) → owns owned c ≡ true → owns new c ≡ true)
    → (links : List Link) → ((c : ℕ) → owns (extra links owned) c ≡ true → owns new c ≡ true)
    → (x : ℕ) (xs : List ℕ) → extra links owned ≡ x ∷ xs
    → missing new links < missing owned links
unfolding missing
missing_falls owned new sub [] found x xs e = absurd (extra_nil owned x xs e)
missing_falls owned new sub (l ∷ links) found x xs e =
    elim (Bool-cases (owns owned l.parent && not (owns owned l.child))) [
      | inl more ↦
          let k = found l.child (rw (extra-cons l links owned more) (owns-here l.child _)) in
          ground (arith, missing_mono owned new sub links)
      | inr no_more ↦
          let same = extra-skip l links owned no_more in
          let rest =
            missing_falls owned new sub links (λ c h. found c (rw same h)) x xs (sym same ∙ e) in
          ground (arith, sub l.child)
    ]

close-stop :
    (fuel : ℕ) (links : List Link) (owned : List ℕ)
    → extra links owned ≡ []
    → close (suc fuel) links owned ≡ owned
unfolding close
close-stop fuel links owned e = rw (e, close) refl

close-round :
    (fuel : ℕ) (links : List Link) (owned : List ℕ) (x : ℕ) (xs : List ℕ)
    → extra links owned ≡ x ∷ xs
    → close (suc fuel) links owned ≡ close fuel links ((x ∷ xs) ++ owned)
unfolding close
close-round fuel links owned x xs e = rw (e, close) refl

module _ (links : List Link) (pid : ℕ) where
  abbrev Kin : List ℕ → Type 0
  Kin owned = (c : ℕ) → owns owned c ≡ true → (c ≡ pid) ⊎ Descends links pid c

  Kin-round : (owned : List ℕ) → Kin owned → Kin (extra links owned ++ owned)
  Kin-round owned k c h = elim (Bool-cases (owns (extra links owned) c)) [
    | inl new ↦ inr (child_of (owns-extra links owned c new))
    | inr old ↦ k c (ground (arith, owns-append (extra links owned) owned c))
  ]
    where
      child_of :
          (p : ℕ) × (owns owned p ≡ true) × Any (λ l. (l.child ≡ c) × (l.parent ≡ p)) links
          → Descends links pid c
      child_of (p, o, a) = elim (k p o) [
        | inl same ↦ born c (subst (λ q. Any (λ l. (l.child ≡ c) × (l.parent ≡ q)) links) same a)
        | inr below ↦ further c p below a
      ]

  close-Kin : (fuel : ℕ) (owned : List ℕ) → Kin owned → Kin (close fuel links owned)
  unfolding close
  close-Kin zero owned k = k
  close-Kin (suc fuel) owned k = elim (List-cases (extra links owned)) [
    | inl e ↦ rw (close-stop fuel links owned e) k
    | inr (x, xs, e) ↦ rw (close-round fuel links owned x xs e) (
        close-Kin fuel ((x ∷ xs) ++ owned)
          (subst (λ new. Kin (new ++ owned)) e (Kin-round owned k)))
  ]

  close-none :
      (fuel : ℕ) (owned : List ℕ)
      → missing owned links < fuel
      → extra links (close fuel links owned) ≡ []
  close-none zero owned h = absurd (omega arith)
  close-none (suc fuel) owned h = elim (List-cases (extra links owned)) [
    | inl e ↦ rw (close-stop fuel links owned e) e
    | inr (x, xs, e) ↦
        let new = (x ∷ xs) ++ owned in
        let falls =
          missing_falls owned new (owns-right (x ∷ xs) owned) links
            (λ c o. owns-left (x ∷ xs) owned c (rw e at o)) x xs e in
        rw (close-round fuel links owned x xs e) (close-none fuel new (omega arith))
  ]

  close-keeps :
      (fuel : ℕ) (owned : List ℕ) (c : ℕ)
      → owns owned c ≡ true
      → owns (close fuel links owned) c ≡ true
  unfolding close
  close-keeps zero owned c h = h
  close-keeps (suc fuel) owned c h = elim (List-cases (extra links owned)) [
    | inl e ↦ rw (close-stop fuel links owned e) h
    | inr (x, xs, e) ↦
        rw (close-round fuel links owned x xs e)
          (close-keeps fuel ((x ∷ xs) ++ owned) c (owns-right (x ∷ xs) owned c h))
  ]

  family_self : owns (family links pid) pid ≡ true
  unfolding family
  family_self = close-keeps (suc (length links)) (pid ∷ []) pid (owns-here pid [])

  -- The fuel is enough: nothing is left to be found.
  family-closed : extra links (family links pid) ≡ []
  unfolding family
  family-closed =
      close-none (suc (length links)) (pid ∷ []) (omega (arith, missing-le-length (pid ∷ []) links))

  complete : {c : ℕ} → Descends links pid c → owns (family links pid) c ≡ true
  complete (born c a) = extra-none links (family links pid) c pid family-closed a family_self
  complete (further c p d a) = extra-none links (family links pid) c p family-closed a (complete d)

  sound : Kin (family links pid)
  unfolding family
  sound = close-Kin (suc (length links)) (pid ∷ []) (λ c h. inl (ground arith))

  -- The loop finds exactly the process and those that descend from it.
  pub family_iff : (c : ℕ) → (owns (family links pid) c ≡ true) ↔ ((c ≡ pid) ⊎ Descends links pid c)
  family_iff c = (sound c, λ d. elim d [ inl e ↦ rw e family_self | inr below ↦ complete below ])
