-- ===== src/Elf/Stubs/Callers.antt =====
-- The branches to an address, under the search of elf_plt.py.
use android_workbench.Prelude.{
  ℕ, zero, suc, ◌+◌, ◌*◌, ◌/◌, ◌%◌, ◌^◌, ◌<◌, ◌≤◌, Option, some, Bool, true, false, ◌&&◌, List, [],
  ◌∷◌, length, Any, eqb_iff, ltb, ltb→lt, lt→ltb, ◌≡◌, ◌⊎◌, inl, inr, refl, ap, sym, subst, ◌∙◌,
  arith, Bool-cases,
}
use android_workbench.Dex.Bytes.{u32}
use android_workbench.Elf.Words.{is_branch, branch_to}
use android_workbench.Elf.Words.Fields.{wrapped, branch, branch_to-branch}
use android_workbench.Elf.Stubs.{leads_to, calls_at, next_hits, callers_from, branch_callers_arm64}
use android_workbench.Elf.Stubs.Written.{u32-inside}

-- The call is among the hits, or there are as many as were wanted.
abbrev pub FoundOrFull : ℕ → ℕ → List ℕ → Type 0
FoundOrFull va limit hits = Any (λ h. h ≡ va) hits ⊎ (limit ≤ length hits)

module _ (d : List ℕ) (target : ℕ) where
  calls_at-inside :
      (va at : ℕ) → at + 4 ≤ length d → (hit : Bool) × (calls_at d target va at ≡ some hit)
  unfolding calls_at
  calls_at-inside va at h =
      let (w, e) = u32-inside d at h in (is_branch w && leads_to (branch_to w va) target, rw e refl)

  calls_at-branch :
      (va at op : ℕ)
      → (op ≡ 37) ⊎ (op ≡ 5)
      → va % 4 ≡ target % 4
      → target / 4 < va / 4 + 2 ^ 25
      → va / 4 ≤ target / 4 + 2 ^ 25
      → u32 d at ≡ some (branch op (wrapped 26 (target / 4) (va / 4)))
      → calls_at d target va at ≡ some true
  unfolding calls_at
  calls_at-branch va at op o a b c w =
      let imm = wrapped 26 (target / 4) (va / 4) in
      let top : branch op imm / 2 ^ 26 ≡ op = omega arith in
      let is : is_branch (branch op imm) ≡ true = rw top (ground arith) in
      rw (w, is, branch_to-branch op va target a b c) (ap some ((eqb_iff target target).1 refl))

  module _ (base foff fsz : ℕ) (inside : foff + fsz ≤ length d) where
    callers : ℕ → ℕ → ℕ → Option (List ℕ)
    callers fuel off limit = callers_from fuel d target base foff fsz off limit

    callers-stop :
        (fuel off limit : ℕ) → ltb (off + 4) fsz ≡ false → callers (suc fuel) off limit ≡ some []
    unfolding callers callers_from
    callers-stop fuel off limit e = rw e refl

    callers-round :
        (fuel off limit : ℕ) (hit : Bool)
        → ltb (off + 4) fsz ≡ true
        → calls_at d target (base + off) (foff + off) ≡ some hit
        → callers (suc fuel) off limit
          ≡ next_hits hit (base + off) limit (λ l. callers fuel (off + 4) l)
    unfolding callers callers_from
    callers-round fuel off limit hit e f = rw (e, f) refl

    next_hits-returns :
        (hit : Bool) (va limit : ℕ) (rest : ℕ → Option (List ℕ))
        → ((l : ℕ) → (hits : List ℕ) × (rest l ≡ some hits))
        → (hits : List ℕ) × (next_hits hit va limit rest ≡ some hits)
    next_hits-returns false va limit rest r = r limit
    next_hits-returns true va zero rest r = (va ∷ [], refl)
    next_hits-returns true va (suc zero) rest r = (va ∷ [], refl)
    next_hits-returns true va (suc (suc limit)) rest r =
        let (hits, e) = r (suc limit) in (va ∷ hits, rw e refl)

    callers-returns : (fuel off limit : ℕ) → (hits : List ℕ) × (callers fuel off limit ≡ some hits)
    unfolding callers callers_from
    callers-returns zero off limit = ([], refl)
    callers-returns (suc fuel) off limit = elim (Bool-cases (ltb (off + 4) fsz)) [
      | inr done ↦ ([], callers-stop fuel off limit done)
      | inl more ↦
          let (hit, f) =
            calls_at-inside (base + off) (foff + off) (omega (arith, ltb→lt (off + 4) fsz more)) in
          let (hits, e) =
            next_hits-returns hit (base + off) limit (λ l. callers fuel (off + 4) l)
              (callers-returns fuel (off + 4)) in
          (hits, callers-round fuel off limit hit more f ∙ e)
    ]

    -- A hit of this round is there; a later one, if the limit leaves room for it.
    next_hits-here :
        (va limit : ℕ) (rest : ℕ → Option (List ℕ))
        → ((l : ℕ) → (hits : List ℕ) × (rest l ≡ some hits))
        → (hits : List ℕ) × (next_hits true va limit rest ≡ some hits) × FoundOrFull va limit hits
    next_hits-here va zero rest r = (va ∷ [], refl, inl (inl refl))
    next_hits-here va (suc zero) rest r = (va ∷ [], refl, inl (inl refl))
    next_hits-here va (suc (suc limit)) rest r =
        let (hits, e) = r (suc limit) in (va ∷ hits, rw e refl, inl (inl refl))

    next_hits-later :
        (hit : Bool) (va v limit : ℕ) (rest : ℕ → Option (List ℕ))
        → ((l : ℕ) → (hits : List ℕ) × (rest l ≡ some hits) × FoundOrFull v l hits)
        → (hits : List ℕ) × (next_hits hit va limit rest ≡ some hits) × FoundOrFull v limit hits
    next_hits-later false va v limit rest r = r limit
    next_hits-later true va v zero rest r = (va ∷ [], refl, inr (omega arith))
    next_hits-later true va v (suc zero) rest r = (va ∷ [], refl, inr (omega arith))
    next_hits-later true va v (suc (suc limit)) rest r =
        let (hits, e, f) = r (suc limit) in
        (va ∷ hits, rw e refl, elim f [ inl a ↦ inl (inr a) | inr full ↦ inr (omega arith) ])

    callers-finds :
        (fuel off steps at limit : ℕ)
        → fsz ≤ off + fuel
        → at ≡ off + 4 * steps
        → at + 4 < fsz
        → calls_at d target (base + at) (foff + at) ≡ some true
        → (hits : List ℕ) × (callers fuel off limit ≡ some hits)
          × FoundOrFull (base + at) limit hits
    callers-finds zero off steps at limit f e h w = absurd (omega arith)
    callers-finds (suc fuel) off zero at limit f e h w =
        let here : at ≡ off = omega arith in
        let w' = subst (λ q. calls_at d target (base + q) (foff + q) ≡ some true) here w in
        let (hits, r, a) =
          next_hits-here (base + off) limit (λ l. callers fuel (off + 4) l)
            (callers-returns fuel (off + 4)) in
        (
          hits,
          callers-round fuel off limit true (lt→ltb (off + 4) fsz (omega arith)) w' ∙ r,
          subst (λ q. FoundOrFull (base + q) limit hits) (sym here) a,
        )
    callers-finds (suc fuel) off (suc steps) at limit f e h w =
        let (hit, g) = calls_at-inside (base + off) (foff + off) (omega arith) in
        let (hits, r, a) =
          next_hits-later hit (base + off) (base + at) limit (λ l. callers fuel (off + 4) l)
            (λ l. callers-finds fuel (off + 4) steps at l (omega arith) (omega arith) h w) in
        (hits, callers-round fuel off limit hit (lt→ltb (off + 4) fsz (omega arith)) g ∙ r, a)

-- If the segment lies in the file, then the search returns, and a B or BL that stands in the segment at a
-- multiple of four bytes, ends before its last byte and leads to the address, up to 128 MiB away, is
-- among the hits, unless there are as many hits as the limit allows.
pub branch_callers_arm64-branch :
    (d : List ℕ) (base foff fsz target limit steps op : ℕ)
    → foff + fsz ≤ length d
    → 4 * steps + 4 < fsz
    → (op ≡ 37) ⊎ (op ≡ 5)
    → (base + 4 * steps) % 4 ≡ target % 4
    → target / 4 < (base + 4 * steps) / 4 + 2 ^ 25
    → (base + 4 * steps) / 4 ≤ target / 4 + 2 ^ 25
    → u32 d (foff + 4 * steps) ≡ some (branch op (wrapped 26 (target / 4) ((base + 4 * steps) / 4)))
    → (hits : List ℕ) × (branch_callers_arm64 d base foff fsz target limit ≡ some hits)
      × FoundOrFull (base + 4 * steps) limit hits
unfolding branch_callers_arm64 callers
branch_callers_arm64-branch d base foff fsz target limit steps op inside h o a b c w =
    callers-finds d target base foff fsz inside fsz 0 steps (4 * steps) limit (omega arith)
      (omega arith) h (calls_at-branch d target (base + 4 * steps) (foff + 4 * steps) op o a b c w)
