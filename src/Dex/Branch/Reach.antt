-- ===== src/Dex/Branch/Reach.antt =====
-- The distance that a branch carries, and where it leads.
use android_workbench.Prelude.{
  ℕ, suc, leb, leb→le, Bool-cases, inl, inr, ◌+◌, ◌-◌, ◌*◌, ◌^◌, ◌<◌, some, true, List, get_elem?,
  ltb, eqb, ◌||◌, ◌≡◌, refl, ap, arith, ℤ, pos, negsuc,
}
use android_workbench.Dex.Bytes.{u16, u32, s16, signed}
use android_workbench.Dex.Decode.{Insn}
use android_workbench.Dex.Branch.{shifted, is_if, branch_target}

-- A distance as a two's complement number, where `half` is 2 to the bits but one, if it fits.
abbrev pub complement : ℕ → ℤ → ℕ
complement half (pos n) = n
complement half (negsuc n) = 2 * half - 1 - n

abbrev pub Spans : ℕ → ℤ → Type 0
Spans half (pos n) = n < half
Spans half (negsuc n) = n < half

signed-complement :
    (half : ℕ) (distance : ℤ)
    → Spans half distance
    → signed half (complement half distance) ≡ distance
signed-complement half (pos n) h = ground arith
signed-complement half (negsuc n) h =
    let over : ltb (half - 1) (2 * half - 1 - n) ≡ true = ground arith in
    let back : 2 * half - 1 - (2 * half - 1 - n) ≡ n = omega arith in rw (over, back) refl

-- The instruction is a branch whose operand is the distance: a signed byte for `goto`, four for
-- `goto/32`, and two for `goto/16` and the conditional ones.
pub data Carries (d : List ℕ) (insn : Insn) (distance : ℤ) : Type 0 where
  in_one :
      insn.op ≡ 40
      → Spans (2 ^ 7) distance
      → get_elem? insn.raw 1 ≡ some (complement (2 ^ 7) distance)
      → Carries d insn distance
  in_two :
      (is_if insn.op || eqb insn.op 41) ≡ true
      → Spans (2 ^ 15) distance
      → u16 d (insn.off + 2) ≡ some (complement (2 ^ 15) distance)
      → Carries d insn distance
  in_four :
      insn.op ≡ 42
      → Spans (2 ^ 31) distance
      → u32 d (insn.off + 2) ≡ some (complement (2 ^ 31) distance)
      → Carries d insn distance

-- The target lies the distance, in units of two bytes, from the place; before the start of the file
-- it is negative.
abbrev pub Leads : ℕ → ℤ → ℤ → Type 0
Leads from (pos n) (pos t) = t ≡ from + 2 * n
Leads from (pos n) (negsuc t) = ⊥
Leads from (negsuc n) (pos t) = t + 2 * (n + 1) ≡ from
Leads from (negsuc n) (negsuc t) = from + (t + 1) ≡ 2 * (n + 1)

shifted-Leads : (from : ℕ) (distance : ℤ) → Leads from distance (shifted from distance)
shifted-Leads from (pos n) = omega arith
shifted-Leads from (negsuc n) = elim (Bool-cases (leb (suc n * 2) from)) [
  | inl e ↦ let le = leb→le (suc n * 2) from e in rw e (omega (arith, le))
  | inr e ↦ rw e (ground arith)
]

-- A branch that carries a distance, forward or backward, has a target, which lies as many units from
-- the place of the branch.
pub branch_target-Carries :
    (d : List ℕ) (insn : Insn) (distance : ℤ)
    → Carries d insn distance
    → (t : ℤ) × (branch_target d insn ≡ some (some t)) × Leads insn.off distance t
unfolding branch_target s16
branch_target-Carries d insn distance (in_one o h e) = (
  shifted insn.off distance,
  rw (o, e) (ap (λ x. some (some (shifted insn.off x))) (signed-complement (2 ^ 7) distance h)),
  shifted-Leads insn.off distance,
)
branch_target-Carries d insn distance (in_two o h e) = (
  shifted insn.off distance,
  rw (o, e) (ap (λ x. some (some (shifted insn.off x))) (signed-complement (2 ^ 15) distance h)),
  shifted-Leads insn.off distance,
)
branch_target-Carries d insn distance (in_four o h e) = (
  shifted insn.off distance,
  rw (o, e) (ap (λ x. some (some (shifted insn.off x))) (signed-complement (2 ^ 31) distance h)),
  shifted-Leads insn.off distance,
)
