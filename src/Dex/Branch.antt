-- ===== src/Dex/Branch.antt =====
-- dexutil.py: the targets and registers of branches (`branch_target` 498-515, `branch_regs` 517-523,
-- `all_targets` 525-532).
pub mod Reach
use android_workbench.Prelude.{
  ℕ, suc, ◌+◌, ◌-◌, ◌*◌, ◌/◌, ◌%◌, ◌^◌, Option, none, some, Bool, true, false, ◌&&◌, ◌||◌, List, [],
  ◌∷◌, get_elem?, ltb, leb, eqb, if◌then◌else◌, ℤ, pos, negsuc,
}
use android_workbench.Dex.Bytes.{◌>>=◌, u16, u32, s16, signed}
use android_workbench.Dex.Decode.{Insn, Stop, out_of_range, decode}

-- `pos + off * 2`
abbrev pub shifted : ℕ → ℤ → ℤ
shifted from (pos n) = pos (from + n * 2)
shifted from (negsuc n) =
    if leb (suc n * 2) from then pos (from - suc n * 2) else negsuc (suc n * 2 - from - 1)

-- IF_TEST and IF_TESTZ
abbrev pub is_if : ℕ → Bool
is_if op = leb 50 op && ltb op 62

-- The target of a branch, if it is one; the outer `none` is an IndexError.
unfoldable pub branch_target : List ℕ → Insn → Option (Option ℤ)
branch_target d insn =
    if is_if insn.op || eqb insn.op 41
    then (u16 d (insn.off + 2) >>= λ v. some (some (shifted insn.off (s16 v))))
    else if eqb insn.op 40
    then (get_elem? insn.raw 1 >>= λ v. some (some (shifted insn.off (signed (2 ^ 7) v))))
    else if eqb insn.op 42
    then (u32 d (insn.off + 2) >>= λ v. some (some (shifted insn.off (signed (2 ^ 31) v))))
    else some none

-- The registers that a conditional branch reads, and whether it compares two.
unfoldable pub branch_regs : Insn → Option (List ℕ × Option Bool)
branch_regs insn =
    if leb 50 insn.op && ltb insn.op 56
    then (get_elem? insn.raw 1 >>= λ v. some (v / 16 ∷ v % 16 ∷ [], some true))
    else if leb 56 insn.op && ltb insn.op 62
    then (get_elem? insn.raw 1 >>= λ v. some (v % 16 ∷ [], some false))
    else some ([], none)

abbrev pub add_target : Option ℤ → List ℤ → List ℤ
add_target none targets = targets
add_target (some t) targets = t ∷ targets

abbrev pub targets_of : List ℕ → Stop → List Insn → Option (List ℤ)
targets_of d out_of_range [] = none
targets_of d _ [] = some []
targets_of d stop (insn ∷ insns) = do
  target ← branch_target d insn
  targets ← targets_of d stop insns
  some (add_target target targets)

-- A set: the order and the repetitions of the list mean nothing.
unfoldable pub all_targets : List ℕ → ℕ → Option (List ℤ)
all_targets d code_off = let run = decode d code_off in targets_of d run.stop run.insns
