-- ===== src/Elf/Stubs.antt =====
-- elf_plt.py: the search for the stubs of a library (`_stubs_arm64` 215-240, `_stubs_x86` 200-212) and for the
-- branches to one (`find_branch_callers` 301-326), within the executable segment. `none` is the exception
-- of a read behind the end of the file; a round of a loop moves on by a byte at least, so the size of
-- the segment is enough fuel.
pub mod Written
pub mod Bounds
pub mod Callers
use android_workbench.Prelude.{
  ℕ, zero, suc, ◌+◌, ◌-◌, ◌*◌, ◌^◌, String, Option, none, some, Bool, true, false, not, ◌&&◌, ◌||◌,
  List, [], ◌∷◌, get_elem?, eqb, ltb, leb, if◌then◌else◌, ℤ, pos, negsuc,
}
use android_workbench.Dex.Bytes.{◌>>=◌, u32, signed}
use android_workbench.Elf.Words.{
  add_offset, decode_adrp, Access, decode_ldr_unsigned, decode_add_imm, decode_br, is_branch,
  branch_to,
}

-- The imported symbol of each slot of the global offset table.
abbrev pub Relocs : Type 0
Relocs = List (ℕ × String)

unfoldable pub slot_name : ℕ → Relocs → Option String
slot_name k [] = none
slot_name k ((j, v) ∷ m) = if eqb j k then some v else slot_name k m

-- `relocs[k]` where `k in relocs`; no key is negative.
unfoldable pub slot_at : ℤ → Relocs → Option (String × ℕ)
slot_at (pos k) relocs = elim (slot_name k relocs) [ none ↦ none | some name ↦ some (name, k) ]
slot_at (negsuc k) relocs = none

-- A stub: its address, its symbol and the slot that it jumps through.
pub record Stub : Type 0 where
  pub address : ℕ
  pub symbol : String
  pub slot : ℕ

abbrev pub stub_if : ℕ → Option (String × ℕ) → Option Stub
stub_if address none = none
stub_if address (some (name, slot)) =
    some (record { address = address; symbol = name; slot = slot })

-- The registers and offsets of the four instructions fit together.
abbrev pub fits_stub : ℕ → Access → Access → ℕ → Bool
fits_stub rd ldr add br =
    eqb rd 16
    && eqb ldr.base 16
    && eqb ldr.target 17
    && eqb add.base 16
    && eqb add.target 16
    && eqb ldr.offset add.offset
    && eqb br 17

-- `page + add[2]`
abbrev pub plus : ℤ → ℕ → ℤ
plus (pos n) k = pos (n + k)
plus (negsuc n) k = add_offset k (negsuc n)

-- What four words at the address are, if they are a stub of a known slot.
unfoldable pub decoded_stub :
    Relocs → ℕ → Option (ℤ × ℕ) → Option Access → Option Access → Option ℕ → Option Stub
decoded_stub relocs va none ldr add br = none
decoded_stub relocs va (some adrp) none add br = none
decoded_stub relocs va (some adrp) (some ldr) none br = none
decoded_stub relocs va (some adrp) (some ldr) (some add) none = none
decoded_stub relocs va (some (page, rd)) (some ldr) (some add) (some br) =
    if fits_stub rd ldr add br then stub_if va (slot_at (plus page add.offset) relocs) else none

unfoldable pub arm64_stub : Relocs → ℕ → ℕ → ℕ → ℕ → ℕ → Option Stub
arm64_stub relocs va w0 w1 w2 w3 =
    decoded_stub relocs va (decode_adrp w0 va) (decode_ldr_unsigned w1) (decode_add_imm w2)
      (decode_br w3)

unfoldable pub arm64_stub_at : List ℕ → Relocs → ℕ → ℕ → Option (Option Stub)
arm64_stub_at d relocs va at = do
  w0 ← u32 d at
  w1 ← u32 d (at + 4)
  w2 ← u32 d (at + 8)
  w3 ← u32 d (at + 12)
  some (arm64_stub relocs va w0 w1 w2 w3)

abbrev pub add_stub : Option Stub → List Stub → List Stub
add_stub none stubs = stubs
add_stub (some stub) stubs = stub ∷ stubs

abbrev pub with_stub : Option (Option Stub) → Option (List Stub) → Option (List Stub)
with_stub found rest = found >>= λ stub. rest >>= λ stubs. some (add_stub stub stubs)

-- `while off < fsz - 16`
unfoldable pub arm64_from : ℕ → List ℕ → Relocs → ℕ → ℕ → ℕ → ℕ → Option (List Stub)
arm64_from zero d relocs base foff fsz off = some []
arm64_from (suc fuel) d relocs base foff fsz off =
    let rest = arm64_from fuel d relocs base foff fsz (off + 4) in
    if ltb (off + 16) fsz
    then with_stub (arm64_stub_at d relocs (base + off) (foff + off)) rest
    else some []

unfoldable pub stubs_arm64 : List ℕ → ℕ → ℕ → ℕ → Relocs → Option (List Stub)
stubs_arm64 d base foff fsz relocs = arm64_from fsz d relocs base foff fsz 0

-- `jmp qword ptr [rip + disp]`
unfoldable pub x86_stub_at : List ℕ → Relocs → ℕ → ℕ → Option (Option Stub)
x86_stub_at d relocs va at = do
  b0 ← get_elem? d at
  if not (eqb b0 255)
      then some none
      else (get_elem? d (at + 1) >>= λ b1.
          if not (eqb b1 37)
          then some none
          else (u32 d (at + 2) >>= λ disp.
              some (stub_if va (slot_at (add_offset (va + 6) (signed (2 ^ 31) disp)) relocs))))

-- `while i < fsz - 6`
unfoldable pub x86_from : ℕ → List ℕ → Relocs → ℕ → ℕ → ℕ → ℕ → Option (List Stub)
x86_from zero d relocs base foff fsz i = some []
x86_from (suc fuel) d relocs base foff fsz i =
    let rest = x86_from fuel d relocs base foff fsz (i + 1) in
    if ltb (i + 6) fsz then with_stub (x86_stub_at d relocs (base + i) (foff + i)) rest else some []

unfoldable pub stubs_x86 : List ℕ → ℕ → ℕ → ℕ → Relocs → Option (List Stub)
stubs_x86 d base foff fsz relocs = x86_from fsz d relocs base foff fsz 0

abbrev pub leads_to : ℤ → ℕ → Bool
leads_to (pos n) target = eqb n target
leads_to (negsuc n) target = false

-- A word that is a branch to the address; a slice behind the end is no word.
unfoldable pub calls_at : List ℕ → ℕ → ℕ → ℕ → Option Bool
calls_at d target va at = u32 d at >>= λ w. some (is_branch w && leads_to (branch_to w va) target)

-- `limit` hits are still wanted; the search stops when there are none left to find.
abbrev pub next_hits : Bool → ℕ → ℕ → (ℕ → Option (List ℕ)) → Option (List ℕ)
next_hits false va limit rest = rest limit
next_hits true va zero rest = some (va ∷ [])
next_hits true va (suc zero) rest = some (va ∷ [])
next_hits true va (suc (suc limit)) rest = rest (suc limit) >>= λ hits. some (va ∷ hits)

-- `while off < fsz - 4`
unfoldable pub callers_from : ℕ → List ℕ → ℕ → ℕ → ℕ → ℕ → ℕ → ℕ → Option (List ℕ)
callers_from zero d target base foff fsz off limit = some []
callers_from (suc fuel) d target base foff fsz off limit =
    let rest = callers_from fuel d target base foff fsz (off + 4) in
    if ltb (off + 4) fsz
    then (calls_at d target (base + off) (foff + off) >>= λ hit.
        next_hits hit (base + off) limit rest)
    else some []

unfoldable pub branch_callers_arm64 : List ℕ → ℕ → ℕ → ℕ → ℕ → ℕ → Option (List ℕ)
branch_callers_arm64 d base foff fsz target limit = callers_from fsz d target base foff fsz 0 limit

-- `call rel32`
unfoldable pub x86_calls_at : List ℕ → ℕ → ℕ → ℕ → Option Bool
x86_calls_at d target va at = do
  b0 ← get_elem? d at
  if not (eqb b0 232)
      then some false
      else (u32 d (at + 1) >>= λ disp.
          some (leads_to (add_offset (va + 5) (signed (2 ^ 31) disp)) target))

-- `while i < fsz - 5`
unfoldable pub x86_callers_from : ℕ → List ℕ → ℕ → ℕ → ℕ → ℕ → ℕ → ℕ → Option (List ℕ)
x86_callers_from zero d target base foff fsz i limit = some []
x86_callers_from (suc fuel) d target base foff fsz i limit =
    let rest = x86_callers_from fuel d target base foff fsz (i + 1) in
    if ltb (i + 5) fsz
    then (x86_calls_at d target (base + i) (foff + i) >>= λ hit.
        next_hits hit (base + i) limit rest)
    else some []

unfoldable pub branch_callers_x86 : List ℕ → ℕ → ℕ → ℕ → ℕ → ℕ → Option (List ℕ)
branch_callers_x86 d base foff fsz target limit =
    x86_callers_from fsz d target base foff fsz 0 limit
