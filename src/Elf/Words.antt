-- ===== src/Elf/Words.antt =====
-- elf_plt.py: the words of an aarch64 stub (243-298), and the words of a branch (309-310). A bit bit_field of
-- a word is a quotient and a remainder.
pub mod Fields
use android_workbench.Prelude.{
  ℕ, suc, ◌+◌, ◌-◌, ◌*◌, ◌/◌, ◌%◌, ◌^◌, Option, none, some, Bool, not, ◌&&◌, ◌||◌, eqb, leb, ltb,
  if◌then◌else◌, ℤ, pos, negsuc,
}

-- `(word >> low) & ((1 << bits) - 1)`
abbrev pub bit_field : ℕ → ℕ → ℕ → ℕ
bit_field word low bits = word / 2 ^ low % 2 ^ bits

-- `_sign_extend`, of a value that fits into the bits.
unfoldable pub sign_extend : ℕ → ℕ → ℤ
sign_extend value bits =
    if eqb (value / 2 ^ (bits - 1) % 2) 1 then negsuc (2 ^ bits - value - 1) else pos value

-- `imm << bits`
unfoldable pub shift_left : ℤ → ℕ → ℤ
shift_left (pos n) bits = pos (n * 2 ^ bits)
shift_left (negsuc n) bits = negsuc (suc n * 2 ^ bits - 1)

-- `address + imm`
unfoldable pub add_offset : ℕ → ℤ → ℤ
add_offset a (pos n) = pos (a + n)
add_offset a (negsuc n) = if leb (suc n) a then pos (a - suc n) else negsuc (n - a)

-- `_decode_adrp`: the page and the register.
unfoldable pub decode_adrp : ℕ → ℕ → Option (ℤ × ℕ)
unfolding sign_extend shift_left add_offset
decode_adrp word pc =
    if not (eqb (bit_field word 31 1) 1)
    then none
    else if not (eqb (bit_field word 24 5) 16)
    then none
    else let imm = sign_extend (bit_field word 5 19 * 4 + bit_field word 29 2) 21 in
      some (add_offset (pc / 4096 * 4096) (shift_left imm 12), bit_field word 0 5)

-- The fields of a load or an addition: the base register, the register and the offset.
pub record Access : Type 0 where
  pub base : ℕ
  pub target : ℕ
  pub offset : ℕ

-- `_decode_ldr_unsigned`, of a word of 32 bits.
unfoldable pub decode_ldr_unsigned : ℕ → Option Access
decode_ldr_unsigned word =
    if not (eqb (word / 2 ^ 30) 3)
    then none
    else if not (eqb (bit_field word 27 3) 7)
    then none
    else if not (eqb (bit_field word 24 2) 1)
    then none
    else some (record {
      base = bit_field word 5 5;
      target = bit_field word 0 5;
      offset = bit_field word 10 12 * 8;
    })

-- `_decode_add_imm`
unfoldable pub decode_add_imm : ℕ → Option Access
decode_add_imm word =
    if not (eqb (bit_field word 31 1) 1)
    then none
    else if not (eqb (bit_field word 23 6) 34)
    then none
    else if eqb (bit_field word 22 1) 1
    then none
    else some (record {
      base = bit_field word 5 5;
      target = bit_field word 0 5;
      offset = bit_field word 10 12;
    })

-- `_decode_br`: the bits that `0xFFFFFC1F` keeps are those of `0xD61F0000`.
unfoldable pub decode_br : ℕ → Option ℕ
decode_br word =
    if eqb (word / 2 ^ 10) 3508160 && eqb (bit_field word 0 5) 0
    then some (bit_field word 5 5)
    else none

-- `(w & 0xFC000000) in (0x94000000, 0x14000000)`
abbrev pub is_branch : ℕ → Bool
is_branch word = eqb (word / 2 ^ 26) 37 || eqb (word / 2 ^ 26) 5

-- The target of a branch at the address.
unfoldable pub branch_to : ℕ → ℕ → ℤ
unfolding sign_extend shift_left add_offset
branch_to word pc = add_offset pc (shift_left (sign_extend (bit_field word 0 26) 26) 2)
