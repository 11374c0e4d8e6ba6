-- ===== src/Elf/Words/Fields.antt =====
-- The words of the aarch64 architecture that elf_plt.py looks for, under its decoders.
use android_workbench.Prelude.{
  ℕ, ◌+◌, ◌-◌, ◌*◌, ◌/◌, ◌%◌, ◌^◌, ◌<◌, ◌≤◌, some, leb, if◌then◌else◌, pos, negsuc, ◌≡◌, refl, sym,
  ap, subst, ◌∙◌, arith,
}
use android_workbench.Elf.Words.{
  bit_field, sign_extend, shift_left, add_offset, decode_adrp, decode_ldr_unsigned, decode_add_imm,
  decode_br, branch_to,
}

-- A difference of addresses in two's complement.
abbrev pub wrapped : ℕ → ℕ → ℕ → ℕ
wrapped bits to from = (to + 2 ^ bits - from) % 2 ^ bits

-- adrp Rd, page: the immediate is the distance in pages.
abbrev pub adrp : ℕ → ℕ → ℕ
adrp rd imm = 2 ^ 31 + imm % 4 * 2 ^ 29 + 16 * 2 ^ 24 + imm / 4 * 2 ^ 5 + rd

-- ldr Rt, [Rn, #(8 * imm)]
abbrev pub ldr : ℕ → ℕ → ℕ → ℕ
ldr rt rn imm = 3 * 2 ^ 30 + 7 * 2 ^ 27 + 2 ^ 24 + 2 ^ 22 + imm * 2 ^ 10 + rn * 2 ^ 5 + rt

-- add Rd, Rn, #imm
abbrev pub add : ℕ → ℕ → ℕ → ℕ
add rd rn imm = 2 ^ 31 + 34 * 2 ^ 23 + imm * 2 ^ 10 + rn * 2 ^ 5 + rd

-- br Rn
abbrev pub br : ℕ → ℕ
br rn = 3508160 * 2 ^ 10 + rn * 2 ^ 5

-- bl (37) or b (5), with the distance in words
abbrev pub branch : ℕ → ℕ → ℕ
branch op imm = op * 2 ^ 26 + imm

pub decode_ldr_unsigned-ldr :
    (rt rn imm : ℕ)
    → rt < 32
    → rn < 32
    → imm < 4096
    → decode_ldr_unsigned (ldr rt rn imm)
      ≡ some (record { base = rn; target = rt; offset = imm * 8 })
unfolding decode_ldr_unsigned
decode_ldr_unsigned-ldr rt rn imm a b c = ground arith

pub decode_add_imm-add :
    (rd rn imm : ℕ)
    → rd < 32
    → rn < 32
    → imm < 4096
    → decode_add_imm (add rd rn imm) ≡ some (record { base = rn; target = rd; offset = imm })
unfolding decode_add_imm
decode_add_imm-add rd rn imm a b c = ground arith

pub decode_br-br : (rn : ℕ) → rn < 32 → decode_br (br rn) ≡ some rn
unfolding decode_br
decode_br-br rn a = ground arith

sign_extend-wrapped_21 :
    (from to : ℕ)
    → to < from + 2 ^ 20
    → from ≤ to + 2 ^ 20
    → sign_extend (wrapped 21 to from) 21
      ≡ (if leb from to then pos (to - from) else negsuc (from - to - 1))
unfolding sign_extend
sign_extend-wrapped_21 from to a b = ground arith

sign_extend-wrapped_26 :
    (from to : ℕ)
    → to < from + 2 ^ 25
    → from ≤ to + 2 ^ 25
    → sign_extend (wrapped 26 to from) 26
      ≡ (if leb from to then pos (to - from) else negsuc (from - to - 1))
unfolding sign_extend
sign_extend-wrapped_26 from to a b = ground arith

-- The difference in pages, or in words, leads from one to the other.
pages_apart :
    (from to : ℕ)
    → add_offset
        (from * 4096)
        (shift_left (if leb from to then pos (to - from) else negsuc (from - to - 1)) 12)
      ≡ pos (to * 4096)
unfolding add_offset shift_left
pages_apart from to = ground arith

words_apart :
    (from to rest : ℕ)
    → add_offset
        (from * 4 + rest)
        (shift_left (if leb from to then pos (to - from) else negsuc (from - to - 1)) 2)
      ≡ pos (to * 4 + rest)
unfolding add_offset shift_left
words_apart from to rest = ground arith

adrp_fields :
    (rd imm : ℕ)
    → rd < 32
    → imm < 2 ^ 21
    → (bit_field (adrp rd imm) 31 1 ≡ 1)
      × (bit_field (adrp rd imm) 24 5 ≡ 16)
      × (bit_field (adrp rd imm) 5 19 * 4 + bit_field (adrp rd imm) 29 2 ≡ imm)
      × (bit_field (adrp rd imm) 0 5 ≡ rd)
adrp_fields rd imm a b = (omega arith, omega arith, omega arith, omega arith)

-- An adrp at the address leads to the page, up to 4 GiB away.
pub decode_adrp-adrp :
    (rd pc page : ℕ)
    → rd < 32
    → page < pc / 4096 + 2 ^ 20
    → pc / 4096 ≤ page + 2 ^ 20
    → decode_adrp (adrp rd (wrapped 21 page (pc / 4096))) pc ≡ some (pos (page * 4096), rd)
unfolding decode_adrp
decode_adrp-adrp rd pc page a b c =
    let f = adrp_fields rd (wrapped 21 page (pc / 4096)) a (omega arith) in
    rw
      (
        f.0,
        f.1,
        f.2,
        f.3,
        sign_extend-wrapped_21 (pc / 4096) page b c,
        pages_apart (pc / 4096) page,
      )
      refl

-- A branch at the address leads to a target that is a whole number of words away, up to 128 MiB.
pub branch_to-branch :
    (op pc target : ℕ)
    → pc % 4 ≡ target % 4
    → target / 4 < pc / 4 + 2 ^ 25
    → pc / 4 ≤ target / 4 + 2 ^ 25
    → branch_to (branch op (wrapped 26 (target / 4) (pc / 4))) pc ≡ pos target
unfolding branch_to
branch_to-branch op pc target a b c =
    let imm = wrapped 26 (target / 4) (pc / 4) in
    let field_is : bit_field (branch op imm) 0 26 ≡ imm = omega arith in
    let here : pc ≡ pc / 4 * 4 + pc % 4 = omega arith in
    let there : pos (target / 4 * 4 + pc % 4) ≡ pos target = ap pos (omega arith) in
    let moved =
      subst
        (λ q.
          add_offset q (
            shift_left
              (if leb (pc / 4) (target / 4)
                then pos (target / 4 - pc / 4)
                else negsuc (pc / 4 - target / 4 - 1))
              2)
          ≡ pos (target / 4 * 4 + pc % 4))
        (sym here) (words_apart (pc / 4) (target / 4) (pc % 4)) in
    rw (field_is, sign_extend-wrapped_26 (pc / 4) (target / 4) b c) (moved ∙ there)
