-- ===== src/Dex/Decode/Listing.antt =====
-- What `decode_all` lists of a method whose code lies in the file.
use android_workbench.Prelude.{
  ℕ, zero, suc, ◌+◌, ◌*◌, ◌<◌, ◌≤◌, some, Bool, true, ◌||◌, List, [], ◌∷◌, get_elem?, take, drop,
  length, ltb, eqb, ◌≡◌, refl, arith, Bool-cases, ◌⊎◌, inl, inr, ltb→lt, ltb→le,
}
use android_workbench.Dex.Decode.{
  insn_units, Code, code_info, Insn, decode_loop, decode_code, end_of, ended, decode_all,
}
use android_workbench.Dex.Decode.Inside.{get-Reads, insn_units-Reads, decode_all-Reads}

-- An instruction stands here that takes no unit, or runs over the end of the code.
pub record Misfits (d : List ℕ) (end from : ℕ) : Type 0 where
  pub op : ℕ
  pub units : ℕ
  pub opcode : get_elem? d from ≡ some op
  pub width : insn_units op d from end ≡ some units
  pub misfits : (units ≡ 0) ⊎ (end < from + units * 2)

-- The item is the instruction that stands here, and it fits into the code.
pub record Stands (d : List ℕ) (end from : ℕ) (insn : Insn) : Type 0 where
  pub place : insn.off ≡ from
  pub opcode : get_elem? d from ≡ some insn.op
  pub width : insn_units insn.op d from end ≡ some insn.units
  pub bytes : insn.raw ≡ take (insn.units * 2) (drop from d)
  pub one : 1 ≤ insn.units
  pub fits : from + insn.units * 2 ≤ end

-- The list is all that stands one behind the other from here to the end of the code, or to the first
-- instruction that does not fit.
abbrev pub Lists : List ℕ → ℕ → ℕ → List Insn → Type 0
Lists d end from [] = (from ≡ end) ⊎ Misfits d end from
Lists d end from (insn ∷ insns) = Stands d end from insn × Lists d end (from + insn.units * 2) insns

no_fit :
    (end from units : ℕ)
    → (ltb units 1 || ltb end (from + units * 2)) ≡ true
    → (units ≡ 0) ⊎ (end < from + units * 2)
no_fit end from zero h = inl refl
no_fit end from (suc n) h = inr (ground arith)

decode_loop-Lists :
    (fuel : ℕ) (d : List ℕ) (registers from end : ℕ)
    → end ≤ length d
    → from ≤ end
    → end < from + 2 * fuel
    → Lists d end from (decode_loop fuel d registers from end).insns
unfolding decode_loop
decode_loop-Lists zero d registers from end i h f = absurd (omega arith)
decode_loop-Lists (suc fuel) d registers from end i h f = elim (Bool-cases (ltb from end)) [
  | inr e ↦ rw e (inl (omega (arith, h, ltb→le from end e)))
  | inl e ↦
      let below = ltb→lt from end e in
      let (op, g) = get-Reads d from (omega arith) in
      let (units, u) = insn_units-Reads op d from end i in
      elim (Bool-cases (ltb units 1 || ltb end (from + units * 2))) [
        | inl o ↦
            rw (e, g, u, o)
              (inr (record {
                op = op;
                units = units;
                opcode = g;
                width = u;
                misfits = no_fit end from units o;
              }))
        | inr o ↦
            let one : 1 ≤ units = ground arith in
            let fits : from + units * 2 ≤ end = ground arith in
            rw (e, g, u, o)
              (
                record {
                  place = refl;
                  opcode = g;
                  width = u;
                  bytes = refl;
                  one = one;
                  fits = fits;
                },
                decode_loop-Lists fuel d registers (from + units * 2) end i fits (omega arith),
              )
      ]
]

-- Where the code of a method lies in the file, decoding it returns a listing and a verdict, whatever its
-- bytes are, and the listing has all the instructions that stand one behind the other from the start
-- of the code to its end, or to the first one that takes no unit or runs over the end, each with its
-- opcode, its width and its bytes.
pub decode_all-Lists :
    (d : List ℕ) (code_off : ℕ) (code : Code)
    → code_info d code_off ≡ some code
    → end_of code ≤ length d
    → (insns : List Insn) × (clean : Bool) × (decode_all d code_off
        ≡ some (insns, clean, end_of code))
      × Lists d (end_of code) code.insns_off insns
unfolding decode_code
decode_all-Lists d code_off code e h =
    let insns = (decode_code d code).insns in
    (
      insns,
      eqb (ended code.insns_off insns) (end_of code),
      decode_all-Reads d code_off code e h,
      decode_loop-Lists (suc code.insns_size) d code.registers code.insns_off (end_of code) h
          (omega arith) (omega arith),
    )
