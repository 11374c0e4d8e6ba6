-- ===== src/Dex/Decode/Inside.antt =====
-- What is read of a method whose code lies in the file.
use android_workbench.Prelude.{
  ℕ, zero, suc, ◌+◌, ◌*◌, ◌/◌, ◌^◌, ◌<◌, ◌≤◌, some, ◌||◌, List, [], ◌∷◌, get_elem?, length, ltb,
  leb, eqb, ◌≡◌, ◌≢◌, refl, arith, Bool-cases, inl, inr, ltb→lt, leb→le,
}
use android_workbench.Dex.Bytes.{u16, u32}
use android_workbench.Dex.Opcodes.{lookup, op_units}
use android_workbench.Dex.Decode.{
  payload_units, insn_units, listed_units, Code, code_info, Insn, Stop, out_of_range, decode_loop,
  decode_code, end_of, ended, verdict, decode_all,
}
use android_workbench.Dex.Decode.Tiles.{decode-decode_code}

pub get-Reads : (d : List ℕ) (i : ℕ) → i < length d → (b : ℕ) × (get_elem? d i ≡ some b)
get-Reads [] i h = absurd (omega arith)
get-Reads (x ∷ d) zero h = (x, refl)
get-Reads (x ∷ d) (suc i) h = get-Reads d i (omega arith)

u16-Reads : (d : List ℕ) (i : ℕ) → i + 2 ≤ length d → (v : ℕ) × (u16 d i ≡ some v)
unfolding u16
u16-Reads d i h =
    let (a, e) = get-Reads d i (omega arith) in
    let (b, f) = get-Reads d (i + 1) (omega arith) in (a + b * 2 ^ 8, rw (e, f) refl)

u32-Reads : (d : List ℕ) (i : ℕ) → i + 4 ≤ length d → (v : ℕ) × (u32 d i ≡ some v)
unfolding u32
u32-Reads d i h =
    let (a, e) = get-Reads d i (omega arith) in
    let (b, f) = get-Reads d (i + 1) (omega arith) in
    let (a2, e2) = get-Reads d (i + 2) (omega arith) in
    let (b2, f2) = get-Reads d (i + 3) (omega arith) in
    (a + b * 2 ^ 8 + a2 * 2 ^ 16 + b2 * 2 ^ 24, rw (e, f, e2, f2) refl)

payload_units-Reads :
    (d : List ℕ) (from ident : ℕ)
    → from + 8 ≤ length d
    → (units : ℕ) × (payload_units d from ident ≡ some units)
unfolding payload_units
payload_units-Reads d from ident h =
    let (size, e) = u16-Reads d (from + 2) (omega arith) in
    let (n, f) = u32-Reads d (from + 4) (omega arith) in
    elim (Bool-cases (eqb ident 1)) [
      | inl a ↦ (4 + size * 2, rw (a, e) refl)
      | inr a ↦ elim (Bool-cases (eqb ident 2)) [
        | inl b ↦ (2 + size * 4, rw (a, b, e) refl)
        | inr b ↦ elim (Bool-cases (eqb ident 3)) [
          | inl c ↦ (4 + (n * size + 1) / 2, rw (a, b, c, e, f) refl)
          | inr c ↦ (1, rw (a, b, c) refl)
        ]
      ]
    ]

pub insn_units-Reads :
    (op : ℕ) (d : List ℕ) (from end : ℕ)
    → end ≤ length d
    → (units : ℕ) × (insn_units op d from end ≡ some units)
unfolding insn_units
insn_units-Reads op d from end h = elim (Bool-cases (eqb op 0)) [
  | inr a ↦ (listed_units (lookup op_units op), rw a refl)
  | inl a ↦ elim (Bool-cases (leb (from + 8) end)) [
    | inr b ↦ (1, rw (a, b) refl)
    | inl b ↦
        let room = leb→le (from + 8) end b in
        let (ident, e) = get-Reads d (from + 1) (omega arith) in
        let (units, f) = payload_units-Reads d from ident (omega arith) in (units, rw (a, b, e) f)
  ]
]

decode_loop-Reads :
    (fuel : ℕ) (d : List ℕ) (registers from end : ℕ)
    → end ≤ length d
    → (decode_loop fuel d registers from end).stop ≢ out_of_range
unfolding decode_loop
decode_loop-Reads zero d registers from end h = λ q. cc
decode_loop-Reads (suc fuel) d registers from end h = elim (Bool-cases (ltb from end)) [
  | inr e ↦ rw e (λ q. cc)
  | inl e ↦
      let below = ltb→lt from end e in
      let (op, g) = get-Reads d from (omega arith) in
      let (units, u) = insn_units-Reads op d from end h in
      elim (Bool-cases (ltb units 1 || ltb end (from + units * 2))) [
        | inl o ↦ rw (e, g, u, o) (λ q. cc)
        | inr o ↦ rw (e, g, u, o) (decode_loop-Reads fuel d registers (from + units * 2) end h)
      ]
]

verdict-Reads :
    (code : Code) (insns : List Insn) (stop : Stop)
    → stop ≢ out_of_range
    → verdict code insns stop
      ≡ some (insns, eqb (ended code.insns_off insns) (end_of code), end_of code)
verdict-Reads code insns out_of_range h = absurd (h refl)
verdict-Reads code insns _ h = refl

-- Where the code of a method lies in the file, no byte that decoding reads is missing: the listing comes
-- back, with the verdict on its end.
pub decode_all-Reads :
    (d : List ℕ) (code_off : ℕ) (code : Code)
    → code_info d code_off ≡ some code
    → end_of code ≤ length d
    → decode_all d code_off
      ≡ some (
        (decode_code d code).insns,
        eqb (ended code.insns_off (decode_code d code).insns) (end_of code),
        end_of code,
      )
unfolding decode_all decode_code
decode_all-Reads d code_off code e h =
    let run = decode_code d code in
    let f =
      verdict-Reads code run.insns run.stop
        (decode_loop-Reads (suc code.insns_size) d code.registers code.insns_off (end_of code) h) in
    rw (e, decode-decode_code d code_off code e) f
