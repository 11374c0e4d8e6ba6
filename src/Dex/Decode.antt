-- ===== src/Dex/Decode.antt =====
-- dexutil.py: the instructions of a method (250-313, `code_info` 450-459, `decode` 461-481, `decode_all`
-- 483-489, `insn_at` 491-495).
pub mod Tiles
pub mod Inside
pub mod Listing
use android_workbench.Prelude.{
  ℕ, zero, suc, ◌+◌, ◌-◌, ◌*◌, ◌/◌, ◌^◌, String, Option, none, some, Bool, true, false, ◌&&◌, ◌||◌,
  List, [], ◌∷◌, get_elem?, take, drop, ltb, leb, eqb, if◌then◌else◌,
}
use android_workbench.Dex.Bytes.{◌>>=◌, u16, u32}
use android_workbench.Dex.Opcodes.{lookup, op_units}
use android_workbench.Dex.Names.{op_names}

abbrev pub listed_units : Option ℕ → ℕ
listed_units none = 1
listed_units (some units) = units

-- A payload of a switch or of array data, by its identifier.
unfoldable pub payload_units : List ℕ → ℕ → ℕ → Option ℕ
payload_units d pos ident =
    if eqb ident 1
    then (u16 d (pos + 2) >>= λ size. some (4 + size * 2))
    else if eqb ident 2
    then (u16 d (pos + 2) >>= λ size. some (2 + size * 4))
    else if eqb ident 3
    then (u16 d (pos + 2) >>= λ width.
        u32 d (pos + 4) >>= λ count. some (4 + (count * width + 1) / 2))
    else some 1

unfoldable pub insn_units : ℕ → List ℕ → ℕ → ℕ → Option ℕ
insn_units op d pos end =
    if eqb op 0
    then (if leb (pos + 8) end then (get_elem? d (pos + 1) >>= payload_units d pos) else some 1)
    else some (listed_units (lookup op_units op))

pub record Code : Type 0 where
  pub registers : ℕ
  pub ins : ℕ
  pub outs : ℕ
  pub tries : ℕ
  pub debug_info_off : ℕ
  pub insns_size : ℕ
  pub insns_off : ℕ

unfoldable pub code_info : List ℕ → ℕ → Option Code
code_info d code_off = do
  registers ← u16 d code_off
  ins ← u16 d (code_off + 2)
  outs ← u16 d (code_off + 4)
  tries ← u16 d (code_off + 6)
  debug_info_off ← u32 d (code_off + 8)
  insns_size ← u32 d (code_off + 12)
  some (record {
    registers = registers;
    ins = ins;
    outs = outs;
    tries = tries;
    debug_info_off = debug_info_off;
    insns_size = insns_size;
    insns_off = code_off + 16;
  })

-- The name of an opcode that is not listed is `none`; the source prints its number.
pub record Insn : Type 0 where
  pub off : ℕ
  pub op : ℕ
  pub units : ℕ
  pub name : Option String
  pub raw : List ℕ
  pub registers : ℕ

-- How the generator ends: at the end of the code, at an instruction that runs over it, at an offset
-- behind the end of the file (an IndexError), or for want of fuel.
pub data Stop : Type 0 where
  at_end runs_over out_of_range unfinished : Stop

pub record Decoded : Type 0 where
  pub insns : List Insn
  pub stop : Stop

abbrev pub stopped_at : Stop → Decoded
stopped_at stop = record { insns = []; stop = stop }

abbrev pub yields : Insn → Decoded → Decoded
yields insn rest = record rest { insns = insn ∷ rest.insns }

abbrev pub insn_of : List ℕ → ℕ → ℕ → ℕ → ℕ → Insn
insn_of d registers pos op units = record {
  off = pos;
  op = op;
  units = units;
  name = lookup op_names op;
  raw = take (units * 2) (drop pos d);
  registers = registers;
}

abbrev pub decode_units : List ℕ → ℕ → ℕ → ℕ → ℕ → (ℕ → Decoded) → Option ℕ → Decoded
decode_units d registers pos end op again none = stopped_at out_of_range
decode_units d registers pos end op again (some units) =
    if ltb units 1 || ltb end (pos + units * 2)
    then stopped_at runs_over
    else yields (insn_of d registers pos op units) (again (pos + units * 2))

abbrev pub decode_op : List ℕ → ℕ → ℕ → ℕ → (ℕ → Decoded) → Option ℕ → Decoded
decode_op d registers pos end again none = stopped_at out_of_range
decode_op d registers pos end again (some op) =
    decode_units d registers pos end op again (insn_units op d pos end)

unfoldable pub decode_loop : ℕ → List ℕ → ℕ → ℕ → ℕ → Decoded
decode_loop zero d registers pos end = stopped_at unfinished
decode_loop (suc fuel) d registers pos end =
    if ltb pos end
    then decode_op d registers pos end (λ p. decode_loop fuel d registers p end) (get_elem? d pos)
    else stopped_at at_end

abbrev pub end_of : Code → ℕ
end_of code = code.insns_off + code.insns_size * 2

-- An instruction takes a unit at least, so the number of units is enough fuel.
unfoldable pub decode_code : List ℕ → Code → Decoded
decode_code d code = decode_loop (suc code.insns_size) d code.registers code.insns_off (end_of code)

abbrev pub decode_info : List ℕ → Option Code → Decoded
decode_info d none = stopped_at out_of_range
decode_info d (some code) = decode_code d code

unfoldable pub decode : List ℕ → ℕ → Decoded
decode d code_off = decode_info d (code_info d code_off)

-- Where the last instruction ends, or the start.
abbrev pub ended : ℕ → List Insn → ℕ
ended start [] = start
ended start (insn ∷ insns) = ended (insn.off + insn.units * 2) insns

-- `none` is an IndexError.
abbrev pub verdict : Code → List Insn → Stop → Option (List Insn × Bool × ℕ)
verdict code insns out_of_range = none
verdict code insns _ = some (insns, eqb (ended code.insns_off insns) (end_of code), end_of code)

unfoldable pub decode_all : List ℕ → ℕ → Option (List Insn × Bool × ℕ)
decode_all d code_off = do
  code ← code_info d code_off
  let run = decode d code_off
  verdict code run.insns run.stop

abbrev pub insn_among : ℕ → Stop → List Insn → Option (Option Insn)
insn_among target out_of_range [] = none
insn_among target _ [] = some none
insn_among target stop (insn ∷ insns) =
    if eqb insn.off target then some (some insn) else insn_among target stop insns

-- The first instruction at the offset; `none` is an IndexError before it.
unfoldable pub insn_at : List ℕ → ℕ → ℕ → Option (Option Insn)
insn_at d code_off target = let run = decode d code_off in insn_among target run.stop run.insns
