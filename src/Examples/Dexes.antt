-- ===== src/Examples/Dexes.antt =====
-- A small code item, a list of methods and a header of a dex file, for dexutil.py.
use android_workbench.Prelude.{
  ℕ, ◌+◌, ◌<◌, none, some, Bool, true, false, List, [], ◌∷◌, ◌++◌, length, pos, ℤ, negsuc, ◌≡◌, ◌≢◌,
  ◌↔◌, refl, arith, all, leb,
}
use android_workbench.Protobuf.Varint.{encode_varint, varint_len}
use android_workbench.Dex.Bytes.{read_uleb, u16, u32, uleb_loop}
use android_workbench.Dex.Bytes.Leb.{read_uleb-encode_varint}
use android_workbench.Dex.Opcodes.{op_units}
use android_workbench.Dex.Decode.{
  Code, code_info, Insn, insn_of, insn_units, payload_units, decode, decode_code, decode_loop,
  decode_all, end_of, unfinished, at_end,
}
use android_workbench.Dex.Decode.Tiles.{decode-Tiles, decode_all_iff, Tiles, total_units}
use android_workbench.Dex.Decode.Listing.{Lists, decode_all-Lists}
use android_workbench.Dex.Branch.{branch_target, all_targets}
use android_workbench.Dex.Branch.Reach.{in_one, Leads, branch_target-Carries}
use android_workbench.Dex.Classes.{MethodId, none_listed, read_members}
use android_workbench.Dex.Classes.Members.{Item, all_written, all_listed, read_members-all_written}
use android_workbench.Dex.Header.{fix_dex_header, verify_dex_header}
use android_workbench.Dex.Header.Fixed.{verify_dex_header-fix_dex_header}

read_uleb-encode_varint_example :
    read_uleb ((9 ∷ []) ++ (encode_varint 300 ++ (7 ∷ []))) 1 ≡ some (300, 1 + varint_len 300)
read_uleb-encode_varint_example = read_uleb-encode_varint (9 ∷ []) 300 (7 ∷ [])

-- A constant, a jump back to it, and a return that is never reached.
abbrev body : List ℕ
body =
    2 ∷ 0 ∷ 0 ∷ 0 ∷ 0 ∷ 0 ∷ 0 ∷ 0 ∷ 0 ∷ 0 ∷ 0 ∷ 0 ∷ 3 ∷ 0 ∷ 0 ∷ 0 ∷ 18 ∷ 16 ∷ 40 ∷ 255 ∷ 14 ∷ 0 ∷ []

abbrev body_code : Code
body_code = record {
  registers = 2;
  ins = 0;
  outs = 0;
  tries = 0;
  debug_info_off = 0;
  insns_size = 3;
  insns_off = 16;
}

body_info : code_info body 0 ≡ some body_code
unfolding code_info u16 u32
body_info = refl

abbrev body_insns : List Insn
body_insns = insn_of body 2 16 18 1 ∷ insn_of body 2 18 40 1 ∷ insn_of body 2 20 14 1 ∷ []

body_decoded : decode_all body 0 ≡ some (body_insns, true, 22)
unfolding decode_all decode decode_code decode_loop code_info u16 u32 insn_units op_units
body_decoded = refl

decode-Tiles_example :
    ((decode body 0).stop ≢ unfinished)
    × (last : ℕ) × Tiles 16 (decode body 0).insns last
    × ((decode body 0).stop ≡ at_end → last ≡ end_of body_code)
    × ((decode body 0).stop ≢ at_end → last < end_of body_code)
decode-Tiles_example = decode-Tiles body 0 body_code body_info

decode_all_iff_example : (true ≡ true) ↔ (total_units body_insns ≡ 3)
decode_all_iff_example = decode_all_iff body 0 body_code body_insns true 22 body_info body_decoded

decode_all-Lists_example :
    (insns : List Insn) × (clean : Bool) × (decode_all body 0
      ≡ some (insns, clean, end_of body_code))
    × Lists body (end_of body_code) 16 insns
decode_all-Lists_example = decode_all-Lists body 0 body_code body_info (omega arith)

branch_target-Carries_example :
    (t : ℤ) × (branch_target body (insn_of body 2 18 40 1) ≡ some (some t)) × Leads 18 (negsuc 0) t
branch_target-Carries_example =
    branch_target-Carries body (insn_of body 2 18 40 1) (negsuc 0) (in_one refl (omega arith) refl)

jumps_back : all_targets body 0 ≡ some (pos 16 ∷ [])
unfolding all_targets branch_target decode decode_code decode_loop code_info u16 u32 insn_units
    op_units
jumps_back = refl

abbrev name_of : ℕ → MethodId
name_of i = record { owner = "La;"; name = "run"; descriptor = "()V" }

abbrev items : List Item
items =
    record { index = 4; access = 1; code_off = 300 }
    ∷ record { index = 200; access = 9; code_off = 0 }
    ∷ []

read_members-all_written_example :
    read_members
      (λ i. some (name_of i))
      "direct"
      ((5 ∷ []) ++ (all_written 0 items ++ (6 ∷ [])))
      2
      1
      0
      (λ p. none_listed false)
    ≡ all_listed name_of "direct" items (none_listed false)
read_members-all_written_example =
    read_members-all_written name_of "direct" items (5 ∷ []) (6 ∷ []) 0 (λ p. none_listed false)
      (omega arith, (omega arith, tt))

abbrev zeros : List ℕ
zeros = 0 ∷ 0 ∷ 0 ∷ 0 ∷ 0 ∷ 0 ∷ 0 ∷ 0 ∷ 0 ∷ 0 ∷ 0 ∷ 0 ∷ 0 ∷ 0 ∷ 0 ∷ 0 ∷ 0 ∷ 0 ∷ 0 ∷ []

-- A digest of the right size, and a sum.
abbrev digest : List ℕ → List ℕ
digest d = length d ∷ zeros

abbrev sum : List ℕ → ℕ
sum [] = 1
sum (b ∷ bs) = b + sum bs

abbrev dex_file : List ℕ
dex_file = 100 ∷ 101 ∷ 120 ∷ 10 ∷ 48 ∷ 51 ∷ 53 ∷ 0 ∷ (zeros ++ (1 ∷ 2 ∷ 3 ∷ 4 ∷ 5 ∷ 6 ∷ []))

verify_dex_header-fix_dex_header_example :
    verify_dex_header digest sum (fix_dex_header digest sum dex_file).0 ≡ (true, true)
verify_dex_header-fix_dex_header_example =
    verify_dex_header-fix_dex_header digest sum (λ d. refl) dex_file (omega arith)

every_opcode_moves_on : all (λ entry. leb 1 entry.1) op_units ≡ true
unfolding op_units
every_opcode_moves_on = refl

payload_is_counted : insn_units 0 (0 ∷ 3 ∷ 4 ∷ 0 ∷ 30 ∷ 0 ∷ 0 ∷ 0 ∷ []) 0 100 ≡ some 64
unfolding insn_units payload_units u16 u32
payload_is_counted = refl

plain_nop : insn_units 0 (0 ∷ 0 ∷ 4 ∷ 0 ∷ 30 ∷ 0 ∷ 0 ∷ 0 ∷ []) 0 100 ≡ some 1
unfolding insn_units payload_units u16 u32
plain_nop = refl

behind_the_end : read_uleb (128 ∷ []) 0 ≡ none
unfolding read_uleb uleb_loop
behind_the_end = refl
