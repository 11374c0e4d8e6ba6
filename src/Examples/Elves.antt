-- ===== src/Examples/Elves.antt =====
-- A segment of the library of elf_plt.py: a stub, a call of it, and the same stub at the very end.
use android_workbench.Prelude.{
  ℕ, ◌/◌, ◌%◌, ◌^◌, some, none, List, [], ◌∷◌, ◌++◌, ◌≡◌, refl, inl, arith, All, Any,
}
use android_workbench.Dex.Bytes.{u32}
use android_workbench.Elf.Words.{
  add_offset, decode_adrp, decode_ldr_unsigned, decode_add_imm, decode_br, branch_to,
}
use android_workbench.Elf.Words.Fields.{wrapped, adrp, ldr, add, br, branch}
use android_workbench.Elf.Stubs.{
  Relocs, slot_name, slot_at, Stub, decoded_stub, arm64_stub, arm64_stub_at, arm64_from,
  stubs_arm64, x86_from, x86_stub_at, stubs_x86, calls_at, callers_from, branch_callers_arm64,
  branch_callers_x86, x86_callers_from, x86_calls_at,
}
use android_workbench.Elf.File.Stubs.{find_stubs-written}
use android_workbench.Elf.Stubs.Bounds.{IsReported, stubs_arm64-IsReported}
use android_workbench.Elf.Stubs.Callers.{FoundOrFull, branch_callers_arm64-branch}
use android_workbench.Elf.File.{Elf, find_stubs, Segment, vaddr_to_off, exec_segment}

abbrev word : ℕ → List ℕ
word w = w % 2 ^ 8 ∷ w / 2 ^ 8 % 2 ^ 8 ∷ w / 2 ^ 16 % 2 ^ 8 ∷ w / 2 ^ 24 ∷ []

-- The slot of `kill`, two pages behind the stub.
abbrev kill_slot : ℕ
kill_slot = 12320

abbrev relocs : Relocs
relocs = (12312, "abort") ∷ (kill_slot, "kill") ∷ []

abbrev stub : List ℕ
stub =
    word (adrp 16 (wrapped 21 3 1)) ++ (word (ldr 17 16 4) ++ (word (add 16 16 32) ++ word (br 17)))

-- At 4096: the stub, then a BL of it, and at the end the stub again.
abbrev segment : List ℕ
segment = stub ++ (word (branch 37 (wrapped 26 1024 1028)) ++ stub)

kill_stub :
    stubs_arm64 segment 4096 0 36 relocs
    ≡ some (record { address = 4096; symbol = "kill"; slot = kill_slot } ∷ [])
unfolding stubs_arm64 arm64_from arm64_stub_at arm64_stub decoded_stub slot_at slot_name u32
    decode_adrp decode_ldr_unsigned decode_add_imm decode_br
kill_stub = refl

abbrev library : Elf
library = record {
  contents = segment;
  machine = 183;
  loads = record { vaddr = 4096; offset = 0; filesz = 36; memsz = 36; flags = 5 } ∷ [];
  dynamic = none;
}

find_stubs-written_example :
    (stubs : List Stub) × (find_stubs library relocs ≡ some stubs)
    × Any (λ s. s ≡ record { address = 4096; symbol = "kill"; slot = kill_slot }) stubs
unfolding u32 slot_name exec_segment
find_stubs-written_example =
    find_stubs-written library
      (record { vaddr = 4096; offset = 0; filesz = 36; memsz = 36; flags = 5 }) relocs 0 kill_slot
      "kill" refl refl (omega arith) (omega arith) (refl, omega arith, omega arith) refl
      (refl, refl, refl, refl)

stubs_arm64-IsReported_example :
    All
      (IsReported relocs segment 4096 0 36)
      (record { address = 4096; symbol = "kill"; slot = kill_slot } ∷ [])
stubs_arm64-IsReported_example = stubs_arm64-IsReported segment 4096 0 36 relocs _ kill_stub

branch_callers_arm64-branch_example :
    (hits : List ℕ) × (branch_callers_arm64 segment 4096 0 36 4096 500 ≡ some hits)
    × FoundOrFull 4112 500 hits
unfolding u32
branch_callers_arm64-branch_example =
    branch_callers_arm64-branch segment 4096 0 36 4096 500 4 37 (omega arith) (omega arith)
      (inl refl) refl (omega arith) (omega arith) refl

finds_call : branch_callers_arm64 segment 4096 0 36 4096 500 ≡ some (4112 ∷ [])
unfolding branch_callers_arm64 callers_from calls_at u32 branch_to
finds_call = refl

-- jmp [rip + 2] over two bytes
x86_jump :
    stubs_x86 (255 ∷ 37 ∷ 2 ∷ 0 ∷ 0 ∷ 0 ∷ 144 ∷ []) 100 0 7 ((108, "puts") ∷ [])
    ≡ some (record { address = 100; symbol = "puts"; slot = 108 } ∷ [])
unfolding stubs_x86 x86_from x86_stub_at slot_at slot_name u32 add_offset
x86_jump = refl

abbrev text_segment : Segment
text_segment = record { vaddr = 4096; offset = 512; filesz = 100; memsz = 120; flags = 5 }

in_text : vaddr_to_off (text_segment ∷ []) 4200 ≡ some 616
unfolding vaddr_to_off
in_text = refl

executable :
    exec_segment (record text_segment { flags = 6 } ∷ text_segment ∷ []) ≡ some text_segment
unfolding exec_segment
executable = refl

-- Two calls of one place; one is enough where the limit is one.
x86_calls :
    branch_callers_x86 (232 ∷ 6 ∷ 0 ∷ 0 ∷ 0 ∷ 232 ∷ 1 ∷ 0 ∷ 0 ∷ 0 ∷ 144 ∷ []) 100 0 11 111 500
    ≡ some (100 ∷ 105 ∷ [])
unfolding branch_callers_x86 x86_callers_from x86_calls_at u32 add_offset
x86_calls = refl

first_call :
    branch_callers_x86 (232 ∷ 6 ∷ 0 ∷ 0 ∷ 0 ∷ 232 ∷ 1 ∷ 0 ∷ 0 ∷ 0 ∷ 144 ∷ []) 100 0 11 111 1
    ≡ some (100 ∷ [])
unfolding branch_callers_x86 x86_callers_from x86_calls_at u32 add_offset
first_call = refl
