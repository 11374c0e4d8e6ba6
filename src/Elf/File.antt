-- ===== src/Elf/File.antt =====
-- elf_plt.py: the program headers of a library (`Elf` 90-143) and the names of its relocated slots
-- (`reloc_map` 146-183). `none` is an exception: no such file, a read behind its end, or a missing segment.
-- A number of 64 bits is two words; the decoding of UTF-8 is a parameter.
pub mod Stubs
use android_workbench.Prelude.{
  ℕ, zero, suc, ◌+◌, ◌-◌, ◌*◌, ◌/◌, ◌%◌, ◌^◌, String, Option, none, some, Bool, false, not, ◌&&◌,
  List, [], ◌∷◌, ◌++◌, get_elem?, drop, length, eqb, ltb, leb, if◌then◌else◌,
}
use android_workbench.Dex.Bytes.{◌>>=◌, u16, u32}
use android_workbench.Elf.Stubs.{
  Relocs, Stub, stubs_x86, stubs_arm64, branch_callers_arm64, branch_callers_x86,
}

unfoldable pub u64 : List ℕ → ℕ → Option ℕ
u64 d o = do low ← u32 d o; high ← u32 d (o + 4); some (low + high * 2 ^ 32)

-- PT_LOAD
pub record Segment : Type 0 where
  pub vaddr : ℕ
  pub offset : ℕ
  pub filesz : ℕ
  pub memsz : ℕ
  pub flags : ℕ

pub record Elf : Type 0 where
  pub contents : List ℕ
  pub machine : ℕ
  pub loads : List Segment
  pub dynamic : Option (ℕ × ℕ)

abbrev with_header : ℕ → Segment → Elf → Elf
with_header p_type seg elf =
    if eqb p_type 1
    then record elf { loads = elf.loads ++ seg ∷ [] }
    else if eqb p_type 2
    then record elf { dynamic = some (seg.offset, seg.filesz) }
    else elf

-- One program header; the one that frames the unwinding tables is read by nothing.
read_header : List ℕ → ℕ → Elf → Option Elf
read_header d off elf = do
  p_type ← u32 d off
  p_flags ← u32 d (off + 4)
  p_offset ← u64 d (off + 8)
  p_vaddr ← u64 d (off + 16)
  p_filesz ← u64 d (off + 32)
  p_memsz ← u64 d (off + 40)
  align ← u64 d (off + 48)
  some (
      with_header p_type
        (record {
          vaddr = p_vaddr;
          offset = p_offset;
          filesz = p_filesz;
          memsz = p_memsz;
          flags = p_flags;
        })
        elf)

read_headers : ℕ → List ℕ → ℕ → ℕ → Elf → Option Elf
read_headers zero d off entsize elf = some elf
read_headers (suc phnum) d off entsize elf =
    read_header d off elf >>= read_headers phnum d (off + entsize) entsize

abbrev has_magic : List ℕ → Bool
has_magic (a ∷ b ∷ c ∷ e ∷ rest) = eqb a 127 && eqb b 69 && eqb c 76 && eqb e 70
has_magic d = false

unfoldable pub load : List ℕ → Option Elf
unfolding read_header read_headers
load d = if not (has_magic d) then none else do
  bits ← get_elem? d 4
  if not (eqb bits 2) then none else (do
    machine ← u16 d 18
    phoff ← u64 d 32
    phentsize ← u16 d 54
    phnum ← u16 d 56
    read_headers phnum d phoff phentsize
        (record { contents = d; machine = machine; loads = []; dynamic = none }))

-- The first segment that may be executed.
unfoldable pub exec_segment : List Segment → Option Segment
exec_segment [] = none
exec_segment (seg ∷ segs) = if eqb (seg.flags % 2) 1 then some seg else exec_segment segs

unfoldable pub vaddr_to_off : List Segment → ℕ → Option ℕ
vaddr_to_off [] va = none
vaddr_to_off (seg ∷ segs) va =
    if leb seg.vaddr va && ltb va (seg.vaddr + seg.memsz)
    then some (seg.offset + (va - seg.vaddr))
    else vaddr_to_off segs va

-- `tags.get(t)`: the last value of a tag counts. The tags that are asked for are not negative.
unfoldable pub dynamic_tag : ℕ → List (ℕ × ℕ) → Option ℕ
dynamic_tag t [] = none
dynamic_tag t ((k, v) ∷ tags) = elim (dynamic_tag t tags) [
  | none ↦ (if eqb k t then some v else none)
  | some w ↦ some w
]

unfoldable pub tags_from : ℕ → List ℕ → ℕ → Option (List (ℕ × ℕ))
tags_from zero d off = some []
tags_from (suc n) d off =
    let rest = tags_from n d (off + 16) in
    (do
      t ← u64 d off
      v ← u64 d (off + 8)
      if eqb t 0 then some [] else (rest >>= λ tags. some ((t, v) ∷ tags)))

unfoldable pub dynamic_tags : Elf → Option (List (ℕ × ℕ))
dynamic_tags elf = elf.dynamic >>= λ place. tags_from (place.1 / 16) elf.contents place.0

-- `tags.get(t, 0)`
abbrev or_zero : Option ℕ → ℕ
or_zero none = 0
or_zero (some n) = n

-- The bytes up to a NUL, if there is one.
unfoldable pub until_nul : List ℕ → Option (List ℕ)
until_nul [] = none
until_nul (b ∷ d) =
    if eqb b 0 then some [] else elim (until_nul d) [ none ↦ none | some text ↦ some (b ∷ text) ]

module _ (decode : List ℕ → String) where
  name_at : Option (List ℕ) → String
  name_at none = "?"
  name_at (some text) = decode text

  unfoldable pub symname : List ℕ → ℕ → ℕ → ℕ → ℕ → Option String
  unfolding name_at
  symname d strtab symtab strsz idx =
      if ltb (length d) (symtab + idx * 24 + 4) then some "?" else do
        st_name ← u32 d (symtab + idx * 24)
        some (if leb strsz st_name then "?" else name_at (until_nul (drop (strtab + st_name) d)))

  -- The relocations of one table; a table that is cut off ends there.
  relocs_from : ℕ → List ℕ → ℕ → (ℕ → Option String) → Option Relocs
  relocs_from zero d at name = some []
  relocs_from (suc n) d at name =
      let rest = relocs_from n d (at + 24) name in
      if ltb (length d) (at + 16) then some [] else do
        r_offset ← u64 d at
        r_info ← u64 d (at + 8)
        symbol ← name (r_info / 2 ^ 32)
        relocs ← rest
        some (relocs ++ (r_offset, symbol) ∷ [])

  table_relocs : Elf → List (ℕ × ℕ) → ℕ → ℕ → (ℕ → Option String) → Option Relocs
  unfolding relocs_from
  table_relocs elf tags tag_off tag_sz name = elim (dynamic_tag tag_off tags) [
    | none ↦ some []
    | some va ↦ elim (vaddr_to_off elf.loads va) [
      | none ↦ some []
      | some at ↦ relocs_from (or_zero (dynamic_tag tag_sz tags) / 24) elf.contents at name
    ]
  ]

  both_tables : Elf → List (ℕ × ℕ) → Option ℕ → Option ℕ → Option Relocs
  unfolding table_relocs
  both_tables elf tags none symtab = some []
  both_tables elf tags (some strtab) none = some []
  both_tables elf tags (some strtab) (some symtab) =
      let strsz = or_zero (dynamic_tag 10 tags) in
      let name = symname elf.contents strtab symtab strsz in
      (do
        jump ← table_relocs elf tags 23 2 name
        rela ← table_relocs elf tags 7 8 name
        some (rela ++ jump))

  place_of : Elf → List (ℕ × ℕ) → ℕ → Option ℕ
  place_of elf tags t = dynamic_tag t tags >>= vaddr_to_off elf.loads

  -- The slots and their names, the latest entry of a slot first.
  unfoldable pub reloc_map : Elf → Option Relocs
  unfolding both_tables place_of
  reloc_map elf =
      dynamic_tags elf >>= λ tags. both_tables elf tags (place_of elf tags 5) (place_of elf tags 6)

-- The table of stubs, for the two machines that are known.
unfoldable pub find_stubs : Elf → Relocs → Option (List Stub)
find_stubs elf relocs = do
  seg ← exec_segment elf.loads
  if eqb elf.machine 62
      then stubs_x86 elf.contents seg.vaddr seg.offset seg.filesz relocs
      else if eqb elf.machine 183
      then stubs_arm64 elf.contents seg.vaddr seg.offset seg.filesz relocs
      else some []

-- The branches to an address, up to a limit.
unfoldable pub find_branch_callers : Elf → ℕ → ℕ → Option (List ℕ)
find_branch_callers elf target limit = do
  seg ← exec_segment elf.loads
  if eqb elf.machine 183
      then branch_callers_arm64 elf.contents seg.vaddr seg.offset seg.filesz target limit
      else if eqb elf.machine 62
      then branch_callers_x86 elf.contents seg.vaddr seg.offset seg.filesz target limit
      else some []
