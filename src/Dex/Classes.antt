-- ===== src/Dex/Classes.antt =====
-- dexutil.py: the header of a dex file and its index tables (50-62, 316-357, 360-448). How bytes are
-- decoded into a text is a parameter; `none` is an exception.
pub mod Members
use android_workbench.Prelude.{
  ℕ, zero, suc, ◌+◌, ◌*◌, String, Option, none, some, Bool, true, false, not, ◌&&◌, List, [], ◌∷◌,
  ◌++◌, drop, take, length, ltb, leb, eqb, codes_eq, concat, ◌==◌, if◌then◌else◌,
}
use android_workbench.Dex.Bytes.{◌>>=◌, u16, u32, read_uleb}

-- The fields of OFFSETS.
pub record Header : Type 0 where
  pub file_size : ℕ
  pub header_size : ℕ
  pub endian_tag : ℕ
  pub link_size : ℕ
  pub link_off : ℕ
  pub map_off : ℕ
  pub string_ids_size : ℕ
  pub string_ids_off : ℕ
  pub type_ids_size : ℕ
  pub type_ids_off : ℕ
  pub proto_ids_size : ℕ
  pub proto_ids_off : ℕ
  pub field_ids_size : ℕ
  pub field_ids_off : ℕ
  pub method_ids_size : ℕ
  pub method_ids_off : ℕ
  pub class_defs_size : ℕ
  pub class_defs_off : ℕ
  pub data_size : ℕ
  pub data_off : ℕ

unfoldable pub header_of : List ℕ → Option Header
header_of d = do
  file_size ← u32 d 32
  header_size ← u32 d 36
  endian_tag ← u32 d 40
  link_size ← u32 d 44
  link_off ← u32 d 48
  map_off ← u32 d 52
  string_ids_size ← u32 d 56
  string_ids_off ← u32 d 60
  type_ids_size ← u32 d 64
  type_ids_off ← u32 d 68
  proto_ids_size ← u32 d 72
  proto_ids_off ← u32 d 76
  field_ids_size ← u32 d 80
  field_ids_off ← u32 d 84
  method_ids_size ← u32 d 88
  method_ids_off ← u32 d 92
  class_defs_size ← u32 d 96
  class_defs_off ← u32 d 100
  data_size ← u32 d 104
  data_off ← u32 d 108
  some (record {
    file_size = file_size;
    header_size = header_size;
    endian_tag = endian_tag;
    link_size = link_size;
    link_off = link_off;
    map_off = map_off;
    string_ids_size = string_ids_size;
    string_ids_off = string_ids_off;
    type_ids_size = type_ids_size;
    type_ids_off = type_ids_off;
    proto_ids_size = proto_ids_size;
    proto_ids_off = proto_ids_off;
    field_ids_size = field_ids_size;
    field_ids_off = field_ids_off;
    method_ids_size = method_ids_size;
    method_ids_off = method_ids_off;
    class_defs_size = class_defs_size;
    class_defs_off = class_defs_off;
    data_size = data_size;
    data_off = data_off;
  })

pub data Problem : Type 0 where
  no_dex : Problem
  off_range : String → ℕ → Problem
  other_size : ℕ → Problem

abbrev pub check_off : ℕ → String → ℕ → List Problem
check_off size key off = if ltb 0 off && ltb off size then [] else off_range key off ∷ []

-- `check`: an empty list means that the file parses.
unfoldable pub check : List ℕ → Header → List Problem
check d h =
    let size = length d in
    (if codes_eq (take 4 d) (100 ∷ 101 ∷ 120 ∷ 10 ∷ []) then [] else no_dex ∷ [])
    ++ check_off size "string_ids_off" h.string_ids_off
    ++ check_off size "type_ids_off" h.type_ids_off
    ++ check_off size "proto_ids_off" h.proto_ids_off
    ++ check_off size "field_ids_off" h.field_ids_off
    ++ check_off size "method_ids_off" h.method_ids_off
    ++ check_off size "class_defs_off" h.class_defs_off
    ++ (if not (eqb h.file_size 0) && not (eqb h.file_size size)
        then other_size h.file_size ∷ []
        else [])

-- The bytes before the first zero.
abbrev pub until_zero : List ℕ → Option (List ℕ)
until_zero [] = none
until_zero (b ∷ bs) =
    let rest = until_zero bs in if eqb b 0 then some [] else (rest >>= λ xs. some (b ∷ xs))

pub record MethodId : Type 0 where
  pub owner : String
  pub name : String
  pub descriptor : String

pub record Member : Type 0 where
  pub section : String
  pub index : ℕ
  pub method : MethodId
  pub code_off : ℕ

-- What a generator has yielded, and whether an exception ended it.
pub record Listed : Type 0 where
  pub members : List Member
  pub raised : Bool

abbrev pub none_listed : Bool → Listed
none_listed raised = record { members = []; raised = raised }

abbrev pub before : Member → Listed → Listed
before m rest = record rest { members = m ∷ rest.members }

-- One entry of a list of methods: its index is a difference to the one before it.
pub record Entry : Type 0 where
  pub diff : ℕ
  pub access : ℕ
  pub code_off : ℕ
  pub next : ℕ

unfoldable pub read_entry : List ℕ → ℕ → Option Entry
read_entry d p = do
  (diff, p1) ← read_uleb d p
  (access, p2) ← read_uleb d p1
  (code_off, p3) ← read_uleb d p2
  some (record { diff = diff; access = access; code_off = code_off; next = p3 })

-- The list of fields is skipped.
unfoldable pub skip_fields : ℕ → List ℕ → ℕ → Option ℕ
skip_fields zero d p = some p
skip_fields (suc count) d p = do
  (index, p1) ← read_uleb d p
  (access, p2) ← read_uleb d p1
  skip_fields count d p2

module _ (method_id : ℕ → Option MethodId) (section : String) (d : List ℕ) where
  abbrev pub named_entry : ℕ → Entry → (ℕ → ℕ → Listed) → Option MethodId → Listed
  named_entry running e again none = none_listed true
  named_entry running e again (some method) =
      before
        (record {
          section = section;
          index = running + e.diff;
          method = method;
          code_off = e.code_off;
        })
        (again e.next (running + e.diff))

  abbrev pub listed_entry : ℕ → (ℕ → ℕ → Listed) → Option Entry → Listed
  listed_entry running again none = none_listed true
  listed_entry running again (some e) = named_entry running e again (method_id (running + e.diff))

  -- The methods of one section from an offset on; `k` goes on behind it.
  unfoldable pub read_members : ℕ → ℕ → ℕ → (ℕ → Listed) → Listed
  read_members zero p running k = k p
  read_members (suc count) p running k =
      listed_entry running (λ p' running'. read_members count p' running' k) (read_entry d p)
