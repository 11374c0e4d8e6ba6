-- ===== src/Dex/Tables.antt =====
-- dexutil.py: the texts, types, fields and methods that a dex file names (341-448).
use android_workbench.Prelude.{
  ℕ, zero, suc, ◌+◌, ◌*◌, String, Option, none, some, Bool, true, false, ◌&&◌, List, drop, leb, eqb,
  concat, ◌==◌, if◌then◌else◌, first, keep,
}
use android_workbench.Dex.Bytes.{◌>>=◌, u16, u32, read_uleb}
use android_workbench.Dex.Classes.{
  Header, until_zero, MethodId, Member, Listed, none_listed, skip_fields, read_members,
}

-- The placeholders of `string_safe`.
pub data Text : Type 0 where
  text : String → Text
  index_out_of_range unreadable : ℕ → Text

module _ (decode_utf8 : List ℕ → String) (d : List ℕ) (h : Header) where
  unfoldable pub string : ℕ → Option String
  string idx = do
    at_string ← u32 d (h.string_ids_off + idx * 4)
    (utf16_len, p) ← read_uleb d at_string
    bytes ← until_zero (drop p d)
    some (decode_utf8 bytes)

  abbrev readable : ℕ → Option String → Text
  readable idx none = unreadable idx
  readable idx (some s) = text s

  unfoldable pub string_safe : ℕ → Text
  string_safe idx =
      if leb h.string_ids_size idx then index_out_of_range idx else readable idx (string idx)

  unfoldable pub type_name : ℕ → Option String
  type_name idx = do descriptor_idx ← u32 d (h.type_ids_off + idx * 4); string descriptor_idx

  -- `"".join(params)`, from an offset on.
  unfoldable pub params : ℕ → ℕ → Option String
  params zero p = some ""
  params (suc n) p = do
    type_idx ← u16 d p
    param ← type_name type_idx
    rest ← params n (p + 2)
    some (concat param rest)

  abbrev pub params_at : ℕ → Option String
  params_at poff = if eqb poff 0 then some "" else (u32 d poff >>= λ n. params n (poff + 4))

  unfoldable pub proto : ℕ → Option String
  proto idx = do
    let o = h.proto_ids_off + idx * 12
    return_idx ← u32 d (o + 4)
    ret ← type_name return_idx
    poff ← u32 d (o + 8)
    joined ← params_at poff
    some (concat "(" (concat joined (concat ")" ret)))

  unfoldable pub field : ℕ → Option (String × String × String)
  field idx = do
    let o = h.field_ids_off + idx * 8
    class_idx ← u16 d o
    owner ← type_name class_idx
    name_idx ← u32 d (o + 4)
    name ← string name_idx
    type_idx ← u16 d (o + 2)
    descriptor ← type_name type_idx
    some (owner, name, descriptor)

  unfoldable pub method : ℕ → Option MethodId
  method idx = do
    let o = h.method_ids_off + idx * 8
    class_idx ← u16 d o
    owner ← type_name class_idx
    name_idx ← u32 d (o + 4)
    name ← string name_idx
    proto_idx ← u16 d (o + 2)
    descriptor ← proto proto_idx
    some (record { owner = owner; name = name; descriptor = descriptor })

  -- The classes from number `i` on.
  unfoldable pub find_from : String → ℕ → ℕ → Option (Option ℕ)
  find_from fqcn zero i = some none
  find_from fqcn (suc left) i = do
    let o = h.class_defs_off + i * 32
    type_idx ← u32 d o
    name ← type_name type_idx
    if name == fqcn then some (some o) else find_from fqcn left (i + 1)

  unfoldable pub find_class : String → Option (Option ℕ)
  find_class fqcn = find_from fqcn h.class_defs_size 0

  abbrev pub or_raised : Option Listed → Listed
  or_raised none = none_listed true
  or_raised (some listed) = listed

  -- The direct methods, then the virtual ones, whose differences start again.
  unfoldable pub methods_in : ℕ → Option Listed
  methods_in start = do
    (sf, p1) ← read_uleb d start
    (inf, p2) ← read_uleb d p1
    (dm, p3) ← read_uleb d p2
    (vm, p4) ← read_uleb d p3
    p5 ← skip_fields (sf + inf) d p4
    some (
        read_members method "direct" d dm p5 0
          (λ p6. read_members method "virtual" d vm p6 0 (λ p7. none_listed false)))

  unfoldable pub methods_at : ℕ → Listed
  methods_at class_def_off = or_raised (
      u32 d (class_def_off + 24) >>= λ start.
      if eqb start 0 then some (none_listed false) else methods_in start)

  abbrev pub methods_found : Option ℕ → Listed
  methods_found none = none_listed true
  methods_found (some class_def_off) = methods_at class_def_off

  -- A class that is not found is a KeyError.
  unfoldable pub methods_of : String → Listed
  methods_of fqcn = or_raised (find_class fqcn >>= λ o. some (methods_found o))

  abbrev pub among : Bool → Option Member → Option (Option Member)
  among raised (some m) = some (some m)
  among raised none = if raised then none else some none

  -- The first that fits, though an exception may follow it.
  unfoldable pub find_method : String → String → String → Option (Option Member)
  find_method fqcn name desc =
      let listed = methods_of fqcn in
      among listed.raised
        (first (λ m. m.method.name == name && m.method.descriptor == desc) listed.members)

  unfoldable pub find_methods_named : String → String → Option (List Member)
  find_methods_named fqcn name =
      let listed = methods_of fqcn in
      if listed.raised then none else some (keep (λ m. m.method.name == name) listed.members)
