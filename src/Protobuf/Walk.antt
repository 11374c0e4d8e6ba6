-- ===== src/Protobuf/Walk.antt =====
-- protobuf_decode_raw.py: `walk` (256-465) and `reencode_field` (632-673), for `analyse=False`, the
-- mode in which a payload is kept as bytes. A position in the buffer is the list of the bytes from it
-- on. The notes for the reader, the offsets and the rendered values are left out.
pub mod Fuel
pub mod RoundTrip
use android_workbench.Prelude.{
  ℕ, zero, suc, ◌+◌, ◌*◌, ◌/◌, ◌%◌, Option, none, some, Bool, true, false, ◌&&◌, ◌||◌, List, [],
  ◌∷◌, ◌++◌, length, eqb, leb, if◌then◌else◌,
}
use android_workbench.Protobuf.Varint.{Info, read_varint, encode_varint, non_canonical, too_wide}

-- A field of the tree. A varint carries its value, the number of its bytes, and whether these are too
-- many or hold too many bits; a group, whether its children were left out for its depth.
mutual
  pub data Field : Type 0 where
    varint : ℕ → ℕ → ℕ → Bool → Bool → Field
    fixed64 : ℕ → List ℕ → Field
    fixed32 : ℕ → List ℕ → Field
    payload : ℕ → List ℕ → Field
    group : ℕ → Fields → Bool → Field

  pub data Fields : Type 0 where
    nil : Fields
    cons : Field → Fields → Fields

pub data Fault : Type 0 where
  truncated_tag varint_overflow stray_end_group invalid_wire_type truncated_value : Fault
  truncated_fixed64 truncated_fixed32 truncated_length_prefix length_overruns_buffer : Fault
  unterminated_group : Fault

pub data Status : Type 0 where
  end_of_buffer end_group : Status
  stopped : Fault → Status

pub record Walked : Type 0 where
  pub fields : Fields
  pub rest : List ℕ
  pub status : Status
  pub errors : List Fault

-- The next `n` bytes and those behind them, if there are so many.
unfoldable pub read_bytes : ℕ → List ℕ → Option (List ℕ × List ℕ)
read_bytes zero buf = some ([], buf)
read_bytes (suc n) [] = none
read_bytes (suc n) (b ∷ buf) = elim (read_bytes n buf) [
  | none ↦ none
  | some (front, rest) ↦ some (b ∷ front, rest)
]

-- What one round of the loop finds.
pub data Found : Type 0 where
  nothing : Found
  halts : Status → List ℕ → List Fault → Found
  leaf : Field → List ℕ → Found
  opens : ℕ → List ℕ → Found
  too_deep : ℕ → Found

abbrev fails : Fault → List ℕ → Found
fails fault rest = halts (stopped fault) rest (fault ∷ [])

abbrev chunk_or : (List ℕ → Field) → Fault → List ℕ → Option (List ℕ × List ℕ) → Found
chunk_or f fault rest none = fails fault rest
chunk_or f fault rest (some (chunk, behind)) = leaf (f chunk) behind

abbrev value_or : ℕ → List ℕ → Option Info → Found
value_or num rest none = fails truncated_value rest
value_or num rest (some v) = leaf (varint num v.value v.bytes (non_canonical v) (too_wide v)) v.rest

abbrev length_or : ℕ → List ℕ → Option Info → Found
length_or num rest none = fails truncated_length_prefix rest
length_or num rest (some l) =
    if too_wide l
    then fails length_overruns_buffer rest
    else chunk_or (payload num) length_overruns_buffer rest (read_bytes l.value l.rest)

abbrev closes : Option ℕ → ℕ → List ℕ → Found
closes none num rest = fails stray_end_group rest
closes (some open_group) num rest =
    if eqb num open_group then halts end_group rest [] else fails stray_end_group rest

-- The field whose tag has been read, by its wire type.
unfoldable pub read_value : ℕ → ℕ → Option ℕ → ℕ → ℕ → List ℕ → Found
read_value max_depth depth until num wire rest =
    if eqb wire 4
    then closes until num rest
    else if eqb wire 0
    then value_or num rest (read_varint rest)
    else if eqb wire 1
    then chunk_or (fixed64 num) truncated_fixed64 rest (read_bytes 8 rest)
    else if eqb wire 5
    then chunk_or (fixed32 num) truncated_fixed32 rest (read_bytes 4 rest)
    else if eqb wire 2
    then length_or num rest (read_varint rest)
    else if eqb wire 3
    then (if leb max_depth depth then too_deep num else opens num rest)
    else fails invalid_wire_type rest

unfoldable pub read_tag : ℕ → ℕ → Option ℕ → List ℕ → Option Info → Found
read_tag max_depth depth until buf none = fails truncated_tag buf
read_tag max_depth depth until buf (some tag) =
    if too_wide tag
    then fails varint_overflow tag.rest
    else read_value max_depth depth until (tag.value / 8) (tag.value % 8) tag.rest

unfoldable pub read_field : ℕ → ℕ → Option ℕ → List ℕ → Found
read_field max_depth depth until [] = nothing
read_field max_depth depth until (b ∷ buf) =
    read_tag max_depth depth until (b ∷ buf) (read_varint (b ∷ buf))

abbrev pub with_field : Field → Option Walked → Option Walked
with_field x none = none
with_field x (some w) = some (record w { fields = cons x w.fields })

abbrev pub group_errors : Walked → List Fault
group_errors inner = elim (inner.status) [
  | end_group ↦ inner.errors
  | _ ↦ inner.errors ++ unterminated_group ∷ []
]

abbrev pub with_inner : ℕ → Walked → Option Walked → Option Walked
with_inner num inner none = none
with_inner num inner (some w) = some (record w {
  fields = cons (group num inner.fields false) w.fields;
  errors = group_errors inner ++ w.errors;
})

abbrev opened : ℕ → Option Walked → (List ℕ → Option Walked) → Option Walked
opened num none again = none
opened num (some inner) again = with_inner num inner (again inner.rest)

-- The rest of the loop; `again` is the walk at a depth, in a group or none, from some byte on. It goes
-- on behind a group, also where the group was not closed.
abbrev pub walk_on : (ℕ → Option ℕ → List ℕ → Option Walked) → ℕ → Option ℕ → Found → Option Walked
walk_on again depth until nothing =
    some (record { fields = nil; rest = []; status = end_of_buffer; errors = [] })
walk_on again depth until (halts status rest errors) =
    some (record { fields = nil; rest = rest; status = status; errors = errors })
walk_on again depth until (leaf x rest) = with_field x (again depth until rest)
walk_on again depth until (too_deep num) = with_field (group num nil true) (again depth until [])
walk_on again depth until (opens num rest) =
    opened num (again (suc depth) (some num) rest) (again depth until)

-- `none` is a walk that ran out of fuel; each round takes a byte at least.
unfoldable pub walk : ℕ → ℕ → ℕ → Option ℕ → List ℕ → Option Walked
walk zero max_depth depth until buf = none
walk (suc fuel) max_depth depth until buf =
    walk_on (walk fuel max_depth) depth until (read_field max_depth depth until buf)

unfoldable pub walk_message : ℕ → List ℕ → Option Walked
walk_message max_depth buf = walk (suc (length buf)) max_depth 0 none buf

abbrev pub tag : ℕ → ℕ → List ℕ
tag num wire = encode_varint (num * 8 + wire)

unfoldable mutual
  pub reencode_field : Field → List ℕ
  reencode_field (varint num v bytes nc wide) = tag num 0 ++ encode_varint v
  reencode_field (fixed64 num chunk) = tag num 1 ++ chunk
  reencode_field (fixed32 num chunk) = tag num 5 ++ chunk
  reencode_field (payload num chunk) = tag num 2 ++ (encode_varint (length chunk) ++ chunk)
  reencode_field (group num children cut) = tag num 3 ++ (reencode_fields children ++ tag num 4)

  pub reencode_fields : Fields → List ℕ
  reencode_fields nil = []
  reencode_fields (cons x xs) = reencode_field x ++ reencode_fields xs
