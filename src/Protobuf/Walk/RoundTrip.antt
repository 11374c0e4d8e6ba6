-- ===== src/Protobuf/Walk/RoundTrip.antt =====
-- The way back: what `reencode_field` writes, under `walk`.
use android_workbench.Prelude.{
  ℕ, suc, ◌+◌, ◌-◌, ◌*◌, ◌/◌, ◌%◌, ◌^◌, ◌≤◌, ◌<◌, Option, none, some, true, false, List, [], ◌∷◌,
  ◌++◌, length, eqb, leb, ◌≡◌, refl, sym, ◌∙◌, ap, append_assoc, append-nil, arith, subst, ltb,
}
use android_workbench.Protobuf.Varint.{
  Info, read_varint, read_loop, encode_varint, varint_len, non_canonical, canonical_bytes, too_wide,
}
use android_workbench.Protobuf.Varint.RoundTrip.{read_varint-encode_varint, IsU64}
use android_workbench.Protobuf.Walk.{
  Field, Fields, nil, cons, varint, group, payload, fixed64, fixed32, Status, Walked, leaf, opens,
  read_bytes, read_value, read_tag, read_field, walk, walk_message, tag, reencode_field,
  reencode_fields,
}
use android_workbench.Protobuf.Walk.Fuel.{walk_more, walk_same, walk_message_ends}

-- The tag of a field fits in 64 bits.
abbrev pub IsNumber : ℕ → Type 0
IsNumber num = num < 2 ^ 61

-- A tree that the walk can find: numbers, values and lengths fit, fixed fields have their size, the
-- varints are as short as they can be, and the groups are not deeper than the walk goes. `room` is how
-- many levels may open.
abbrev mutual
  pub FieldFits : ℕ → Field → Type 0
  FieldFits room (varint num v bytes nc wide) =
      IsNumber num × IsU64 v × (bytes ≡ varint_len v) × (nc ≡ false) × (wide ≡ false)
  FieldFits room (fixed64 num chunk) = IsNumber num × (length chunk ≡ 8)
  FieldFits room (fixed32 num chunk) = IsNumber num × (length chunk ≡ 4)
  FieldFits room (payload num chunk) = IsNumber num × IsU64 (length chunk)
  FieldFits room (group num children cut) =
      IsNumber num × (cut ≡ false) × (0 < room) × Fits (room - 1) children

  pub Fits : ℕ → Fields → Type 0
  Fits room nil = Unit
  Fits room (cons x xs) = FieldFits room x × Fits room xs

pub read_bytes-append :
    (chunk rest : List ℕ) → read_bytes (length chunk) (chunk ++ rest) ≡ some (chunk, rest)
unfolding read_bytes
read_bytes-append [] rest = refl
read_bytes-append (b ∷ chunk) rest = rw (read_bytes-append chunk rest) refl

from_tag :
    (max_depth depth : ℕ) (until : Option ℕ) (buf : List ℕ) (t : Info)
    → read_varint buf ≡ some t
    → too_wide t ≡ false
    → read_field max_depth depth until buf
      ≡ read_value max_depth depth until (t.value / 8) (t.value % 8) t.rest
unfolding read_field read_tag
from_tag max_depth depth until [] t e w = unfold read_varint read_loop in cc
from_tag max_depth depth until (b ∷ buf) t e w = rw (e, w) refl

-- A tag that was written is read, and the field goes on behind it.
read_field-tag :
    (max_depth depth : ℕ) (until : Option ℕ) (num wire : ℕ) (rest : List ℕ)
    → IsNumber num
    → wire < 8
    → read_field max_depth depth until (tag num wire ++ rest)
      ≡ read_value max_depth depth until num wire rest
read_field-tag max_depth depth until num wire rest h w =
    let q : (num * 8 + wire) / 8 ≡ num = omega arith in
    let r : (num * 8 + wire) % 8 ≡ wire = omega arith in
    from_tag max_depth depth until (tag num wire ++ rest) _
      (read_varint-encode_varint (num * 8 + wire) rest (omega arith)) refl
    ∙ rw (q, r) refl

abbrev pub append_fields : Fields → Fields → Fields
append_fields nil ys = ys
append_fields (cons x xs) ys = cons x (append_fields xs ys)

abbrev before : Field → Walked → Walked
before x w = record w { fields = cons x w.fields }

abbrev all_before : Fields → Walked → Walked
all_before xs w = record w { fields = append_fields xs w.fields }

-- The walk finds this, with some fuel.
abbrev Finds : ℕ → ℕ → Option ℕ → List ℕ → Walked → Type 0
Finds max_depth depth until buf w = (fuel : ℕ) × (walk fuel max_depth depth until buf ≡ some w)

-- A value that was written is the next leaf.
value_leaf :
    (max_depth depth : ℕ) (until : Option ℕ) (num v : ℕ) (rest : List ℕ)
    → IsU64 v
    → read_value max_depth depth until num 0 (encode_varint v ++ rest)
      ≡ leaf (varint num v (varint_len v) false false) rest
unfolding read_value non_canonical canonical_bytes
value_leaf max_depth depth until num v rest h =
    let small : v % 2 ^ 64 ≡ v = omega arith in
    let same : ltb (varint_len v) (varint_len v) ≡ false = ground arith in
    rw (read_varint-encode_varint v rest h, small, same) refl

sized_leaf64 :
    (max_depth depth : ℕ) (until : Option ℕ) (num : ℕ) (chunk rest : List ℕ)
    → length chunk ≡ 8
    → read_value max_depth depth until num 1 (chunk ++ rest) ≡ leaf (fixed64 num chunk) rest
unfolding read_value
sized_leaf64 max_depth depth until num chunk rest h =
    let r = rw h at (read_bytes-append chunk rest) in rw r refl

sized_leaf32 :
    (max_depth depth : ℕ) (until : Option ℕ) (num : ℕ) (chunk rest : List ℕ)
    → length chunk ≡ 4
    → read_value max_depth depth until num 5 (chunk ++ rest) ≡ leaf (fixed32 num chunk) rest
unfolding read_value
sized_leaf32 max_depth depth until num chunk rest h =
    let r = rw h at (read_bytes-append chunk rest) in rw r refl

payload_leaf :
    (max_depth depth : ℕ) (until : Option ℕ) (num : ℕ) (chunk rest : List ℕ)
    → IsU64 (length chunk)
    → read_value max_depth depth until num 2 (encode_varint (length chunk) ++ (chunk ++ rest))
      ≡ leaf (payload num chunk) rest
unfolding read_value
payload_leaf max_depth depth until num chunk rest h =
    rw (read_varint-encode_varint (length chunk) (chunk ++ rest) h, read_bytes-append chunk rest)
      refl

-- One more round.
leaf-Finds :
    (max_depth depth : ℕ) (until : Option ℕ) (buf rest : List ℕ) (x : Field) (w : Walked)
    → read_field max_depth depth until buf ≡ leaf x rest
    → Finds max_depth depth until rest w
    → Finds max_depth depth until buf (before x w)
unfolding walk
leaf-Finds max_depth depth until buf rest x w e (fuel, h) = (suc fuel, rw (e, h) refl)

opens-Finds :
    (max_depth depth : ℕ) (until : Option ℕ) (buf inside rest : List ℕ) (num : ℕ) (xs : Fields)
    (w : Walked)
    → read_field max_depth depth until buf ≡ opens num inside
    → Finds max_depth
        (suc depth)
        (some num)
        inside
        (record { fields = xs; rest = rest; status = Status.end_group; errors = [] })
    → Finds max_depth depth until rest w
    → Finds max_depth depth until buf (before (group num xs false) w)
unfolding walk
opens-Finds max_depth depth until buf inside rest num xs w e (f, h) (g, k) =
    let h' = walk_more f (f + g) max_depth (suc depth) (some num) inside _ (omega arith) h in
    let k' = walk_more g (f + g) max_depth depth until rest w (omega arith) k in
    (suc (f + g), rw (e, h', k') refl)

-- The tag that ends a group is found in it.
closed-Finds :
    (max_depth depth num : ℕ) (rest : List ℕ)
    → IsNumber num
    → Finds max_depth depth
        (some num)
        (tag num 4 ++ rest)
        (record { fields = nil; rest = rest; status = Status.end_group; errors = [] })
unfolding walk read_value
closed-Finds max_depth depth num rest h =
    let same : eqb num num ≡ true = ground arith in
    (1, rw (read_field-tag max_depth depth (some num) num 4 rest h (omega arith), same) refl)

append_fields-nil : (xs : Fields) → append_fields xs nil ≡ xs
append_fields-nil nil = refl
append_fields-nil (cons x xs) = ap (cons x) (append_fields-nil xs)

-- A tag, and a body that is the next leaf.
tagged-Finds :
    (max_depth depth : ℕ) (until : Option ℕ) (num wire : ℕ) (body rest : List ℕ) (x : Field)
    (w : Walked)
    → IsNumber num
    → wire < 8
    → read_value max_depth depth until num wire (body ++ rest) ≡ leaf x rest
    → Finds max_depth depth until rest w
    → Finds max_depth depth until ((tag num wire ++ body) ++ rest) (before x w)
tagged-Finds max_depth depth until num wire body rest x w n l e h =
    subst (λ b. Finds max_depth depth until b (before x w))
      (sym (append_assoc (tag num wire) body rest))
      (leaf-Finds max_depth depth until (tag num wire ++ (body ++ rest)) rest x w
        (read_field-tag max_depth depth until num wire (body ++ rest) n l ∙ e) h)

group_opens :
    (max_depth depth : ℕ) (until : Option ℕ) (num : ℕ) (inside : List ℕ)
    → IsNumber num
    → depth < max_depth
    → read_field max_depth depth until (tag num 3 ++ inside) ≡ opens num inside
unfolding read_value
group_opens max_depth depth until num inside n d =
    let shallow : leb max_depth depth ≡ false = ground arith in
    read_field-tag max_depth depth until num 3 inside n (omega arith) ∙ rw shallow refl

-- The bytes of a group stand in one row.
group_bytes : (a b c rest : List ℕ) → (a ++ (b ++ c)) ++ rest ≡ a ++ (b ++ (c ++ rest))
group_bytes a b c rest = append_assoc a (b ++ c) rest ∙ ap (λ r. a ++ r) (append_assoc b c rest)

abbrev ended : List ℕ → Walked
ended rest = record { fields = nil; rest = rest; status = Status.end_group; errors = [] }

mutual
  unfolding reencode_field reencode_fields

  field-Finds :
      (max_depth depth room : ℕ) (until : Option ℕ) (x : Field) (rest : List ℕ) (w : Walked)
      → depth + room ≤ max_depth
      → FieldFits room x
      → Finds max_depth depth until rest w
      → Finds max_depth depth until (reencode_field x ++ rest) (before x w)
  field-Finds max_depth depth room until (varint num v bytes nc wide) rest w d (n, u, b, c, o) h =
      let found = value_leaf max_depth depth until num v rest u in
      tagged-Finds max_depth depth until num 0 (encode_varint v) rest (varint num v bytes nc wide) w
        n (omega arith) (rw (b, c, o) found) h
  field-Finds max_depth depth room until (fixed64 num chunk) rest w d (n, l) h =
      tagged-Finds max_depth depth until num 1 chunk rest (fixed64 num chunk) w n (omega arith)
        (sized_leaf64 max_depth depth until num chunk rest l) h
  field-Finds max_depth depth room until (fixed32 num chunk) rest w d (n, l) h =
      tagged-Finds max_depth depth until num 5 chunk rest (fixed32 num chunk) w n (omega arith)
        (sized_leaf32 max_depth depth until num chunk rest l) h
  field-Finds max_depth depth room until (payload num chunk) rest w d (n, l) h =
      let found = payload_leaf max_depth depth until num chunk rest l in
      tagged-Finds max_depth depth until num 2 (encode_varint (length chunk) ++ chunk) rest
        (payload num chunk) w n (omega arith)
        (rw (append_assoc (encode_varint (length chunk)) chunk rest) found) h
  field-Finds max_depth depth room until (group num children cut) rest w d (n, c, r, k) h =
      let inside =
        fields-Finds max_depth (suc depth) (room - 1) (some num) children (tag num 4 ++ rest)
          (ended rest) (omega arith) k (closed-Finds max_depth (suc depth) num rest n) in
      let whole = reencode_fields children ++ (tag num 4 ++ rest) in
      let opened =
        opens-Finds max_depth depth until (tag num 3 ++ whole) whole rest num
          (append_fields children nil) w
          (group_opens max_depth depth until num whole n (omega arith)) inside h in
      let same =
        subst (λ y. Finds max_depth depth until (tag num 3 ++ whole) (before (group num y false) w))
          (append_fields-nil children) opened in
      let row =
        subst (λ b. Finds max_depth depth until b (before (group num children false) w))
          (sym (group_bytes (tag num 3) (reencode_fields children) (tag num 4) rest)) same in
      rw c row

  fields-Finds :
      (max_depth depth room : ℕ) (until : Option ℕ) (xs : Fields) (rest : List ℕ) (w : Walked)
      → depth + room ≤ max_depth
      → Fits room xs
      → Finds max_depth depth until rest w
      → Finds max_depth depth until (reencode_fields xs ++ rest) (all_before xs w)
  fields-Finds max_depth depth room until nil rest w d f h = h
  fields-Finds max_depth depth room until (cons x xs) rest w d (f, g) h =
      subst (λ b. Finds max_depth depth until b (all_before (cons x xs) w))
        (sym (append_assoc (reencode_field x) (reencode_fields xs) rest))
        (field-Finds max_depth depth room until x (reencode_fields xs ++ rest) (all_before xs w) d f
          (fields-Finds max_depth depth room until xs rest w d g h))

abbrev pub whole : Fields → Walked
whole xs = record { fields = xs; rest = []; status = Status.end_of_buffer; errors = [] }

nothing-Finds :
    (max_depth depth : ℕ) (until : Option ℕ) → Finds max_depth depth until [] (whole nil)
unfolding walk read_field
nothing-Finds max_depth depth until = (1, refl)

-- A tree that the walk can find is walked back from its bytes: every field of it and nothing else, to
-- the end of the buffer and without an error.
pub walk_message-reencode_fields :
    (max_depth : ℕ) (xs : Fields)
    → Fits max_depth xs
    → walk_message max_depth (reencode_fields xs)
      ≡ some (record { fields = xs; rest = []; status = Status.end_of_buffer; errors = [] })
unfolding walk_message
walk_message-reencode_fields max_depth xs f =
    let (fuel, h) =
      fields-Finds max_depth 0 max_depth none xs [] (whole nil) (omega arith) f
        (nothing-Finds max_depth 0 none) in
    let found : walk fuel max_depth 0 none (reencode_fields xs) ≡ some (whole xs) =
      rw (append-nil, append_fields-nil xs) at h in
    let (w, e, l) = walk_message_ends max_depth (reencode_fields xs) in
    let counted : walk (suc (length (reencode_fields xs))) max_depth 0 none (reencode_fields xs)
        ≡ some w =
      e in
    e ∙ ap some (walk_same _ fuel max_depth 0 none (reencode_fields xs) w (whole xs) counted found)
