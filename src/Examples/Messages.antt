-- ===== src/Examples/Messages.antt =====
-- Varints, packed values, frames and messages of protobuf_decode_raw.py.
use android_workbench.Prelude.{
  ◌≤◌, ◌<◌, ◌^◌, ◌+◌, ◌-◌, some, false, [], ◌∷◌, ◌++◌, length, pos, negsuc, ◌≡◌, refl, arith,
}
use android_workbench.Protobuf.Varint.{
  Info, read_varint, read_loop, encode_varint, encode_loop, varint_len, len_loop, encode_signed,
  masked, zigzag_decode, int32_view, int64_view, non_canonical, canonical_bytes,
}
use android_workbench.Protobuf.Varint.RoundTrip.{read_varint-encode_varint, read_back}
use android_workbench.Protobuf.Varint.Bounds.{read_varint-Bounded}
use android_workbench.Protobuf.Walk.{
  Fields, nil, cons, varint, payload, group, fixed32, Walked, Status, Fault, walk_message, walk,
  reencode_fields, reencode_field, read_field, read_tag, read_value,
}
use android_workbench.Protobuf.Walk.Fuel.{walk_message_ends}
use android_workbench.Protobuf.Walk.RoundTrip.{walk_message-reencode_fields}
use android_workbench.Protobuf.Framing.{SplitFault, refused, frames, split_varint_length, stream}
use android_workbench.Protobuf.Framing.RoundTrip.{
  split_varint_length-stream, split_varint_length_cut,
}

read_varint-encode_varint_example :
    read_varint (encode_varint 300 ++ 7 ∷ []) ≡ read_back 300 (varint_len 300) (7 ∷ [])
read_varint-encode_varint_example = read_varint-encode_varint 300 (7 ∷ []) (omega arith)

abbrev two_bytes : Info
two_bytes = record { value = 300; bytes = 2; overflow = false; too_long = false; rest = [] }

reads_two : read_varint (172 ∷ 2 ∷ []) ≡ some two_bytes
unfolding read_varint read_loop
reads_two = refl

read_varint-Bounded_example : (300 < 2 ^ 64) × (2 ≤ 10)
read_varint-Bounded_example = read_varint-Bounded (172 ∷ 2 ∷ []) two_bytes reads_two refl

walk_message_ends_example :
    (w : Walked) × (walk_message 5 (8 ∷ 150 ∷ 1 ∷ 13 ∷ []) ≡ some w) × (length w.rest ≤ 4)
walk_message_ends_example = walk_message_ends 5 (8 ∷ 150 ∷ 1 ∷ 13 ∷ [])

-- A number, a text, and a group with a fixed field.
abbrev tree : Fields
tree = cons (varint 1 150 2 false false) (
    cons (payload 2 (104 ∷ 105 ∷ []))
      (cons (group 3 (cons (fixed32 4 (1 ∷ 2 ∷ 3 ∷ 4 ∷ [])) nil) false) nil))

len_of_150 : 2 ≡ varint_len 150
unfolding varint_len len_loop
len_of_150 = refl

walk_message-reencode_fields_example :
    walk_message 5 (reencode_fields tree)
    ≡ some (record { fields = tree; rest = []; status = Status.end_of_buffer; errors = [] })
walk_message-reencode_fields_example = walk_message-reencode_fields 5 tree (
  (omega arith, omega arith, len_of_150, refl, refl),
  ((omega arith, omega arith), ((omega arith, refl, omega arith, ((omega arith, refl), tt)), tt)),
)

split_varint_length-stream_example :
    split_varint_length (stream ((1 ∷ 2 ∷ []) ∷ [] ∷ [])) ≡ frames ((1 ∷ 2 ∷ []) ∷ [] ∷ [])
split_varint_length-stream_example =
    split_varint_length-stream ((1 ∷ 2 ∷ []) ∷ [] ∷ []) (omega arith, (omega arith, tt))

split_varint_length_cut_example :
    split_varint_length (stream ((1 ∷ []) ∷ []) ++ (encode_varint 3 ++ (9 ∷ [])))
    ≡ refused SplitFault.frame_overrun
split_varint_length_cut_example =
    split_varint_length_cut ((1 ∷ []) ∷ []) 3 (9 ∷ []) (omega arith, tt) (omega arith) (omega arith)

tree_is_written :
    reencode_fields tree ≡ 8 ∷ 150 ∷ 1 ∷ 18 ∷ 2 ∷ 104 ∷ 105 ∷ 27 ∷ 37 ∷ 1 ∷ 2 ∷ 3 ∷ 4 ∷ 28 ∷ []
unfolding reencode_fields reencode_field encode_varint encode_loop
tree_is_written = refl

minus_one_takes_ten : length (encode_signed (negsuc 0)) ≡ 10
unfolding encode_signed masked encode_varint encode_loop
minus_one_takes_ten = refl

zigzags : zigzag_decode 3 ≡ negsuc 1
unfolding zigzag_decode
zigzags = refl

wraps_32 : int32_view (2 ^ 32 - 1) ≡ negsuc 0
unfolding int32_view
wraps_32 = refl

wraps_64 : int64_view (2 ^ 64 + 5) ≡ pos 5
unfolding int64_view
wraps_64 = refl

open_group_is_an_error :
    walk_message 5 (27 ∷ 8 ∷ 1 ∷ [])
    ≡ some (record {
      fields = cons (group 3 (cons (varint 1 1 1 false false) nil) false) nil;
      rest = [];
      status = Status.end_of_buffer;
      errors = Fault.unterminated_group ∷ [];
    })
unfolding walk_message walk read_field read_tag read_value read_varint read_loop non_canonical
    canonical_bytes varint_len len_loop
open_group_is_an_error = refl
