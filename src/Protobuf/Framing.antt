-- ===== src/Protobuf/Framing.antt =====
-- protobuf_decode_raw.py: sequences of varints (`_packed_varint_values` 468-477, `payload_from_view`
-- 622-623) and of frames with a length in front (`split_varint_length` 763-780). A frame is given by
-- its bytes, not by their offsets.
pub mod RoundTrip
use android_workbench.Prelude.{
  ℕ, zero, suc, Option, none, some, Bool, List, [], ◌∷◌, ◌++◌, length, if◌then◌else◌,
}
use android_workbench.Protobuf.Varint.{Info, read_varint, encode_varint, too_wide}
use android_workbench.Protobuf.Walk.{read_bytes}

abbrev value_and : (List ℕ → List ℕ) → Option Info → List ℕ
value_and again none = []
value_and again (some info) = info.value ∷ again info.rest

-- Each round takes a byte at least, so the length of the bytes is enough fuel.
unfoldable pub packed_loop : ℕ → List ℕ → List ℕ
packed_loop zero chunk = []
packed_loop (suc fuel) [] = []
packed_loop (suc fuel) (b ∷ chunk) = value_and (packed_loop fuel) (read_varint (b ∷ chunk))

-- `_packed_varint_values`
unfoldable pub packed_varint_values : List ℕ → List ℕ
packed_varint_values chunk = packed_loop (length chunk) chunk

-- `payload_from_view` of a packed field.
unfoldable pub packed_payload : List ℕ → List ℕ
packed_payload [] = []
packed_payload (v ∷ vs) = encode_varint v ++ packed_payload vs

pub data SplitFault : Type 0 where
  truncated_prefix prefix_overflow frame_overrun : SplitFault

pub data Split : Type 0 where
  refused : SplitFault → Split
  frames : List (List ℕ) → Split

abbrev pub with_frame : List ℕ → Split → Split
with_frame chunk (refused fault) = refused fault
with_frame chunk (frames chunks) = frames (chunk ∷ chunks)

abbrev pub frame_or : (List ℕ → Split) → Option (List ℕ × List ℕ) → Split
frame_or again none = refused frame_overrun
frame_or again (some (chunk, rest)) = with_frame chunk (again rest)

abbrev pub split_next : (List ℕ → Split) → Option Info → Split
split_next again none = refused truncated_prefix
split_next again (some l) =
    if too_wide l then refused prefix_overflow else frame_or again (read_bytes l.value l.rest)

unfoldable pub split_loop : ℕ → List ℕ → Split
split_loop zero buf = frames []
split_loop (suc fuel) [] = frames []
split_loop (suc fuel) (b ∷ buf) = split_next (split_loop fuel) (read_varint (b ∷ buf))

unfoldable pub split_varint_length : List ℕ → Split
split_varint_length buf = split_loop (length buf) buf

-- The stream of frames that the split is for.
unfoldable pub stream : List (List ℕ) → List ℕ
stream [] = []
stream (chunk ∷ chunks) = encode_varint (length chunk) ++ (chunk ++ stream chunks)
