-- ===== src/Protobuf/Framing/RoundTrip.antt =====
-- The way back: what is packed and framed, under the readers of Protobuf/Framing.
use android_workbench.Prelude.{
  ℕ, zero, suc, ◌≤◌, ◌<◌, none, some, List, [], ◌∷◌, ◌++◌, length, All, append-nil, ◌≡◌, refl, ◌∙◌,
  ap, arith, append_assoc, length-append,
}
use android_workbench.Protobuf.Varint.{Info, read_varint, read_loop, encode_varint}
use android_workbench.Protobuf.Varint.RoundTrip.{read_varint-encode_varint, IsU64}
use android_workbench.Protobuf.Varint.Bounds.{read_varint_shorter}
use android_workbench.Protobuf.Walk.{read_bytes}
use android_workbench.Protobuf.Walk.RoundTrip.{read_bytes-append}
use android_workbench.Protobuf.Framing.{
  packed_loop, packed_varint_values, packed_payload, SplitFault, Split, refused, frames, with_frame,
  split_next, split_loop, split_varint_length, stream,
}

packed_step :
    (fuel : ℕ) (chunk : List ℕ) (info : Info)
    → read_varint chunk ≡ some info
    → packed_loop (suc fuel) chunk ≡ info.value ∷ packed_loop fuel info.rest
unfolding packed_loop
packed_step fuel [] info e = unfold read_varint read_loop in cc
packed_step fuel (b ∷ chunk) info e = rw e refl

split_step :
    (fuel : ℕ) (buf : List ℕ) (info : Info)
    → read_varint buf ≡ some info
    → split_loop (suc fuel) buf ≡ split_next (split_loop fuel) (some info)
unfolding split_loop
split_step fuel [] info e = unfold read_varint read_loop in cc
split_step fuel (b ∷ buf) info e = rw e refl

-- A varint that was written takes a byte at least.
rest_shorter : (v : ℕ) (rest : List ℕ) → IsU64 v → length rest < length (encode_varint v ++ rest)
rest_shorter v rest h =
    let e = read_varint_shorter (encode_varint v ++ rest) _ (read_varint-encode_varint v rest h) in
    omega (arith, e.0, e.1)

packed_loop-packed_payload :
    (fuel : ℕ) (vs : List ℕ)
    → All IsU64 vs
    → length (packed_payload vs) ≤ fuel
    → packed_loop fuel (packed_payload vs) ≡ vs
unfolding packed_payload
packed_loop-packed_payload zero [] h l = unfold packed_loop in refl
packed_loop-packed_payload (suc fuel) [] h l = unfold packed_loop in refl
packed_loop-packed_payload zero (v ∷ vs) h l =
    absurd (omega (arith, l, rest_shorter v (packed_payload vs) h.0))
packed_loop-packed_payload (suc fuel) (v ∷ vs) h l =
    packed_step fuel _ _ (read_varint-encode_varint v (packed_payload vs) h.0)
    ∙ ap (λ ws. v ∷ ws)
        (packed_loop-packed_payload fuel vs h.1
          (omega (arith, l, rest_shorter v (packed_payload vs) h.0)))

-- Values of 64 bits that are packed into a payload are read back, all of them and nothing else.
pub packed_varint_values-packed_payload :
    (vs : List ℕ) → All IsU64 vs → packed_varint_values (packed_payload vs) ≡ vs
unfolding packed_varint_values
packed_varint_values-packed_payload vs h =
    packed_loop-packed_payload (length (packed_payload vs)) vs h (omega arith)

abbrev pub FrameFits : List ℕ → Type 0
FrameFits chunk = IsU64 (length chunk)

-- One frame is split off, whatever follows it.
split_frame :
    (fuel : ℕ) (chunk rest : List ℕ)
    → FrameFits chunk
    → split_loop (suc fuel) (encode_varint (length chunk) ++ (chunk ++ rest))
      ≡ with_frame chunk (split_loop fuel rest)
split_frame fuel chunk rest h =
    split_step fuel _ _ (read_varint-encode_varint (length chunk) (chunk ++ rest) h)
    ∙ rw (read_bytes-append chunk rest) refl

frame_shorter :
    (chunk rest : List ℕ)
    → FrameFits chunk
    → length rest < length (encode_varint (length chunk) ++ (chunk ++ rest))
frame_shorter chunk rest h =
    omega (arith, rest_shorter (length chunk) (chunk ++ rest) h, length-append chunk rest)

-- The split of the frames in front is what the split of the end makes of it.
abbrev pub all_before : List (List ℕ) → Split → Split
all_before [] o = o
all_before (chunk ∷ chunks) o = with_frame chunk (all_before chunks o)

all_before-frames : (chunks : List (List ℕ)) → all_before chunks (frames []) ≡ frames chunks
all_before-frames [] = refl
all_before-frames (chunk ∷ chunks) = rw (all_before-frames chunks) refl

all_before-refused :
    (chunks : List (List ℕ)) (fault : SplitFault)
    → all_before chunks (refused fault) ≡ refused fault
all_before-refused [] fault = refl
all_before-refused (chunk ∷ chunks) fault = rw (all_before-refused chunks fault) refl

split_loop-stream :
    (fuel : ℕ) (chunks : List (List ℕ)) (end : List ℕ) (o : Split)
    → All FrameFits chunks
    → ((more : ℕ) → length end ≤ more → split_loop more end ≡ o)
    → length (stream chunks ++ end) ≤ fuel
    → split_loop fuel (stream chunks ++ end) ≡ all_before chunks o
unfolding stream
split_loop-stream fuel [] end o h k l = k fuel l
split_loop-stream zero (chunk ∷ chunks) end o h k l =
    let whole = append_assoc (encode_varint (length chunk)) (chunk ++ stream chunks) end in
    let inner = append_assoc chunk (stream chunks) end in
    absurd (omega (arith, rw (whole, inner) at l, frame_shorter chunk (stream chunks ++ end) h.0))
split_loop-stream (suc fuel) (chunk ∷ chunks) end o h k l =
    let whole = append_assoc (encode_varint (length chunk)) (chunk ++ stream chunks) end in
    let inner = append_assoc chunk (stream chunks) end in
    let less = rw (whole, inner) at l in
    rw (whole, inner)
      (split_frame fuel chunk (stream chunks ++ end) h.0
        ∙ ap (with_frame chunk) (
            split_loop-stream fuel chunks end o h.1 k
              (omega (arith, less, frame_shorter chunk (stream chunks ++ end) h.0))))

no_frame : (more : ℕ) → split_loop more [] ≡ frames []
unfolding split_loop
no_frame zero = refl
no_frame (suc more) = refl

-- A stream of frames whose lengths fit in 64 bits is split into exactly these frames.
pub split_varint_length-stream :
    (chunks : List (List ℕ))
    → All FrameFits chunks
    → split_varint_length (stream chunks) ≡ frames chunks
unfolding split_varint_length
split_varint_length-stream chunks h =
    let e =
      split_loop-stream (length (stream chunks ++ [])) chunks [] (frames []) h
        (λ more _. no_frame more) (omega arith) in
    (rw (append-nil) at e) ∙ all_before-frames chunks

read_bytes-none : (n : ℕ) (buf : List ℕ) → length buf < n → read_bytes n buf ≡ none
unfolding read_bytes
read_bytes-none zero buf h = absurd (omega arith)
read_bytes-none (suc n) [] h = refl
read_bytes-none (suc n) (b ∷ buf) h = rw (read_bytes-none n buf (omega arith)) refl

cut_frame :
    (n : ℕ) (part : List ℕ) (more : ℕ)
    → IsU64 n
    → length part < n
    → length (encode_varint n ++ part) ≤ more
    → split_loop more (encode_varint n ++ part) ≡ refused SplitFault.frame_overrun
cut_frame n part zero h c l = absurd (omega (arith, l, rest_shorter n part h))
cut_frame n part (suc more) h c l =
    split_step more _ _ (read_varint-encode_varint n part h) ∙ rw (read_bytes-none n part c) refl

-- A stream whose last frame announces more bytes than follow is refused as an overrun, however many
-- whole frames stand before it.
pub split_varint_length_cut :
    (chunks : List (List ℕ)) (n : ℕ) (part : List ℕ)
    → All FrameFits chunks
    → IsU64 n
    → length part < n
    → split_varint_length (stream chunks ++ (encode_varint n ++ part))
      ≡ refused SplitFault.frame_overrun
unfolding split_varint_length
split_varint_length_cut chunks n part h k c =
    split_loop-stream (length (stream chunks ++ (encode_varint n ++ part))) chunks
      (encode_varint n ++ part) (refused SplitFault.frame_overrun) h
      (λ more l. cut_frame n part more k c l) (omega arith)
    ∙ all_before-refused chunks SplitFault.frame_overrun
