-- ===== src/Dex/Bytes/Leb.antt =====
-- The way back: what the varint encoder of protobuf_decode_raw.py writes, under `read_uleb`.
use android_workbench.Prelude.{
  ℕ, zero, suc, ◌+◌, ◌*◌, ◌/◌, ◌%◌, ◌^◌, ◌<◌, some, List, [], ◌∷◌, ◌++◌, ◌≡◌, refl, ◌∙◌, arith,
  length, drop, next_group, lowest_group,
}
use android_workbench.Protobuf.Varint.{encode_loop, encode_varint, len_loop, varint_len}
use android_workbench.Dex.Bytes.{uleb_loop, read_uleb}

last_group :
    (w o value s : ℕ) (rest : List ℕ)
    → w < 128
    → uleb_loop (w ∷ rest) o value s ≡ some (value + w * 2 ^ s, o + 1)
unfolding uleb_loop
last_group w o value s rest h = ground arith

inner_group :
    (g o value s : ℕ) (rest : List ℕ)
    → g < 128
    → uleb_loop ((g + 128) ∷ rest) o value s ≡ uleb_loop rest (o + 1) (value + g * 2 ^ s) (s + 7)
unfolding uleb_loop
inner_group g o value s rest h = ground arith

uleb_loop-encode_loop :
    (fuel w o value s : ℕ) (rest : List ℕ)
    → w < fuel
    → uleb_loop (encode_loop fuel w ++ rest) o value s
      ≡ some (value + w * 2 ^ s, o + len_loop fuel w)
unfolding encode_loop len_loop
uleb_loop-encode_loop zero w o value s rest h = absurd (omega arith)
uleb_loop-encode_loop (suc fuel) w o value s rest h = ground (
  arith,
  last_group w o value s rest,
  lowest_group w (2 ^ s) (2 ^ (s + 7)) (next_group s),
  inner_group (w % 128) o value s (encode_loop fuel (w / 128) ++ rest),
  uleb_loop-encode_loop fuel (w / 128) (o + 1) (value + w % 128 * 2 ^ s) (s + 7) rest,
)

drop-append : (xs ys : List ℕ) → drop (length xs) (xs ++ ys) ≡ ys
drop-append [] ys = refl
drop-append (x ∷ xs) ys = drop-append xs ys

-- A value of any size that the protobuf tool writes into a file is read back by the dex reader, at
-- whatever offset it stands and whatever follows it, and the offset moves on by its length.
pub read_uleb-encode_varint :
    (front : List ℕ) (v : ℕ) (rest : List ℕ)
    → read_uleb (front ++ (encode_varint v ++ rest)) (length front)
      ≡ some (v, length front + varint_len v)
unfolding read_uleb encode_varint varint_len
read_uleb-encode_varint front v rest =
    rw (drop-append front (encode_varint v ++ rest))
      (uleb_loop-encode_loop (suc v) v (length front) 0 0 rest (omega arith) ∙ ground arith)
