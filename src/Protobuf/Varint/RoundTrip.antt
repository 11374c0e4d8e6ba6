-- ===== src/Protobuf/Varint/RoundTrip.antt =====
-- The way back: what `encode_varint` writes, under `read_varint`.
use android_workbench.Prelude.{
  ℕ, zero, suc, ◌+◌, ◌*◌, ◌/◌, ◌%◌, ◌^◌, ◌<◌, ◌≤◌, Option, some, false, List, ◌∷◌, ◌++◌, ◌≡◌, ◌∙◌,
  ap, arith, next_group, lowest_group,
}
use android_workbench.Protobuf.Varint.{
  Info, encode_loop, encode_varint, len_loop, varint_len, read_loop, read_varint,
}

pub next_shift : (count : ℕ) → 2 ^ (7 * suc count) ≡ 128 * 2 ^ (7 * count)
next_shift count =
    let e : 7 * suc count ≡ 7 * count + 7 = omega arith in
    ap (λ (s : ℕ). 2 ^ s) e ∙ next_group (7 * count)

abbrev pub read_back : ℕ → ℕ → List ℕ → Option Info
read_back value bytes rest =
    some (record { value = value; bytes = bytes; overflow = false; too_long = false; rest = rest })

last_byte :
    (w count value : ℕ) (rest : List ℕ)
    → w < 128
    → count ≤ 9
    → (count ≡ 9 → w < 2)
    → read_loop (w ∷ rest) count value false false
      ≡ read_back (value + w * 2 ^ (7 * count)) (suc count) rest
unfolding read_loop
last_byte w count value rest hw hc top = ground (arith, top)

inner_byte :
    (g count value : ℕ) (rest : List ℕ)
    → g < 128
    → suc count ≤ 9
    → read_loop ((g + 128) ∷ rest) count value false false
      ≡ read_loop rest (suc count) (value + g * 2 ^ (7 * count)) false false
unfolding read_loop
inner_byte g count value rest hg hc = ground arith

-- The value that is left fits in the bits that are left.
abbrev Room : ℕ → ℕ → ℕ → Type 0
Room r count w = (count + r ≡ 9) × (w < 2 * 128 ^ r)

Room-next : (r count w : ℕ) → Room (suc r) count w → Room r (suc count) (w / 128)
Room-next r count w h = (omega arith, omega arith)

read_encoded :
    (fuel r w count value : ℕ) (rest : List ℕ)
    → Room r count w
    → w < fuel
    → read_loop (encode_loop fuel w ++ rest) count value false false
      ≡ read_back (value + w * 2 ^ (7 * count)) (count + len_loop fuel w) rest
unfolding encode_loop len_loop
read_encoded zero r w count value rest h f = absurd (omega arith)
read_encoded (suc fuel) zero w count value rest h f = ground (arith, last_byte w count value rest)
read_encoded (suc fuel) (suc r) w count value rest h f = ground (
  arith,
  last_byte w count value rest,
  lowest_group w (2 ^ (7 * count)) (2 ^ (7 * suc count)) (next_shift count),
  inner_byte (w % 128) count value (encode_loop fuel (w / 128) ++ rest),
  Room-next r count w h,
  read_encoded fuel r (w / 128) (suc count) (value + w % 128 * 2 ^ (7 * count)) rest,
)

abbrev pub IsU64 : ℕ → Type 0
IsU64 v = v < 2 ^ 64

-- A 64-bit value that was written is read back, in the least number of bytes, whatever follows it.
pub read_varint-encode_varint :
    (v : ℕ) (rest : List ℕ)
    → IsU64 v
    → read_varint (encode_varint v ++ rest) ≡ read_back v (varint_len v) rest
unfolding read_varint encode_varint varint_len
read_varint-encode_varint v rest h =
    read_encoded (suc v) 9 v 0 0 rest (omega arith, omega arith) (omega arith) ∙ ground arith
