-- ===== src/Protobuf/Varint.antt =====
-- protobuf_decode_raw.py: varints and their readings (134-219). Bytes are numbers below 256:
-- `b & 0x7F` is `b % 128`, `b & 0x80` is 0 where `b < 128`, and `v >>= 7` is `v / 128`. A group of
-- seven bits lies above all earlier ones, so `|=` adds it.
pub mod RoundTrip
pub mod Bounds
use android_workbench.Prelude.{
  ℕ, zero, suc, ◌+◌, ◌-◌, ◌*◌, ◌/◌, ◌%◌, ◌^◌, Option, none, some, Bool, true, false, ◌&&◌, ◌||◌,
  List, [], ◌∷◌, ltb, leb, eqb, if◌then◌else◌, ℤ, pos, negsuc,
}

-- A negative value is written as 64-bit two's complement.
unfoldable pub masked : ℤ → ℕ
masked (pos n) = n
masked (negsuc n) = 2 ^ 64 - 1 - n % 2 ^ 64

-- Each round makes the value smaller, so fuel above the value is enough.
unfoldable pub encode_loop : ℕ → ℕ → List ℕ
encode_loop zero v = []
encode_loop (suc fuel) v = elim (ltb 0 (v / 128)) [
  | true ↦ (v % 128 + 128) ∷ encode_loop fuel (v / 128)
  | false ↦ (v % 128) ∷ []
]

-- `encode_varint` on a value that is not negative.
unfoldable pub encode_varint : ℕ → List ℕ
encode_varint v = encode_loop (suc v) v

unfoldable pub encode_signed : ℤ → List ℕ
encode_signed v = encode_varint (masked v)

unfoldable pub len_loop : ℕ → ℕ → ℕ
len_loop zero v = 1
len_loop (suc fuel) v = elim (leb 128 v) [ true ↦ suc (len_loop fuel (v / 128)) | false ↦ 1 ]

unfoldable pub varint_len : ℕ → ℕ
varint_len v = len_loop (suc v) v

-- What `read_varint` says of the bytes that it consumed, and the bytes behind them.
pub record Info : Type 0 where
  pub value : ℕ
  pub bytes : ℕ
  pub overflow : Bool
  pub too_long : Bool
  pub rest : List ℕ

-- Bytes 1 to 9 and byte 10 are shifted alike; later bytes are not added.
abbrev pub with_group : ℕ → ℕ → ℕ → ℕ
with_group count value b = if leb (suc count) 10 then value + b % 128 * 2 ^ (7 * count) else value

-- `count` bytes have been read; `none` is a varint that the end of the buffer cuts off.
unfoldable pub read_loop : List ℕ → ℕ → ℕ → Bool → Bool → Option Info
read_loop [] count value overflow too_long = none
read_loop (b ∷ rest) count value overflow too_long =
    let value' = with_group count value b in
    let overflow' = overflow || (eqb (suc count) 10 && ltb 1 (b % 128)) in
    let too_long' = too_long || ltb 10 (suc count) in
    elim (ltb b 128) [
      | true ↦ some (record {
        value = value';
        bytes = suc count;
        overflow = overflow';
        too_long = too_long';
        rest = rest;
      })
      | false ↦ read_loop rest (suc count) value' overflow' too_long'
    ]

unfoldable pub read_varint : List ℕ → Option Info
read_varint buf = read_loop buf 0 0 false false

-- `canonical_bytes`
unfoldable pub canonical_bytes : Info → ℕ
canonical_bytes info =
    if info.overflow then varint_len info.value else varint_len (info.value % 2 ^ 64)

unfoldable pub non_canonical : Info → Bool
non_canonical info = ltb (canonical_bytes info) info.bytes

-- The value over 64 bits, or the varint over 10 bytes.
abbrev pub too_wide : Info → Bool
too_wide info = info.too_long || info.overflow

-- `(value >> 1) ^ -(value & 1)`: an odd value is the complement of its half.
unfoldable pub zigzag_decode : ℕ → ℤ
zigzag_decode v = if eqb (v % 2) 0 then pos (v / 2) else negsuc (v / 2)

-- The value as a two's complement number of `w` bits: `half` is `1 << (w - 1)`.
abbrev signed_view : ℕ → ℕ → ℤ
signed_view half v = if leb half v then negsuc (2 * half - 1 - v) else pos v

unfoldable pub int32_view : ℕ → ℤ
int32_view v = signed_view (2 ^ 31) (v % 2 ^ 32)

unfoldable pub int64_view : ℕ → ℤ
int64_view v = signed_view (2 ^ 63) (v % 2 ^ 64)
