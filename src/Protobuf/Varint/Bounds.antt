-- ===== src/Protobuf/Varint/Bounds.antt =====
-- What `read_varint` takes from any buffer, well formed or not.
use android_workbench.Prelude.{
  ℕ, suc, ◌+◌, ◌*◌, ◌%◌, ◌^◌, ◌<◌, ◌≤◌, some, Bool, true, false, List, [], ◌∷◌, ltb, leb, eqb, ◌≡◌,
  sym, ◌∙◌, ap, arith, Bool-cases, inl, inr, ltb→lt, ltb→le, length, subst, some_inj, leb→le, ◌||◌,
  ◌&&◌,
}
use native.Mathlib.Nat.{mul-le-mul_right, pow-le-pow_right}
use android_workbench.Protobuf.Varint.RoundTrip.{next_shift}
use android_workbench.Protobuf.Varint.{Info, read_loop, read_varint, too_wide}

read_loop_shorter :
    (buf : List ℕ) (count value : ℕ) (o t : Bool) (info : Info)
    → read_loop buf count value o t ≡ some info
    → (length info.rest + info.bytes ≡ length buf + count) × (count < info.bytes)
unfolding read_loop
read_loop_shorter [] count value o t info h = cc
read_loop_shorter (b ∷ rest) count value o t info h = elim (Bool-cases (ltb b 128)) [
  | inl e ↦
      subst
        (λ (i : Info). (length i.rest + i.bytes ≡ length (b ∷ rest) + count) × (count < i.bytes))
        (some_inj (rw (e, read_loop) at h)) (omega arith, omega arith)
  | inr e ↦
      let ih = read_loop_shorter rest (suc count) _ _ _ info (rw (e, read_loop) at h) in
      (omega (arith, ih.0), omega (arith, ih.1))
]

-- A varint takes at least one byte of the buffer, and leaves the others.
pub read_varint_shorter :
    (buf : List ℕ) (info : Info)
    → read_varint buf ≡ some info
    → (length info.rest + info.bytes ≡ length buf) × (0 < info.bytes)
unfolding read_varint
read_varint_shorter buf info h =
    let e = read_loop_shorter buf 0 0 false false info h in (omega (arith, e.0), e.1)

-- A varint that is too wide at some byte stays so.
too_wide_stays :
    (buf : List ℕ) (count value : ℕ) (o t : Bool) (info : Info)
    → read_loop buf count value o t ≡ some info
    → (t || o) ≡ true
    → too_wide info ≡ true
unfolding read_loop
too_wide_stays [] count value o t info h w = cc
too_wide_stays (b ∷ rest) count value o t info h w =
    let wider : (t || ltb 10 (suc count) || (o || (eqb (suc count) 10 && ltb 1 (b % 128)))) ≡ true =
      ground arith in
    elim (Bool-cases (ltb b 128)) [
      | inl e ↦ subst (λ (i : Info). too_wide i ≡ true) (some_inj (rw (e, read_loop) at h)) wider
      | inr e ↦ too_wide_stays rest (suc count) _ _ _ info (rw (e, read_loop) at h) wider
    ]

-- A group above the value stays below the next shift.
add_group_lt :
    (value count b : ℕ)
    → value < 2 ^ (7 * count)
    → value + b % 128 * 2 ^ (7 * count) < 2 ^ (7 * suc count)
add_group_lt value count b h =
    let below : b % 128 ≤ 127 = omega arith in
    omega (arith, mul-le-mul_right (2 ^ (7 * count)) below, next_shift count)

-- An eleventh byte makes it too wide.
eleventh :
    (buf : List ℕ) (count value : ℕ) (o t : Bool) (info : Info)
    → 10 ≤ count
    → read_loop buf count value o t ≡ some info
    → too_wide info ≡ true
unfolding read_loop
eleventh [] count value o t info c h = cc
eleventh (b ∷ rest) count value o t info c h =
    let wider : (t || ltb 10 (suc count) || (o || (eqb (suc count) 10 && ltb 1 (b % 128)))) ≡ true =
      ground arith in
    elim (Bool-cases (ltb b 128)) [
      | inl e ↦ subst (λ (i : Info). too_wide i ≡ true) (some_inj (rw (e, read_loop) at h)) wider
      | inr e ↦ too_wide_stays rest (suc count) _ _ _ info (rw (e, read_loop) at h) wider
    ]

abbrev Bounded : Info → Type 0
Bounded info = (info.value < 2 ^ 64) × (info.bytes ≤ 10)

-- The last byte at the tenth place has one bit.
tenth_lt :
    (value b count : ℕ)
    → count ≡ 9
    → value < 2 ^ (7 * count)
    → b % 128 ≤ 1
    → value + b % 128 * 2 ^ (7 * count) < 2 ^ 64
tenth_lt value b count e h l =
    let p : 2 ^ (7 * count) ≡ 2 ^ 63 = ap (λ (c : ℕ). 2 ^ (7 * c)) e in
    omega (arith, mul-le-mul_right (2 ^ (7 * count)) l)

earlier_lt :
    (value b count : ℕ)
    → suc count ≤ 9
    → value < 2 ^ (7 * count)
    → value + b % 128 * 2 ^ (7 * count) < 2 ^ 64
earlier_lt value b count c h =
    let s : 7 * suc count ≤ 63 = omega arith in
    let p : 2 ^ (7 * suc count) ≤ 2 ^ 63 = pow-le-pow_right {n = 2} (omega arith) s in
    omega (arith, add_group_lt value count b h, p)

stopped-Bounded :
    (b count value : ℕ) (rest : List ℕ) (info : Info)
    → count ≤ 9
    → value < 2 ^ (7 * count)
    → b < 128
    → read_loop (b ∷ rest) count value false false ≡ some info
    → too_wide info ≡ false
    → Bounded info
unfolding read_loop
stopped-Bounded b count value rest info c v l h w =
    ground (arith, tenth_lt value b count, earlier_lt value b count)

more_step :
    (b count value : ℕ) (rest : List ℕ)
    → 128 ≤ b
    → suc count ≤ 9
    → read_loop (b ∷ rest) count value false false
      ≡ read_loop rest (suc count) (value + b % 128 * 2 ^ (7 * count)) false false
unfolding read_loop
more_step b count value rest l c = ground arith

read_loop-Bounded :
    (buf : List ℕ) (count value : ℕ) (info : Info)
    → count ≤ 9
    → value < 2 ^ (7 * count)
    → read_loop buf count value false false ≡ some info
    → too_wide info ≡ false
    → Bounded info
unfolding read_loop
read_loop-Bounded [] count value info c v h w = cc
read_loop-Bounded (b ∷ rest) count value info c v h w = elim (Bool-cases (ltb b 128)) [
  | inl e ↦ stopped-Bounded b count value rest info c v (ltb→lt b 128 e) h w
  | inr e ↦ elim (Bool-cases (leb (suc count) 9)) [
    | inl n ↦
        let step = more_step b count value rest (ltb→le b 128 e) (leb→le (suc count) 9 n) in
        read_loop-Bounded rest (suc count) (value + b % 128 * 2 ^ (7 * count)) info
          (leb→le (suc count) 9 n) (add_group_lt value count b v) (sym step ∙ h) w
    | inr n ↦
        let late = eleventh rest (suc count) _ _ _ info (ground arith) (rw (e, read_loop) at h) in
        cc
  ]
]

-- A varint that is not too wide holds a 64-bit value in at most ten bytes.
pub read_varint-Bounded :
    (buf : List ℕ) (info : Info)
    → read_varint buf ≡ some info
    → too_wide info ≡ false
    → (info.value < 2 ^ 64) × (info.bytes ≤ 10)
unfolding read_varint
read_varint-Bounded buf info = read_loop-Bounded buf 0 0 info (omega arith) (omega arith)
