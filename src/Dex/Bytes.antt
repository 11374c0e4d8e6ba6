-- ===== src/Dex/Bytes.antt =====
-- dexutil.py: numbers in a file (224-247). A byte is a number below 256, and an `|=` of bits above all
-- earlier ones is a sum. `none` is the IndexError of an offset behind the end.
pub mod Leb
use android_workbench.Prelude.{
  ℕ, zero, suc, ◌+◌, ◌-◌, ◌*◌, ◌%◌, ◌^◌, Option, none, some, Bool, true, false, List, [], ◌∷◌,
  get_elem?, drop, ltb, if◌then◌else◌, ℤ, pos, negsuc,
}

infixl 5 ◌>>=◌
abbrev pub ◌>>=◌ : {A B : Type 0} → Option A → (A → Option B) → Option B
none >>= k = none
some x >>= k = k x

unfoldable pub u16 : List ℕ → ℕ → Option ℕ
u16 b o = do b0 ← get_elem? b o; b1 ← get_elem? b (o + 1); some (b0 + b1 * 2 ^ 8)

unfoldable pub u32 : List ℕ → ℕ → Option ℕ
u32 b o = do
  b0 ← get_elem? b o
  b1 ← get_elem? b (o + 1)
  b2 ← get_elem? b (o + 2)
  b3 ← get_elem? b (o + 3)
  some (b0 + b1 * 2 ^ 8 + b2 * 2 ^ 16 + b3 * 2 ^ 24)

-- `v - 0x10000 if v > 0x7FFF else v`, for a two's complement number of any width.
abbrev pub signed : ℕ → ℕ → ℤ
signed half v = if ltb (half - 1) v then negsuc (2 * half - 1 - v) else pos v

unfoldable pub s16 : ℕ → ℤ
s16 v = signed (2 ^ 15) v

-- The bytes from the offset on; the offset counts along.
unfoldable pub uleb_loop : List ℕ → ℕ → ℕ → ℕ → Option (ℕ × ℕ)
uleb_loop [] o result shift = none
uleb_loop (x ∷ b) o result shift =
    let result' = result + x % 128 * 2 ^ shift in
    elim (ltb x 128) [
      | true ↦ some (result', o + 1)
      | false ↦ uleb_loop b (o + 1) result' (shift + 7)
    ]

unfoldable pub read_uleb : List ℕ → ℕ → Option (ℕ × ℕ)
read_uleb b o = uleb_loop (drop o b) o 0 0
