-- ===== src/Prelude/Groups.antt =====
-- Groups of seven bits, of which varints are made.
use Prim.Native.Nat.{ℕ, ◌+◌, ◌*◌, ◌/◌, ◌%◌, ◌^◌}
use mathlib.Core.Path.{◌≡◌, ap}
use native.Mathlib.Omega.{arith}
use native.Mathlib.Nat.{div-add-mod}
use native.Mathlib.Numerals.{towards_suc}

-- A group further is a factor of 128.
pub next_group : (bits : ℕ) → 2 ^ (bits + 7) ≡ 128 * 2 ^ bits
next_group bits = simp towards_suc (omega arith)

-- A value in some place is its lowest group there, and the other groups a factor of 128 further.
pub lowest_group :
    (v place next : ℕ) → next ≡ 128 * place → v * place ≡ v % 128 * place + v / 128 * next
lowest_group v place next e =
    let whole = ap (λ (u : ℕ). u * place) (div-add-mod v 128) in
    let others = ap (λ (p : ℕ). v / 128 * p) e in omega (arith, whole, others)
