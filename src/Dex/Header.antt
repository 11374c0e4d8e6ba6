-- ===== src/Dex/Header.antt =====
-- dexutil.py: the checksum and the signature of a dex file (575-612). SHA-1 and Adler-32 are parameters.
pub mod Fixed
use android_workbench.Prelude.{
  ℕ, zero, suc, ◌+◌, ◌*◌, ◌/◌, ◌%◌, ◌^◌, Bool, List, [], ◌∷◌, ◌++◌, take, drop, eqb, codes_eq,
}

-- `data[from:to]`
abbrev pub slice : ℕ → ℕ → List ℕ → List ℕ
slice from size d = take size (drop from d)

-- `data[from:from + size] = bytes`
abbrev pub splice : ℕ → ℕ → List ℕ → List ℕ → List ℕ
splice from size bytes d = take from d ++ (bytes ++ drop (from + size) d)

-- `int.from_bytes(…, "little")`
abbrev pub from_bytes : List ℕ → ℕ
from_bytes [] = 0
from_bytes (b ∷ bs) = b + 2 ^ 8 * from_bytes bs

-- `v.to_bytes(n, "little")`, for a value that fits.
abbrev pub to_bytes : ℕ → ℕ → List ℕ
to_bytes zero v = []
to_bytes (suc n) v = v % 2 ^ 8 ∷ to_bytes n (v / 2 ^ 8)

pub record Before : Type 0 where
  pub before_checksum : ℕ
  pub after_checksum : ℕ
  pub before_signature : List ℕ
  pub after_signature : List ℕ

module _ (sha1 : List ℕ → List ℕ) (adler32 : List ℕ → ℕ) where
  unfoldable pub sign : List ℕ → List ℕ
  sign d = splice 12 20 (sha1 (drop 32 d)) d

  unfoldable pub checksum : List ℕ → ℕ
  checksum d = adler32 (drop 12 d) % 2 ^ 32

  -- The signature first, then the checksum, which covers it.
  unfoldable pub fix_dex_header : List ℕ → List ℕ × Before
  fix_dex_header d =
      let signed = sign d in
      (
        splice 8 4 (to_bytes 4 (checksum signed)) signed,
        record {
          before_checksum = from_bytes (slice 8 4 d);
          after_checksum = checksum signed;
          before_signature = slice 12 20 d;
          after_signature = slice 12 20 signed;
        },
      )

  unfoldable pub verify_dex_header : List ℕ → Bool × Bool
  verify_dex_header d =
      (eqb (from_bytes (slice 8 4 d)) (checksum d), codes_eq (slice 12 20 d) (sha1 (drop 32 d)))
