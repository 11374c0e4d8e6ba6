-- ===== src/Dex/Header/Fixed.antt =====
-- What `verify_dex_header` says of a file whose header was fixed, and what a fix leaves as it was.
use android_workbench.Prelude.{
  ℕ, zero, suc, ◌+◌, ◌%◌, ◌^◌, ◌<◌, ◌≤◌, true, List, [], ◌∷◌, ◌++◌, take, drop, eqb, codes_eq,
  length, length-append, append-nil, append_assoc, ◌≡◌, refl, ◌∙◌, ap, arith,
}
use android_workbench.Dex.Header.{
  slice, splice, from_bytes, to_bytes, sign, checksum, fix_dex_header, verify_dex_header,
}

from_bytes-to_bytes : (v : ℕ) → v < 2 ^ 32 → from_bytes (to_bytes 4 v) ≡ v
from_bytes-to_bytes v h = omega arith

codes_eq_refl : (xs : List ℕ) → codes_eq xs xs ≡ true
codes_eq_refl [] = refl
codes_eq_refl (x ∷ xs) = ground (arith, codes_eq_refl xs)

-- A place behind the front is a place in what follows it.
drop-append : (xs ys : List ℕ) (k m : ℕ) → k ≡ length xs + m → drop k (xs ++ ys) ≡ drop m ys
drop-append [] ys k m h = let e : k ≡ m = omega arith in ap (λ (j : ℕ). drop j ys) e
drop-append (x ∷ xs) ys zero m h = absurd (omega arith)
drop-append (x ∷ xs) ys (suc k) m h = drop-append xs ys k m (omega arith)

take-append : (xs ys : List ℕ) (k m : ℕ) → k ≡ length xs + m → take k (xs ++ ys) ≡ xs ++ take m ys
take-append [] ys k m h = let e : k ≡ m = omega arith in ap (λ (j : ℕ). take j ys) e
take-append (x ∷ xs) ys zero m h = absurd (omega arith)
take-append (x ∷ xs) ys (suc k) m h = ap (λ zs. x ∷ zs) (take-append xs ys k m (omega arith))

-- A front of a given size can be split off.
cut :
    (n : ℕ) (d : List ℕ)
    → n ≤ length d
    → (front : List ℕ) × (rest : List ℕ) × (d ≡ front ++ rest) × (length front ≡ n)
cut zero d h = ([], d, refl, refl)
cut (suc n) [] h = absurd (omega arith)
cut (suc n) (x ∷ d) h =
    let (front, rest, e, l) = cut n d (omega arith) in
    (x ∷ front, rest, ap (λ zs. x ∷ zs) e, omega (arith, l))

-- The parts of a file: the magic number, the checksum, the signature and the rest.
abbrev file : List ℕ → List ℕ → List ℕ → List ℕ → List ℕ
file magic check signature rest = magic ++ (check ++ (signature ++ rest))

abbrev Sized : List ℕ → List ℕ → List ℕ → Type 0
Sized magic check signature = (length magic ≡ 8) × (length check ≡ 4) × (length signature ≡ 20)

abbrev Parts : List ℕ → Type 0
Parts d =
    (magic : List ℕ) × (check : List ℕ) × (signature : List ℕ) × (rest : List ℕ) × (d
      ≡ file magic check signature rest)
    × Sized magic check signature

parts : (d : List ℕ) → 32 ≤ length d → Parts d
parts d h =
    let (magic, d1, e1, l1) = cut 8 d (omega arith) in
    let (check, d2, e2, l2) = cut 4 d1 (omega (arith, ap length e1, length-append magic d1)) in
    let (signature, rest, e3, l3) =
      cut 20 d2 (
        omega
          (arith, ap length e1, ap length e2, length-append magic d1, length-append check d2)) in
    (
      magic,
      check,
      signature,
      rest,
      e1 ∙ ap (λ (t : List ℕ). magic ++ t) (e2 ∙ ap (λ (t : List ℕ). check ++ t) e3),
      (l1, l2, l3),
    )

module _ (magic check signature rest : List ℕ) (h : Sized magic check signature) where
  drop-check : drop 8 (file magic check signature rest) ≡ check ++ (signature ++ rest)
  drop-check = drop-append magic _ 8 0 (omega (arith, h.0))

  drop_signature : drop 12 (file magic check signature rest) ≡ signature ++ rest
  drop_signature =
      drop-append magic _ 12 4 (omega (arith, h.0)) ∙ drop-append check _ 4 0 (omega (arith, h.1))

  drop_rest : drop 32 (file magic check signature rest) ≡ rest
  drop_rest =
      drop-append magic _ 32 24 (omega (arith, h.0))
      ∙ drop-append check _ 24 20 (omega (arith, h.1))
      ∙ drop-append signature _ 20 0 (omega (arith, h.2))

  take_magic : take 8 (file magic check signature rest) ≡ magic
  take_magic = take-append magic _ 8 0 (omega (arith, h.0)) ∙ append-nil magic

  slice-check : slice 8 4 (file magic check signature rest) ≡ check
  slice-check = rw drop-check (take-append check _ 4 0 (omega (arith, h.1)) ∙ append-nil check)

  slice_signature : slice 12 20 (file magic check signature rest) ≡ signature
  slice_signature =
      rw drop_signature (take-append signature _ 20 0 (omega (arith, h.2)) ∙ append-nil signature)

  splice-check :
      (bytes : List ℕ)
      → splice 8 4 bytes (file magic check signature rest) ≡ file magic bytes signature rest
  splice-check bytes = rw (take_magic, drop_signature) refl

  take_both : take 12 (file magic check signature rest) ≡ magic ++ check
  take_both =
      take-append magic _ 12 4 (omega (arith, h.0))
      ∙ ap (λ (t : List ℕ). magic ++ t)
          (take-append check _ 4 0 (omega (arith, h.1)) ∙ append-nil check)

  splice_signature :
      (bytes : List ℕ)
      → splice 12 20 bytes (file magic check signature rest) ≡ file magic check bytes rest
  splice_signature bytes = rw (take_both, drop_rest) (append_assoc magic check (bytes ++ rest))

module _ (sha1 : List ℕ → List ℕ) (adler32 : List ℕ → ℕ)
    (sha1_size : (d : List ℕ) → length (sha1 d) ≡ 20) where
  abbrev signed_sum : List ℕ → ℕ
  signed_sum rest = adler32 (sha1 rest ++ rest) % 2 ^ 32

  abbrev fixed : List ℕ → List ℕ → List ℕ
  fixed magic rest = file magic (to_bytes 4 (signed_sum rest)) (sha1 rest) rest

  sign-file :
      (magic check signature rest : List ℕ)
      → Sized magic check signature
      → sign sha1 adler32 (file magic check signature rest) ≡ file magic check (sha1 rest) rest
  unfolding sign
  sign-file magic check signature rest h =
      rw (take_both magic check signature rest h, drop_rest magic check signature rest h)
        (append_assoc magic check (sha1 rest ++ rest))

  checksum-file :
      (magic check signature rest : List ℕ)
      → Sized magic check signature
      → checksum sha1 adler32 (file magic check signature rest)
        ≡ adler32 (signature ++ rest) % 2 ^ 32
  unfolding checksum
  checksum-file magic check signature rest h = rw (drop_signature magic check signature rest h) refl

  fixed-file :
      (magic check signature rest : List ℕ)
      → Sized magic check signature
      → (fix_dex_header sha1 adler32 (file magic check signature rest)).0 ≡ fixed magic rest
  unfolding fix_dex_header
  fixed-file magic check signature rest h =
      let h' : Sized magic check (sha1 rest) = (h.0, h.1, sha1_size rest) in
      rw (sign-file magic check signature rest h, checksum-file magic check (sha1 rest) rest h')
        (splice-check magic check (sha1 rest) rest h' (to_bytes 4 (signed_sum rest)))

  fixed-Sized :
      (magic rest : List ℕ)
      → length magic ≡ 8
      → Sized magic (to_bytes 4 (signed_sum rest)) (sha1 rest)
  fixed-Sized magic rest h = (h, refl, sha1_size rest)

  verified_file :
      (magic rest : List ℕ)
      → length magic ≡ 8
      → verify_dex_header sha1 adler32 (fixed magic rest) ≡ (true, true)
  unfolding verify_dex_header checksum
  verified_file magic rest h =
      let k = fixed-Sized magic rest h in
      let check = to_bytes 4 (signed_sum rest) in
      let same : from_bytes check ≡ signed_sum rest =
        from_bytes-to_bytes (signed_sum rest) (omega arith) in
      let holds : eqb (signed_sum rest) (signed_sum rest) ≡ true = ground arith in
      rw
        (
          slice-check magic check (sha1 rest) rest k,
          slice_signature magic check (sha1 rest) rest k,
          drop_signature magic check (sha1 rest) rest k,
          drop_rest magic check (sha1 rest) rest k,
          same,
          holds,
          codes_eq_refl (sha1 rest),
        )
        refl

  -- If a digest has 20 bytes, then a file of 32 bytes or more verifies after a fix of its header, both
  -- its checksum and its signature.
  pub verify_dex_header-fix_dex_header :
      (d : List ℕ)
      → 32 ≤ length d
      → verify_dex_header sha1 adler32 (fix_dex_header sha1 adler32 d).0 ≡ (true, true)
  verify_dex_header-fix_dex_header d h =
      let (magic, check, signature, rest, e, k) = parts d h in
      rw (e, fixed-file magic check signature rest k) (verified_file magic rest k.0)

  -- If a digest has 20 bytes, then a second fix of a file of 32 bytes or more changes nothing.
  pub fix_dex_header_again :
      (d : List ℕ)
      → 32 ≤ length d
      → (fix_dex_header sha1 adler32 (fix_dex_header sha1 adler32 d).0).0
        ≡ (fix_dex_header sha1 adler32 d).0
  fix_dex_header_again d h =
      let (magic, check, signature, rest, e, k) = parts d h in
      rw (e, fixed-file magic check signature rest k)
        (fixed-file magic (to_bytes 4 (signed_sum rest)) (sha1 rest) rest
          (fixed-Sized magic rest k.0))
