-- ===== src/Elf/Stubs/Bounds.antt =====
-- What the search for stubs in elf_plt.py reports.
use android_workbench.Prelude.{
  ℕ, zero, suc, ◌+◌, ◌*◌, ◌<◌, Option, none, some, Bool, true, false, List, All, ltb, ltb→lt,
  if◌then◌else◌, ℤ, pos, negsuc, ◌≡◌, refl, arith, Bool-cases, Option-cases, inl, inr, subst,
}
use android_workbench.Dex.Bytes.{◌>>=◌, u32}
use android_workbench.Elf.Words.{Access}
use android_workbench.Elf.Stubs.{
  Relocs, slot_name, slot_at, Stub, stub_if, fits_stub, plus, decoded_stub, arm64_stub,
  arm64_stub_at, add_stub, arm64_from, stubs_arm64,
}

-- The option holds nothing, or what satisfies the predicate.
abbrev pub Holds {ℓ} : {A : Type ℓ} → (A → Type 0) → Option A → Type 0
Holds P none = Unit {0}
Holds P (some a) = P a

module _ (relocs : Relocs) where
  -- The symbol is that of the slot, and the stub stands at the address.
  abbrev pub IsBound : ℕ → Stub → Type 0
  IsBound va s = (s.address ≡ va) × (slot_name s.slot relocs ≡ some s.symbol)

  stub_if-IsBound : (va : ℕ) (k : ℤ) → Holds (IsBound va) (stub_if va (slot_at k relocs))
  unfolding slot_at
  stub_if-IsBound va (negsuc k) = tt
  stub_if-IsBound va (pos k) = elim (Option-cases (slot_name k relocs)) [
    | inl e ↦ rw (slot_at, e) tt
    | inr (name, e) ↦ rw (slot_at, e) (refl, e)
  ]

  if-Holds :
      (P : Stub → Type 0) (b : Bool) (o : Option Stub) → Holds P o → Holds P (if b then o else none)
  if-Holds P true o h = h
  if-Holds P false o h = tt

  decoded_stub-IsBound :
      (va : ℕ) (adrp : Option (ℤ × ℕ)) (ldr add : Option Access) (br : Option ℕ)
      → Holds (IsBound va) (decoded_stub relocs va adrp ldr add br)
  unfolding decoded_stub
  decoded_stub-IsBound va none ldr add br = tt
  decoded_stub-IsBound va (some adrp) none add br = tt
  decoded_stub-IsBound va (some adrp) (some ldr) none br = tt
  decoded_stub-IsBound va (some adrp) (some ldr) (some add) none = tt
  decoded_stub-IsBound va (some (page, rd)) (some ldr) (some add) (some br) =
      if-Holds (IsBound va) (fits_stub rd ldr add br) _ (stub_if-IsBound va (plus page add.offset))

  bound :
      {A B : Type 0} (P : B → Type 0) (o : Option A) (k : A → Option B)
      → ((a : A) → Holds P (k a))
      → Holds P (o >>= k)
  bound P none k h = tt
  bound P (some a) k h = h a

  arm64_stub_at-IsBound :
      (d : List ℕ) (va at : ℕ) → Holds (Holds (IsBound va)) (arm64_stub_at d relocs va at)
  unfolding arm64_stub_at arm64_stub
  arm64_stub_at-IsBound d va at = bound (Holds (IsBound va)) (u32 d at) _ λ w0.
      bound (Holds (IsBound va)) (u32 d (at + 4)) _ λ w1.
        bound (Holds (IsBound va)) (u32 d (at + 8)) _
          λ w2. bound (Holds (IsBound va)) (u32 d (at + 12)) _ λ w3. decoded_stub-IsBound va _ _ _ _

  module _ (d : List ℕ) (base foff fsz : ℕ) where
    abbrev pub IsReported : Stub → Type 0
    IsReported s =
        (slot_name s.slot relocs ≡ some s.symbol)
        × ((steps : ℕ) × (s.address ≡ base + 4 * steps) × (4 * steps + 16 < fsz))

    with-IsReported :
        (steps : ℕ) (found : Option Stub) (rest : Option (List Stub))
        → 4 * steps + 16 < fsz
        → Holds (IsBound (base + 4 * steps)) found
        → Holds (All IsReported) rest
        → Holds (All IsReported) (rest >>= λ stubs. some (add_stub found stubs))
    with-IsReported steps found none h b r = tt
    with-IsReported steps none (some stubs) h b r = r
    with-IsReported steps (some s) (some stubs) h b r = ((b.1, (steps, b.0, h)), r)

    arm64_from-IsReported :
        (fuel steps : ℕ)
        → Holds (All IsReported) (arm64_from fuel d relocs base foff fsz (4 * steps))
    unfolding arm64_from
    arm64_from-IsReported zero steps = tt
    arm64_from-IsReported (suc fuel) steps = elim (Bool-cases (ltb (4 * steps + 16) fsz)) [
      | inr done ↦ rw done tt
      | inl more ↦ rw more (
          go (arm64_stub_at d relocs (base + 4 * steps) (foff + 4 * steps))
            (arm64_stub_at-IsBound d (base + 4 * steps) (foff + 4 * steps)) (ltb→lt _ _ more)
            (subst (λ q. Holds (All IsReported) (arm64_from fuel d relocs base foff fsz q))
              (omega arith) (arm64_from-IsReported fuel (suc steps))))
    ]
      where
        go :
            (o : Option (Option Stub))
            → Holds (Holds (IsBound (base + 4 * steps))) o
            → 4 * steps + 16 < fsz
            → Holds (All IsReported) (arm64_from fuel d relocs base foff fsz (4 * steps + 4))
            → Holds (All IsReported) (
                o >>= λ found. arm64_from fuel d relocs base foff fsz (4 * steps + 4) >>= λ stubs.
                some (add_stub found stubs))
        go none b h r = tt
        go (some found) b h r = with-IsReported steps found _ h b r

-- Every stub that the search reports has the symbol of its slot, stands in the segment at a multiple of four
-- bytes, and ends before the last byte of the segment: a stub that ends with the segment is passed over.
pub stubs_arm64-IsReported :
    (d : List ℕ) (base foff fsz : ℕ) (relocs : Relocs) (stubs : List Stub)
    → stubs_arm64 d base foff fsz relocs ≡ some stubs
    → All (IsReported relocs d base foff fsz) stubs
unfolding stubs_arm64
stubs_arm64-IsReported d base foff fsz relocs stubs h =
    subst (Holds (All (IsReported relocs d base foff fsz))) h
      (arm64_from-IsReported relocs d base foff fsz fsz 0)
