-- ===== src/Elf/Stubs/Written.antt =====
-- A stub that a linker wrote, under the search of elf_plt.py.
use android_workbench.Prelude.{
  ℕ, zero, suc, ◌+◌, ◌*◌, ◌/◌, ◌%◌, ◌^◌, ◌<◌, ◌≤◌, String, Option, none, some, true, false, List,
  [], ◌∷◌, length, Any, eqb_iff, ltb, pos, ◌≡◌, inl, inr, refl, ap, ltb→lt, lt→ltb, ◌∙◌, arith,
  Bool-cases, subst,
}
use android_workbench.Dex.Bytes.{◌>>=◌, u32}
use android_workbench.Dex.Decode.Inside.{get-Reads}
use android_workbench.Elf.Words.Fields.{
  wrapped, adrp, ldr, add, br, decode_adrp-adrp, decode_ldr_unsigned-ldr, decode_add_imm-add,
  decode_br-br,
}
use android_workbench.Elf.Stubs.{
  Relocs, slot_name, slot_at, Stub, decoded_stub, arm64_stub, arm64_stub_at, add_stub, arm64_from,
  stubs_arm64,
}

pub u32-inside : (d : List ℕ) (o : ℕ) → o + 4 ≤ length d → (w : ℕ) × (u32 d o ≡ some w)
unfolding u32
u32-inside d o h =
    let (b0, e0) = get-Reads d o (omega arith) in
    let (b1, e1) = get-Reads d (o + 1) (omega arith) in
    let (b2, e2) = get-Reads d (o + 2) (omega arith) in
    let (b3, e3) = get-Reads d (o + 3) (omega arith) in
    (b0 + b1 * 2 ^ 8 + b2 * 2 ^ 16 + b3 * 2 ^ 24, rw (e0, e1, e2, e3) refl)

-- The four instructions of a stub at the address, which jumps through the slot.
abbrev pub IsWritten : List ℕ → ℕ → ℕ → ℕ → Type 0
IsWritten d at va slot =
    (u32 d at ≡ some (adrp 16 (wrapped 21 (slot / 4096) (va / 4096))))
    × (u32 d (at + 4) ≡ some (ldr 17 16 (slot % 4096 / 8)))
    × (u32 d (at + 8) ≡ some (add 16 16 (slot % 4096)))
    × (u32 d (at + 12) ≡ some (br 17))

-- The slot is aligned, and its page within 4 GiB.
abbrev pub IsNear : ℕ → ℕ → Type 0
IsNear slot va =
    (slot % 8 ≡ 0) × (slot / 4096 < va / 4096 + 2 ^ 20) × (va / 4096 ≤ slot / 4096 + 2 ^ 20)

module _ (d : List ℕ) (relocs : Relocs) where
  slot_parts : (slot : ℕ) → slot / 4096 * 4096 + slot % 4096 ≡ slot
  slot_parts slot = omega arith

  slot_at-found :
      (slot : ℕ) (name : String)
      → slot_name slot relocs ≡ some name
      → slot_at (pos slot) relocs ≡ some (name, slot)
  unfolding slot_at
  slot_at-found slot name l = rw (slot_at, l) refl

  stub_fits :
      (va page offset slot : ℕ) (name : String)
      → page + offset ≡ slot
      → slot_name slot relocs ≡ some name
      → decoded_stub relocs va
          (some (pos page, 16))
          (some (record { base = 16; target = 17; offset = offset }))
          (some (record { base = 16; target = 16; offset = offset }))
          (some 17)
        ≡ some (record { address = va; symbol = name; slot = slot })
  unfolding decoded_stub slot_at
  stub_fits va page offset slot name e l =
      rw ((eqb_iff offset offset).1 refl, e, slot_at-found slot name l) refl

  arm64_stub-written :
      (va slot : ℕ) (name : String)
      → IsNear slot va
      → slot_name slot relocs ≡ some name
      → arm64_stub relocs va
          (adrp 16 (wrapped 21 (slot / 4096) (va / 4096)))
          (ldr 17 16 (slot % 4096 / 8))
          (add 16 16 (slot % 4096))
          (br 17)
        ≡ some (record { address = va; symbol = name; slot = slot })
  unfolding arm64_stub
  arm64_stub-written va slot name n l =
      rw
        (
          decode_adrp-adrp 16 va (slot / 4096) (omega arith) n.1 n.2,
          decode_ldr_unsigned-ldr 17 16 (slot % 4096 / 8) (omega arith) (omega arith) (omega arith),
          decode_add_imm-add 16 16 (slot % 4096) (omega arith) (omega arith) (omega arith),
          decode_br-br 17 (omega arith),
        )
        (let aligned : slot % 4096 / 8 * 8 ≡ slot % 4096 = omega arith in
          rw aligned
            (stub_fits va (slot / 4096 * 4096) (slot % 4096) slot name (slot_parts slot) l))

  arm64_stub_at-written :
      (va at slot : ℕ) (name : String)
      → IsNear slot va
      → slot_name slot relocs ≡ some name
      → IsWritten d at va slot
      → arm64_stub_at d relocs va at
        ≡ some (some (record { address = va; symbol = name; slot = slot }))
  unfolding arm64_stub_at
  arm64_stub_at-written va at slot name n l w =
      rw (w.0, w.1, w.2, w.3) (ap some (arm64_stub-written va slot name n l))

  arm64_stub_at-inside :
      (va at : ℕ)
      → at + 16 ≤ length d
      → (found : Option Stub) × (arm64_stub_at d relocs va at ≡ some found)
  unfolding arm64_stub_at
  arm64_stub_at-inside va at h =
      let (w0, e0) = u32-inside d at (omega arith) in
      let (w1, e1) = u32-inside d (at + 4) (omega arith) in
      let (w2, e2) = u32-inside d (at + 8) (omega arith) in
      let (w3, e3) = u32-inside d (at + 12) (omega arith) in
      (arm64_stub relocs va w0 w1 w2 w3, rw (e0, e1, e2, e3) refl)

  module _ (base foff fsz : ℕ) (inside : foff + fsz ≤ length d) where
    search : ℕ → ℕ → Option (List Stub)
    search fuel off = arm64_from fuel d relocs base foff fsz off

    search-stop : (fuel off : ℕ) → ltb (off + 16) fsz ≡ false → search (suc fuel) off ≡ some []
    unfolding search arm64_from
    search-stop fuel off e = rw e refl

    search-round :
        (fuel off : ℕ) (found : Option Stub)
        → ltb (off + 16) fsz ≡ true
        → arm64_stub_at d relocs (base + off) (foff + off) ≡ some found
        → search (suc fuel) off ≡ (search fuel (off + 4) >>= λ stubs. some (add_stub found stubs))
    unfolding search arm64_from
    search-round fuel off found e f = rw (e, f) refl

    -- The search comes to an end without a read behind the file.
    search-returns : (fuel off : ℕ) → (stubs : List Stub) × (search fuel off ≡ some stubs)
    unfolding search arm64_from
    search-returns zero off = ([], refl)
    search-returns (suc fuel) off = elim (Bool-cases (ltb (off + 16) fsz)) [
      | inl more ↦
          let (found, f) =
            arm64_stub_at-inside (base + off) (foff + off)
              (omega (arith, ltb→lt (off + 16) fsz more)) in
          let (stubs, e) = search-returns fuel (off + 4) in
          (add_stub found stubs, search-round fuel off found more f ∙ rw e refl)
      | inr done ↦ ([], search-stop fuel off done)
    ]

    Any-add_stub :
        (stub : Stub) (found : Option Stub) (stubs : List Stub)
        → Any (λ s. s ≡ stub) stubs
        → Any (λ s. s ≡ stub) (add_stub found stubs)
    Any-add_stub stub none stubs a = a
    Any-add_stub stub (some s) stubs a = inr a

    search-finds :
        (fuel off steps at : ℕ) (stub : Stub)
        → fsz ≤ off + fuel
        → at ≡ off + 4 * steps
        → at + 16 < fsz
        → arm64_stub_at d relocs (base + at) (foff + at) ≡ some (some stub)
        → (stubs : List Stub) × (search fuel off ≡ some stubs) × Any (λ s. s ≡ stub) stubs
    search-finds zero off steps at stub f e h w = absurd (omega arith)
    search-finds (suc fuel) off zero at stub f e h w =
        let here : at ≡ off = omega arith in
        let (stubs, r) = search-returns fuel (off + 4) in
        let w' =
          subst (λ q. arm64_stub_at d relocs (base + q) (foff + q) ≡ some (some stub)) here w in
        (
          stub ∷ stubs,
          search-round fuel off (some stub) (lt→ltb (off + 16) fsz (omega arith)) w' ∙ rw r refl,
          inl refl,
        )
    search-finds (suc fuel) off (suc steps) at stub f e h w =
        let (found, g) = arm64_stub_at-inside (base + off) (foff + off) (omega arith) in
        let (stubs, r, a) =
          search-finds fuel (off + 4) steps at stub (omega arith) (omega arith) h w in
        (
          add_stub found stubs,
          search-round fuel off found (lt→ltb (off + 16) fsz (omega arith)) g ∙ rw r refl,
          Any-add_stub stub found stubs a,
        )

-- If the segment lies in the file, then the search returns, and it finds every stub that stands in the
-- segment at a multiple of four bytes and ends before the last byte of the segment: its address, its
-- symbol and its slot, if the slot is aligned, within 4 GiB and among the relocations.
pub stubs_arm64-written :
    (d : List ℕ) (base foff fsz : ℕ) (relocs : Relocs) (steps slot : ℕ) (name : String)
    → foff + fsz ≤ length d
    → 4 * steps + 16 < fsz
    → IsNear slot (base + 4 * steps)
    → slot_name slot relocs ≡ some name
    → IsWritten d (foff + 4 * steps) (base + 4 * steps) slot
    → (stubs : List Stub) × (stubs_arm64 d base foff fsz relocs ≡ some stubs)
      × Any (λ s. s ≡ record { address = base + 4 * steps; symbol = name; slot = slot }) stubs
unfolding stubs_arm64 search
stubs_arm64-written d base foff fsz relocs steps slot name inside h n l w =
    search-finds d relocs base foff fsz inside fsz 0 steps (4 * steps) _ (omega arith) (omega arith)
      h (arm64_stub_at-written d relocs (base + 4 * steps) (foff + 4 * steps) slot name n l w)
