-- ===== src/Elf/File/Stubs.antt =====
-- The table of stubs of a whole library, as elf_plt.py makes it from the program headers.
use android_workbench.Prelude.{ℕ, ◌+◌, ◌*◌, ◌<◌, ◌≤◌, String, some, List, length, Any, ◌≡◌}
use android_workbench.Elf.Stubs.{Relocs, slot_name, Stub}
use android_workbench.Elf.Stubs.Written.{IsNear, IsWritten, stubs_arm64-written}
use android_workbench.Elf.File.{Segment, Elf, exec_segment, find_stubs}

-- For an aarch64 library whose first executable segment lies in the file, the table of stubs comes back,
-- and it has every stub that stands in that segment at a multiple of four bytes and ends before the
-- last byte of the segment: its address, its symbol and its slot, if the slot is aligned, within 4 GiB
-- and among the relocations.
pub find_stubs-written :
    (elf : Elf) (seg : Segment) (relocs : Relocs) (steps slot : ℕ) (name : String)
    → elf.machine ≡ 183
    → exec_segment elf.loads ≡ some seg
    → seg.offset + seg.filesz ≤ length elf.contents
    → 4 * steps + 16 < seg.filesz
    → IsNear slot (seg.vaddr + 4 * steps)
    → slot_name slot relocs ≡ some name
    → IsWritten elf.contents (seg.offset + 4 * steps) (seg.vaddr + 4 * steps) slot
    → (stubs : List Stub) × (find_stubs elf relocs ≡ some stubs)
      × Any (λ s. s ≡ record { address = seg.vaddr + 4 * steps; symbol = name; slot = slot }) stubs
unfolding find_stubs
find_stubs-written elf seg relocs steps slot name m x inside h n l w =
    let (stubs, e, a) =
      stubs_arm64-written elf.contents seg.vaddr seg.offset seg.filesz relocs steps slot name inside
        h n l w in
    (stubs, rw (x, m) e, a)
