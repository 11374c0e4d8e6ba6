-- ===== src/Elf.antt =====
-- skills/android-workbench/components/apk-reverse/scripts/elf_plt.py: which imported symbol a stub of a
-- library calls, and who calls the stub, without the section table.
pub mod Words
pub mod Stubs
pub mod File
