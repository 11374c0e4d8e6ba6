-- ===== src/Dex.antt =====
-- skills/android-workbench/components/apk-reverse/scripts/dexutil.py: a reader of dex files, which hold the
-- code of an app, down to the single instruction.
pub mod Bytes
pub mod Opcodes
pub mod Names
pub mod Decode
pub mod Branch
pub mod Classes
pub mod Tables
pub mod Header
