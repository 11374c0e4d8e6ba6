-- ===== src/Protobuf.antt =====
-- skills/android-workbench/components/apk-reverse/scripts/protobuf_decode_raw.py: how a message of
-- unknown type is taken apart into fields, and put together again.
pub mod Varint
pub mod Walk
pub mod Framing
