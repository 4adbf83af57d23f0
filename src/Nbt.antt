-- ===== src/Nbt.antt =====
-- crates/nbt: the variable-length integers, and the tag writer.
pub mod Varint
pub mod Writer
