-- ===== src/Encoding.antt =====
-- hj/encoding: bytes, text and their printed forms.
pub mod Bytes
pub mod Hex
pub mod Utf8
