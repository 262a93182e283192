-- ===== src/Decoder.antt =====
-- src/decoder/: bytes of a payload turned into text.
pub mod Charset
pub mod Url
