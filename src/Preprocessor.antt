-- ===== src/Preprocessor.antt =====
-- src/preprocessor/: the fields of an event in one notation.
pub mod Normalizer
