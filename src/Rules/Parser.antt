-- ===== src/Rules/Parser.antt =====
-- src/rules/parser.py: the parts of a rule line, from the tokens to the specifications.
pub mod Tokens
pub mod Header
pub mod Ident
pub mod Decode
pub mod Content
pub mod Specs
pub mod Written
