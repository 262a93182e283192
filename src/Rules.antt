-- ===== src/Rules.antt =====
-- src/rules/: the rules in the order of the rule files, and their index.
pub mod Repository
pub mod Indexer
pub mod Loader
pub mod Syntax
pub mod Parser
pub mod Validator
