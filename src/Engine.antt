-- ===== src/Engine.antt =====
-- src/engine/: the rule engine.
pub mod Content
pub mod Stats
pub mod Matcher
pub mod Detection
pub mod Context
pub mod Evaluator
pub mod Process
pub mod Startup
