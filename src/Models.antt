-- ===== src/Models.antt =====
-- The data of src/models/, which the components exchange.
pub mod Event
pub mod Flow
pub mod Rule
pub mod RuleReport
pub mod EngineTypes
