-- ===== src/Tests.antt =====
-- Runs of the development on concrete inputs.
pub mod Flows
pub mod Rules
pub mod Contents
pub mod Loads
pub mod Parser
pub mod Decoder
pub mod Paths
