-- ===== src/Flow.antt =====
-- src/flow/: the flow tracker and its parts.
pub mod Key
pub mod Table
pub mod TcpState
pub mod Timeout
pub mod Tracker
