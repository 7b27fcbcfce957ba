-- ===== src/Server.antt =====
-- internal/server
pub mod Names
pub mod State
pub mod Registry
pub mod Cancel
pub mod Serialize
pub mod RequestId
pub mod Requests
pub mod Loop
pub mod Keeps
pub mod Frame
pub mod Invariants
pub mod Abstract
pub mod World
pub mod Start
