-- ===== src/Orchestratord.antt =====
-- crates/orchestratord: the daemon on dom0. One module per source file that is modelled.
pub mod Broadcast
pub mod Engine
pub mod Protocol
pub mod Actor
pub mod Params
pub mod Dispatch
pub mod Connection
pub mod Auth
