-- ===== src/Cockpit.antt =====
-- crates/cockpit/src/lib.rs: the console on dom0.
pub mod Commands
pub mod Choices
pub mod State
pub mod Prompts
pub mod Keys
pub mod Session
pub mod Workers
pub mod Guarded
