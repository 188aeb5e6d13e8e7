-- ===== src/Fabric.antt =====
-- crates/fabric: node identities, signed events and their chain.
pub mod NodeId
pub mod Event
pub mod Chain
