-- ===== src/Agent.antt =====
-- crates/agent: the wanted state that controllers declare, the observed state, the policy gate, and
-- the plan that reconciles the two states.
pub mod Truth
pub mod Wanted
pub mod Refuse
pub mod Reconcile
