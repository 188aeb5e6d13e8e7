-- ===== src/Xen.antt =====
-- crates/backend-xen: what the Xen backend makes of a profile before it calls libxl. The calls of
-- libxl themselves are foreign code. The proofs are in the modules below.
pub mod Mode
pub mod Plan
