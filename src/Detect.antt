-- ===== src/Detect.antt =====
-- crates/detect: what the host can do, from what the probes read.
pub mod Gpu
pub mod Readiness
