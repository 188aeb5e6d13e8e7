-- ===== src/Bootstrapper.antt =====
-- crates/bootstrapper: the toggle of what the console shows at boot. The rest of the crate installs
-- packages and writes disks, and is not modelled.
pub mod BootMode
