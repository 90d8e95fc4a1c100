-- ===== src/Lifecycle.antt =====
-- src/supervisor/lifecycle.rs: running and stopping a daemon. Each child module is about one part
-- of the file.
pub mod Ports
pub mod Identity
pub mod Stop
pub mod Exit
pub mod Ready
pub mod Run
pub mod Launch
pub mod Examples
