-- ===== src/Pilot.antt =====
-- newz/pilot: running the system.
pub mod Modes
pub mod Examples
