-- ===== src/Domain.antt =====
-- newz/domain: the frozen enumerations and record shapes, and newz/version.py.
pub mod Evidence
pub mod Work
pub mod Operations
pub mod Admission
pub mod Int
pub mod Records
pub mod Version
