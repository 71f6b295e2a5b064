-- ===== src/Publish.antt =====
-- newz/publish: appraisal, clearance, and publication with its confirmation and its revocation.
pub mod Surface
pub mod Tables
pub mod Appraisal
pub mod Clearance
pub mod Publication
pub mod Examples
