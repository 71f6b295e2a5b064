-- ===== src/Acquisition.antt =====
-- newz/acquisition: what may be read, and the read itself.
pub mod UrlPolicy
pub mod Robots
pub mod Body
pub mod Answers
pub mod Fetcher
pub mod Examples
