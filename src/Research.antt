-- ===== src/Research.antt =====
-- newz/research: the work that a claim asks for.
pub mod Tasks
pub mod Generation
pub mod Examples
