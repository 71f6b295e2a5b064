-- ===== src/Extract.antt =====
-- newz/extract: what a model proposes, and what is kept of it.
pub mod Proposal
pub mod Examples
