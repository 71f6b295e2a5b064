-- ===== src/Evidence.antt =====
-- newz/evidence: the edges of the claim graph in the store.
pub mod Edges
pub mod Assess
pub mod Examples
