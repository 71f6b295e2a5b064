-- ===== src/Graph.antt =====
-- newz/graph: operations on the claim graph.
pub mod Merge
pub mod Examples
