-- ===== src/Present.antt =====
-- newz/present: the revisions of cards and what they depend on.
pub mod Cards
pub mod Dependencies
