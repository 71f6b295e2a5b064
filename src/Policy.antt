-- ===== src/Policy.antt =====
-- newz/policy: the capability matrix, risk, independence, lanes, promotion and reassessment.
pub mod Rules
pub mod Cells
pub mod Matrix
pub mod Risk
pub mod Independence
pub mod Lanes
pub mod Admission
pub mod LaneStatus
pub mod Promotion
pub mod Reassessment
pub mod Samples
pub mod Examples
pub mod CellExamples
