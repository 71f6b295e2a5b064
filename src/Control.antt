-- ===== src/Control.antt =====
-- newz/control: the budget, the operation ledger and its leases.
pub mod Budget
pub mod Ledger
pub mod Scheduler
pub mod Adversarial
pub mod Retry
pub mod Examples
