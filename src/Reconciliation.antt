-- ===== src/Reconciliation.antt =====
-- app/reconciliation: the deterministic three-way match of one invoice with its purchase order and
-- goods receipts.
mod Tests
pub mod Schemas
pub mod Identity
pub mod Variance
pub mod Rules
pub mod Matching
pub mod Report
pub mod Engine
