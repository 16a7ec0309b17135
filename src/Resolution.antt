-- ===== src/Resolution.antt =====
-- app/resolution and app/services/resolution_execution_service.py: proposed workflow actions, their
-- approval, and their controlled execution.
mod Tests
pub mod Transitions
pub mod Model
pub mod Guardrails
pub mod Rows
pub mod Status
pub mod Execution
pub mod Registry
pub mod Immutability
pub mod Refresh
pub mod Decisions
pub mod Proposals
pub mod Contracts
