-- ===== src/Execution.antt =====
-- The execution subsystem, src/alpha/engines/execution.
pub mod Enums
pub mod StateMachines
pub mod Models
pub mod Readiness
pub mod Invariants
pub mod Risk
pub mod Stores
pub mod Coordinator
pub mod PaperRouter
pub mod Projector
pub mod Tests
