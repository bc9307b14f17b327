-- ===== src/Execution/Coordinator.antt =====
-- The intent lifecycle of src/alpha/engines/execution/coordinator.py.
pub mod State
pub mod Submit
pub mod Confirm
pub mod Callbacks
pub mod Steps
pub mod Gates
pub mod Statuses
pub mod Exposure
pub mod Confirmation
