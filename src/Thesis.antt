-- ===== src/Thesis.antt =====
-- The thesis engine (src/alpha/engines/thesis/engine.py) over the records of src/alpha/models/thesis.py.
pub mod Model
pub mod Flow
pub mod Long
pub mod Short
pub mod Lifecycle
pub mod Detection
pub mod State
pub mod Engine
pub mod Tests
