-- ===== src/Research.antt =====
-- The shadow research on levels of src/alpha/research/interaction: the geometry of a bar and a
-- level, the episodes of interaction with a level, and the engine that feeds them with bars.
pub mod Texts
pub mod Geometry
pub mod Model
pub mod Opening
pub mod Episodes
pub mod Writer
pub mod Levels
pub mod Engine
pub mod Tests
