-- ===== src/Position.antt =====
-- The shadow position monitor, src/alpha/engines/position/engine.py, and what it promises.
pub mod Model
pub mod Watchlist
pub mod Trades
pub mod Exits
pub mod Signals
pub mod Selection
pub mod Tests
