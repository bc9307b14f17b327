-- ===== src/RiskEngine.antt =====
-- The account risk of src/alpha/engines/risk/engine.py and the orders of
-- src/alpha/engines/order/engine.py, with the plans and daily states of
-- src/alpha/models/risk.py.
pub mod Model
pub mod Book
pub mod Plans
pub mod Handlers
pub mod Accounts
pub mod Orders
pub mod Tests
