-- ===== src/Execution.antt =====
-- PAPER execution (src/stock_trading/execution).
pub mod Ledger
pub mod Fill
pub mod Broker
pub mod Session
pub mod Batch
pub mod Accepted
pub mod Portfolio
