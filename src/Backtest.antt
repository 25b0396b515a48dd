-- ===== src/Backtest.antt =====
-- The event backtests of src/stock_trading/backtest.
pub mod Contracts
pub mod Fixed
pub mod Tranche
pub mod Dates
