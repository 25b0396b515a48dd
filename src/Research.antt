-- ===== src/Research.antt =====
-- The research of src/stock_trading/research: the backtest of a production strategy.
pub mod Historical
