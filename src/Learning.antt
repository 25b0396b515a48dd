-- ===== src/Learning.antt =====
-- The learning of src/stock_trading/ml: the annual walk-forward splits of its training rows.
pub mod Splits
