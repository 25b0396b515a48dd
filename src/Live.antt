-- ===== src/Live.antt =====
-- The live services of src/stock_trading/live: the resolver of exchange sessions and the recovery of a
-- batch's PAPER orders.
pub mod Sessions
pub mod Recovery
pub mod Queue
pub mod Disposition
