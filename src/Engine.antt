-- ===== src/Engine.antt =====
-- The decision engine (src/stock_trading/engine).
pub mod Contracts
pub mod Equality
pub mod Naming
pub mod Validation
pub mod Reservations
pub mod Policies
pub mod Runtime
pub mod Registry
pub mod Lifecycle
pub mod Horizon
