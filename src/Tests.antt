-- ===== src/Tests.antt =====
-- Concrete runs of the models, and the properties applied to them.
pub mod Samples
mod Paper
mod Cycle
mod Registry
mod Backtest
mod Live
mod Intake
