-- ===== src/Lib.antt =====
-- A model of the decision engine, the PAPER execution and the backtests of the stock trading program,
-- with the properties that make them correct.
--
-- The program runs a strategy in cycles. A cycle settles old orders, captures the portfolio and the
-- candidates of the day, asks the strategy for opportunities, the position manager for exits and
-- the policies for allocations, checks each answer, and sends the orders to a broker. The PAPER
-- broker keeps an account in one ledger file and must survive a restart at any point. The backtests
-- run scored candidates, or a production strategy, over past days; the walk-forward splits choose
-- what a model may learn from; the live services ask which session a publication or a cycle belongs
-- to, recover from the broker's journal what a batch has sent, and keep the
-- queue of new filings and the audit of those that have gone stale.
--
-- Files and code (all paths from the repository's root):
--   Base/*                    numbers, lists, Python dicts, `sorted`, exceptions as results, floats
--                             and datetimes
--   Engine/Contracts          src/stock_trading/engine/contracts.py: records and their checks
--   Engine/Equality           the dataclass equality of opportunities
--   Engine/Validation         the checks of src/stock_trading/engine/runtime.py between the plugins
--   Engine/Reservations       `_portfolio_with_pending_entry_reservations` of runtime.py
--   Engine/Policies           src/stock_trading/engine/policies.py
--   Engine/Runtime            `TradingEngine`: `decide` is `run_prepared` up to the broker
--   Engine/Registry, Lifecycle
--                             src/stock_trading/engine/registry.py and lifecycle.py
--   Engine/Horizon            src/stock_trading/positions/horizon.py
--   Execution/Ledger, Fill, Broker, Portfolio
--                             src/stock_trading/execution/paper.py: the account, `_fill`, `execute`
--                             and `settle`, `PaperPortfolioStateProvider`
--   Execution/Session, Batch  session_paper.py, prices.py and paper_batch_commit.py of
--                             src/stock_trading/execution
--   Execution/Accepted        the engine with the PAPER broker
--   Backtest/Contracts, Fixed, Tranche
--                             src/stock_trading/backtest/portfolio.py: the records, and its two
--                             backtests
--   Backtest/Dates            the sorted dates that the backtests visit
--   Learning/Splits           src/stock_trading/ml/walk_forward.py: the annual splits
--   Research/Historical       src/stock_trading/research/historical.py: the checks, and in its child
--                             Run the backtest of a strategy
--   Live/Sessions             src/stock_trading/live/session_calendar.py and
--                             src/stock_trading/market/execution_time.py
--   Live/Recovery             src/stock_trading/live/paper_order_recovery.py
--   Live/Queue                `FileCurrentEventQueue` of src/stock_trading/live/event_intake.py
--   Live/Disposition          src/stock_trading/live/pending_disposition.py
--   Tests/*                   concrete runs
--
-- How the state is modelled: an identity is a natural number, its place in the order of the strings,
-- 0 the empty string. Floats are any type with the operations of `Base.Floats.Float`; comparisons
-- are Boolean, so that a NaN is allowed, and no law of arithmetic is assumed. A datetime is in UTC,
-- split in date and time of day. A dict whose keys are the identities of its values is the list of
-- its values in insertion order. An exception is a value with its class and the constant part of
-- its message. A method that changes state takes the state and returns it, also when it raises. The
-- ledger file is the payload that its JSON text decodes to, and its atomic replacement is one
-- assignment. Loops are structural recursion on the lists that they visit, so no fuel is needed.
--
-- Parameters: SHA-256 and the string formats (`Engine.Naming.Naming`), the plugins of the engine,
-- the market database, the store of the registry, what a callback changes, the strategy and the
-- policies of a backtest, the prediction of a trained model, the text of a position key, the exchange
-- calendar, for days within its coverage, and the time zone database.
--
-- Not modelled: JSON text, but for the floats that it refuses in a ledger, and file system errors, the check that an identity is not blank (but for
-- the queue of filings, its audit and the receipts), the poller of filings and its quarantine, the
-- services and experiments around the engine, data sources, feature extraction and the training of
-- models, which are files, network, third-party numerics and text.
pub mod Base
pub mod Engine
pub mod Execution
pub mod Backtest
pub mod Learning
pub mod Live
pub mod Research
pub mod Tests
