-- ===== src/Tests/Paper.antt =====
-- Runs of the PAPER broker (src/stock_trading/execution) on the sample account.
use stock_traiding.Base.{
  ℕ, ◌≡◌, refl, true, false, Option, none, some, List, [], ◌∷◌, map, Result, ok, All, ltb,
  has_duplicates,
}
use stock_traiding.Engine.Contracts.{
  OrderIntent, ExecutionReport, PortfolioSnapshot, plain, rejected, buy, sell, check_order,
  check_report,
}
use stock_traiding.Engine.Validation.{order_key, report_key, validate_settlements}
use stock_traiding.Execution.Ledger.{
  LedgerFile, PaperLedgerState, load, decoded_state, check_ledger,
}
use stock_traiding.Execution.Fill.{Filled, fill}
use stock_traiding.Execution.Fill.Contract.{IsOutcome, fill-IsOutcome}
use stock_traiding.Execution.Broker.{Book, open_book, closed_state, execute, settle}
use stock_traiding.Execution.Broker.Soundness.{IsFill}
use stock_traiding.Execution.Broker.Durability.{IsWritten, execute_reports, execute-IsWritten}
use stock_traiding.Execution.Broker.Replay.{IsReplayed, execute_replay}
use stock_traiding.Execution.Broker.Settlement.{IsSettlement}
use stock_traiding.Execution.Broker.Settle.{settle_reports, settle-IsWritten}
use stock_traiding.Execution.Session.{MarketStore, session_bar_fill}
use stock_traiding.Execution.Session.Fills.{
  IsOnSession, session_bar_fill-IsOnSession, session_bar_fill-IsFill,
}
use stock_traiding.Execution.Batch.{Session, execute_batch}
use stock_traiding.Execution.Batch.Committed.{IsRecorded, execute_batch-IsRecorded}
use stock_traiding.Base.Sort.{sorted}
use stock_traiding.Execution.Portfolio.{snapshot}
use stock_traiding.Execution.Portfolio.Snapshot.{IsSnapshot, snapshot-IsSnapshot}
use stock_traiding.Tests.Samples.{
  Fixed, fixed_point, value_of, at, order, held, account, fifty, digest, paper_fill, cash,
  portfolio,
}

paper_fill-IsFill : IsFill paper_fill
paper_fill-IsFill = record {
  outcome = λ o now c ps done h. fill-IsOutcome digest 10_000_000 fifty o now c ps h;
}

-- A sale, an order that waits already, an entry at once and an entry for later
abbrev orders : List (OrderIntent Fixed)
orders =
    order sell 71 1 none
    ∷ order buy 31 3 (some 11)
    ∷ order buy 41 4 none
    ∷ order buy 51 5 (some 12)
    ∷ []

loaded : PaperLedgerState Fixed
loaded = decoded_state account

executed : List (ExecutionReport Fixed) × Option (LedgerFile Fixed)
unfolding execute
executed = value_of ([], none) (execute cash paper_fill (some account) orders)

executed_ok : execute cash paper_fill (some account) orders ≡ ok (executed.0, executed.1)
unfolding execute executed load stock_traiding.Execution.Ledger.construct check_order
    stock_traiding.Execution.Ledger.check_paper_position check_ledger has_duplicates open_book fill
    stock_traiding.Execution.Fill.divide stock_traiding.Execution.Fill.marked_equity check_report
    stock_traiding.Execution.Broker.validate_replayed_order closed_state
executed_ok = refl

loaded_ok : load cash (some account) ≡ ok loaded
unfolding load loaded stock_traiding.Execution.Ledger.construct check_order
    stock_traiding.Execution.Ledger.check_paper_position check_ledger has_duplicates
loaded_ok = refl

orders_checked : All (λ o. check_order o ≡ ok tt) orders
unfolding check_order
orders_checked = (refl, (refl, (refl, (refl, tt))))

execute-IsWritten_example : IsWritten cash loaded executed.1
execute-IsWritten_example =
    execute-IsWritten cash paper_fill paper_fill-IsFill (some account) loaded orders executed.0
      executed.1 loaded_ok orders_checked executed_ok

execute_reports_example : map report_key executed.0 ≡ map order_key orders
execute_reports_example =
    execute_reports cash paper_fill paper_fill-IsFill (some account) orders executed.0 executed.1
      executed_ok

execute_replay_example : IsReplayed cash paper_fill executed.1 orders
execute_replay_example =
    execute_replay cash paper_fill paper_fill-IsFill (some account) loaded orders executed.0
      executed.1 loaded_ok orders_checked (refl, (refl, (refl, (refl, tt)))) executed_ok

settlement : List (ExecutionReport Fixed) × Option (LedgerFile Fixed)
unfolding settle
settlement = value_of ([], none) (settle cash paper_fill (some account) (at 12))

settled_ok : settle cash paper_fill (some account) (at 12) ≡ ok (settlement.0, settlement.1)
unfolding settle settlement load stock_traiding.Execution.Ledger.construct check_order
    stock_traiding.Execution.Ledger.check_paper_position check_ledger has_duplicates fill open_book
    stock_traiding.Execution.Fill.marked_equity stock_traiding.Execution.Fill.divide check_report
    closed_state
settled_ok = refl

settle_reports_example :
    All (IsSettlement (at 12) loaded.pending_orders) settlement.0
    × (validate_settlements settlement.0 ≡ ok tt)
settle_reports_example =
    settle_reports cash paper_fill paper_fill-IsFill (some account) loaded (at 12) settlement.0
      settlement.1 loaded_ok settled_ok

settle-IsWritten_example : IsWritten cash loaded settlement.1
settle-IsWritten_example =
    settle-IsWritten cash paper_fill paper_fill-IsFill (some account) loaded (at 12) settlement.0
      settlement.1 loaded_ok settled_ok

-- Two positions of one identity
abbrev twins : Book Fixed
twins = record {
  cash = cash;
  positions = held 1 ∷ held 1 ∷ [];
  pending = [];
  completed = [];
  submitted = [];
}

-- The daily bars of one security, which trades every day
abbrev bars : MarketStore Fixed
bars = record {
  bar_on = λ security day. some (record { adj_open = 49_000_000; adj_close = 51_000_000 });
  bars_before = λ security day n. record { adj_open = 49_000_000; adj_close = 51_000_000 } ∷ [];
}

abbrev no_fill : Filled Fixed
no_fill = (
  0,
  record {
    order_id = 0;
    accepted = false;
    executed_at = at 0;
    message = plain "";
    fill_price = none;
    status = rejected;
  },
  [],
)

abbrev done_or : Filled Fixed → Option (Filled Fixed) → Filled Fixed
done_or d none = d
done_or d (some x) = x

bought : Filled Fixed
unfolding fill
bought = done_or no_fill (value_of none (paper_fill (order buy 41 4 none) (at 10) cash []))

bought_ok : paper_fill (order buy 41 4 none) (at 10) cash [] ≡ ok (some bought)
unfolding fill bought stock_traiding.Execution.Fill.marked_equity
    stock_traiding.Execution.Fill.divide stock_traiding.Execution.Ledger.check_paper_position
    check_report
bought_ok = refl

fill-IsOutcome_example : IsOutcome (order buy 41 4 none) [] bought
fill-IsOutcome_example =
    fill-IsOutcome digest 10_000_000 fifty (order buy 41 4 none) (at 10) cash [] bought_ok

-- An order of day 11 that is settled on day 15
recovered : Filled Fixed
unfolding session_bar_fill
recovered = done_or no_fill (
    value_of none
      (session_bar_fill digest 10_000_000 bars (order buy 31 3 (some 11)) (at 15) cash []))

recovered_ok :
    session_bar_fill digest 10_000_000 bars (order buy 31 3 (some 11)) (at 15) cash []
    ≡ ok (some recovered)
unfolding session_bar_fill recovered stock_traiding.Execution.Fill.fill_buy
    stock_traiding.Execution.Fill.marked_equity stock_traiding.Execution.Fill.divide
    stock_traiding.Execution.Ledger.check_paper_position check_report
recovered_ok = refl

session_bar_fill-IsOnSession_example :
    IsOnSession digest 10_000_000 bars (order buy 31 3 (some 11)) (at 15) cash [] recovered
session_bar_fill-IsOnSession_example =
    session_bar_fill-IsOnSession digest 10_000_000 bars (order buy 31 3 (some 11)) (at 15) cash []
      recovered recovered_ok

session_bar_fill-IsFill_example : IsFill (session_bar_fill digest 10_000_000 bars)
session_bar_fill-IsFill_example = session_bar_fill-IsFill digest 10_000_000 bars

abbrev session : Session Fixed ℕ
session = record { ledger = some account; commits = []; rest = 0 }

abbrev batch_orders : List (OrderIntent Fixed)
batch_orders = order buy 51 5 (some 12) ∷ order buy 41 4 none ∷ []

batch : Result (List (ExecutionReport Fixed)) × Session Fixed ℕ
unfolding execute_batch
batch = execute_batch cash paper_fill (λ id. true) 90 none (at 10) batch_orders session

batch_ok :
    execute_batch cash paper_fill (λ id. true) 90 none (at 10) batch_orders session
    ≡ (ok (value_of [] batch.0), batch.1)
unfolding execute_batch batch load stock_traiding.Execution.Ledger.construct check_order
    stock_traiding.Execution.Ledger.check_paper_position check_ledger has_duplicates execute
    open_book fill stock_traiding.Execution.Fill.marked_equity stock_traiding.Execution.Fill.divide
    check_report closed_state stock_traiding.Execution.Batch.check_commit
    stock_traiding.Execution.Batch.write_commit
batch_ok = refl

execute_batch-IsRecorded_example :
    (map report_key (value_of [] batch.0) ≡ map order_key batch_orders)
    × IsRecorded 90 (sorted ltb (map order_key batch_orders)) session.commits batch.1.commits
execute_batch-IsRecorded_example =
    execute_batch-IsRecorded cash paper_fill paper_fill-IsFill (λ id. true) 90 none (at 10)
      batch_orders session batch.1 (value_of [] batch.0) batch_ok

pictured : PortfolioSnapshot Fixed
unfolding snapshot
pictured = value_of portfolio (snapshot cash fifty (some account) (at 10))

pictured_ok : snapshot cash fifty (some account) (at 10) ≡ ok pictured
unfolding snapshot pictured load stock_traiding.Execution.Ledger.construct check_order
    stock_traiding.Execution.Ledger.check_paper_position check_ledger has_duplicates
    stock_traiding.Engine.Contracts.check_position stock_traiding.Engine.Contracts.check_snapshot
pictured_ok = refl

snapshot-IsSnapshot_example :
    (s : PaperLedgerState Fixed) × (load cash (some account) ≡ ok s)
    × IsSnapshot fifty (at 10) s pictured
snapshot-IsSnapshot_example =
    snapshot-IsSnapshot cash fifty (some account) (at 10) pictured pictured_ok
