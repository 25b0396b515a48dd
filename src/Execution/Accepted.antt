-- ===== src/Execution/Accepted.antt =====
-- `TradingEngine.run_prepared` (src/stock_trading/engine/runtime.py) with the PAPER broker of
-- src/stock_trading/execution/paper.py.
use stock_traiding.Base.{◌≡◌, Option, List, Float, ok, Nodup, subst, sym, ap, elem}
use stock_traiding.Engine.Contracts.{PreparedEngineCycle, ExecutionReport}
use stock_traiding.Engine.Naming.{Naming}
use stock_traiding.Engine.Validation.{validate_execution_reports}
use stock_traiding.Engine.Validation.Outputs.{validate_execution_reports_iff}
use stock_traiding.Engine.Runtime.{Plugins, Decision, all_orders, decide}
use stock_traiding.Engine.Runtime.Decided.{decide-IsDecided}
use stock_traiding.Execution.Ledger.{LedgerFile}
use stock_traiding.Execution.Broker.{FillFunction, execute}
use stock_traiding.Execution.Broker.Soundness.{IsFill}
use stock_traiding.Execution.Broker.Durability.{execute_reports}

module _ {F S : Type 0} ⦃fl : Float F⦄ (naming : Naming) (plugins : Plugins F S) (starting_cash : F)
    (fill : FillFunction F) (law : IsFill fill) where
  -- When the engine has decided and the PAPER broker returns for the orders of the decision, with
  -- any fill that meets the broker's contract, the engine accepts its reports.
  pub execute_accepted :
      (prepared : PreparedEngineCycle F) (s : S) (d : Decision F)
      (file file' : Option (LedgerFile F)) (rs : List (ExecutionReport F))
      → decide naming plugins prepared s ≡ ok d
      → execute starting_cash fill file (all_orders naming plugins d) ≡ ok (rs, file')
      → validate_execution_reports (all_orders naming plugins d) rs ≡ ok tt
  execute_accepted prepared s d file file' rs decided executed =
      let same =
        execute_reports starting_cash fill law file (all_orders naming plugins d) rs file'
          executed in
      let ids = (decide-IsDecided naming plugins prepared s d decided).order_ids in
      (validate_execution_reports_iff (all_orders naming plugins d) rs).1
        (subst Nodup (sym same) ids, λ x. ap (elem x) same)
