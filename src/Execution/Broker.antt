-- ===== src/Execution/Broker.antt =====
-- `PaperExecutionBroker.execute` and `settle` in src/stock_trading/execution/paper.py, over the
-- fill that a subclass may replace. The dicts that the methods work on are a record; the ledger
-- file is an argument and a result, and is written only when a method returns.
pub mod Soundness
pub mod Rounds
pub mod Run
pub mod Durability
pub mod Settlement
pub mod Settle
pub mod Journal
pub mod Replay
use stock_traiding.Base.{
  ℕ, Bool, true, false, not, ◌&&◌, ◌||◌, Option, none, some, List, [], ◌∷◌, Float, Result, ok,
  raise, value_error, raise_if, ◌>>=◌, ◌>>◌, Datetime, opt_eq, opt_int_eq, ltb, ◌==◌, if◌then◌else◌,
  is_some,
}
use stock_traiding.Base.Dict.{lookup, has, put, set_default, pop, dict_of}
use stock_traiding.Base.Sort.{sorted}
use stock_traiding.Engine.Contracts.{Identity, OrderIntent, ExecutionReport, side_eq, execution_day}
use stock_traiding.Engine.Validation.{order_key, report_key}
use stock_traiding.Execution.Ledger.{
  PaperPositionState, PaperLedgerState, LedgerFile, order_before, report_before, check_ledger, load,
  save,
}
use stock_traiding.Execution.Fill.{Filled, queued_report}

-- The local variables of the two methods
pub record Book (F : Type 0) : Type 0 where
  pub cash : F
  pub positions : List (PaperPositionState F)
  pub pending : List (OrderIntent F)
  pub completed : List (ExecutionReport F)
  pub submitted : List (OrderIntent F)

-- A fill of one order at a time; `none` means that there is no price yet.
abbrev pub FillFunction : Type 0 → Type 0
FillFunction F =
    OrderIntent F → Datetime → F → List (PaperPositionState F) → Result (Option (Filled F))

module _ {F : Type 0} where
  abbrev pub default_all : List (OrderIntent F) → List (OrderIntent F) → List (OrderIntent F)
  default_all [] d = d
  default_all (o ∷ os) d = default_all os (set_default order_key o d)

  unfoldable pub open_book : PaperLedgerState F → Book F
  open_book s = record {
    cash = s.cash;
    positions = s.positions;
    pending = dict_of order_key s.pending_orders;
    completed = dict_of report_key s.completed_reports;
    submitted = default_all s.pending_orders (dict_of order_key s.submitted_orders);
  }

  unfoldable pub closed_state : Book F → PaperLedgerState F
  closed_state b = record {
    cash = b.cash;
    positions = b.positions;
    pending_orders = sorted order_before b.pending;
    completed_reports = sorted report_before b.completed;
    submitted_orders = sorted order_before b.submitted;
  }

  -- What `execute` books for an order that it fills, and what it books for one that it queues
  abbrev pub complete : Book F → Filled F → Book F
  complete b (cash, report, positions) = record b {
    cash = cash;
    positions = positions;
    completed = put report_key report b.completed;
  }

  abbrev pub enqueue : Book F → OrderIntent F → Book F
  enqueue b o = record b { pending = put order_key o b.pending }

  abbrev pub submit : Book F → OrderIntent F → Book F
  submit b o = record b { submitted = put order_key o b.submitted }

  -- An order that finds no price waits for one.
  abbrev pub book_outcome : Book F → OrderIntent F → Option (Filled F) → Book F × ExecutionReport F
  book_outcome b o none = (enqueue b o, queued_report o o.created_at "waiting for market price")
  book_outcome b o (some done) = (complete b done, done.1)

  -- A settled order: out of the queue, and its report in
  abbrev pub settled : Book F → OrderIntent F → Filled F → Book F
  settled b o done = complete (record b { pending = pop order_key o.order_id b.pending }) done

  abbrev pub settle_outcome :
      Book F → OrderIntent F → Option (Filled F) → Option (Book F × ExecutionReport F)
  settle_outcome b o none = none
  settle_outcome b o (some done) = some (settled b o done, done.1)

module _ {F : Type 0} ⦃fl : Float F⦄ where
  abbrev pub same_intent : OrderIntent F → OrderIntent F → Bool
  same_intent a b =
      a.strategy_id == b.strategy_id
      && opt_eq a.candidate_id b.candidate_id
      && opt_eq a.event_id b.event_id
      && a.company_id == b.company_id
      && a.security_id == b.security_id
      && side_eq a.side b.side
      && fl.same a.allocation_pct b.allocation_pct
      && opt_int_eq a.horizon_sessions b.horizon_sessions
      && opt_eq a.execute_on b.execute_on

  unfoldable pub validate_replayed_order : OrderIntent F → OrderIntent F → Result (Unit {0})
  validate_replayed_order previous current =
      raise_if (not (same_intent previous current))
        (value_error "paper order_id was replayed with different economic intent")

  -- The journal entry of an order, or the check against the entry that it has
  unfoldable pub record_submission : Book F → OrderIntent F → Result (Book F)
  record_submission b o = elim (lookup order_key o.order_id b.submitted) [
    | some previous ↦ validate_replayed_order previous o >> ok b
    | none ↦ ok (submit b o)
  ]

  -- The end of both methods: the new state is constructed, and then written.
  unfoldable pub commit :
      Book F → List (ExecutionReport F) → Result (List (ExecutionReport F) × Option (LedgerFile F))
  unfolding save
  commit b reports = do
    check_ledger (closed_state b)
    file ← save (closed_state b)
    ok (reports, file)

  module _ (starting_cash : F) (fill : FillFunction F) where
    abbrev pub fill_now : Book F → OrderIntent F → Result (Book F × ExecutionReport F)
    fill_now b o =
        fill o o.created_at b.cash b.positions >>= λ outcome. ok (book_outcome b o outcome)

    -- A new order: queued for its day, or filled
    unfoldable pub place : Book F → OrderIntent F → Result (Book F × ExecutionReport F)
    place b o =
        if ltb o.created_at.date (execution_day o)
        then ok (enqueue b o, queued_report o o.created_at "waiting for execution date")
        else fill_now b o

    -- The report on an order that has its journal entry
    unfoldable pub respond : Book F → OrderIntent F → Result (Book F × ExecutionReport F)
    unfolding place
    respond b o = elim (lookup report_key o.order_id b.completed) [
      | some previous ↦ ok (b, previous)
      | none ↦
          if has order_key o.order_id b.pending
          then ok (b, queued_report o o.created_at "already queued")
          else place b o
    ]

    -- One round of the loop of `execute`
    unfoldable pub execute_order : Book F → OrderIntent F → Result (Book F × ExecutionReport F)
    unfolding respond record_submission
    execute_order b o = do b' ← record_submission b o; respond b' o

    unfoldable pub execute_each :
        Book F → List (OrderIntent F) → Result (Book F × List (ExecutionReport F))
    execute_each b [] = ok (b, [])
    execute_each b (o ∷ os) = do
      step ← execute_order b o
      rest ← execute_each step.0 os
      ok (rest.0, step.1 ∷ rest.1)

    unfoldable pub execute :
        Option (LedgerFile F)
        → List (OrderIntent F)
        → Result (List (ExecutionReport F) × Option (LedgerFile F))
    unfolding commit execute_each execute_order
    execute file [] = ok ([], file)
    execute file (o ∷ os) = do
      state ← load starting_cash file
      done ← execute_each (open_book state) (o ∷ os)
      commit done.0 done.1

    -- One round of the loop of `settle`; `none` means that the order stays pending.
    unfoldable pub settle_order :
        Datetime → Book F → OrderIntent F → Result (Option (Book F × ExecutionReport F))
    settle_order as_of b o =
        if ltb as_of.date (execution_day o)
        then ok none
        else fill o as_of b.cash b.positions >>= λ outcome. ok (settle_outcome b o outcome)

    unfoldable pub settle_each :
        Datetime → Book F → List (OrderIntent F) → Result (Book F × List (ExecutionReport F))
    settle_each as_of b [] = ok (b, [])
    settle_each as_of b (o ∷ os) = do
      step ← settle_order as_of b o
      elim step [
        | none ↦ settle_each as_of b os
        | some (b', r) ↦ do rest ← settle_each as_of b' os; ok (rest.0, r ∷ rest.1)
      ]

    unfoldable pub settle_all :
        Datetime → PaperLedgerState F → Result (List (ExecutionReport F) × Option (LedgerFile F))
    unfolding commit settle_each settle_order
    settle_all as_of state = do
      done ← settle_each as_of (open_book state) (sorted order_before state.pending_orders)
      commit done.0 done.1

    unfoldable pub settle_pending :
        Option (LedgerFile F)
        → Datetime
        → PaperLedgerState F
        → Result (List (ExecutionReport F) × Option (LedgerFile F))
    unfolding settle_all
    settle_pending file as_of state = elim state.pending_orders [
      | [] ↦ ok ([], file)
      | _ ∷ _ ↦ settle_all as_of state
    ]

    unfoldable pub settle :
        Option (LedgerFile F) → Datetime → Result (List (ExecutionReport F) × Option (LedgerFile F))
    unfolding settle_pending
    settle file as_of = load starting_cash file >>= settle_pending file as_of
