-- ===== src/Execution/Broker/Soundness.antt =====
-- The invariant of the account while `execute` and `settle` of
-- src/stock_trading/execution/paper.py work on it, and what a loaded ledger gives.
use stock_traiding.Base.{
  ℕ, ◌≡◌, false, Option, none, some, List, [], ◌∷◌, Float, ok, >>-eq-ok, rethrow-eq-ok,
  ok-injective, Datetime, elem, All, All-append, Nodup, Apart, Apart-iff, has_duplicates_iff,
  check_each, check_each_iff, arith, subst, value_error,
}
use stock_traiding.Base.Dict.{
  keys, set_default, pop, has-eq-elem, elem-put, Nodup-put, All-put, dict_of-Nodup, elem-pop,
  Nodup-pop, All-pop, Nodup-append_one,
}
use stock_traiding.Engine.Contracts.{OrderIntent, ExecutionReport, check_order, check_report}
use stock_traiding.Engine.Validation.{order_key, report_key}
use stock_traiding.Execution.Ledger.{
  PaperPositionState, PaperLedgerState, LedgerFile, check_paper_position, check_ledger, construct,
  load, starting_state, decoded_state,
}
use stock_traiding.Execution.Fill.{Filled}
use stock_traiding.Execution.Fill.Contract.{IsChecked, IsOutcome}
use stock_traiding.Execution.Broker.{
  Book, FillFunction, default_all, open_book, complete, enqueue, submit,
}

module _ {F : Type 0} ⦃fl : Float F⦄ where
  -- A `_fill` whose results meet the contract.
  pub record IsFill (fill : FillFunction F) : Type 0 where
    pub outcome :
        (o : OrderIntent F) (at : Datetime) (cash : F) (ps : List (PaperPositionState F))
        (done : Filled F)
        → fill o at cash ps ≡ ok (some done)
        → IsOutcome o ps done

  abbrev pub OrderChecked : OrderIntent F → Type 0
  OrderChecked o = check_order o ≡ ok tt

  abbrev pub ReportChecked : ExecutionReport F → Type 0
  ReportChecked r = check_report r ≡ ok tt

  -- What a ledger that loads satisfies.
  pub record IsLoaded (s : PaperLedgerState F) : Type 0 where
    pub pending_ids : Nodup (keys order_key s.pending_orders)
    pub completed_ids : Nodup (keys report_key s.completed_reports)
    pub submitted_ids : Nodup (keys order_key s.submitted_orders)
    pub apart : Apart (keys order_key s.pending_orders) (keys report_key s.completed_reports)
    pub pending_checked : All OrderChecked s.pending_orders
    pub submitted_checked : All OrderChecked s.submitted_orders
    pub positions_checked : All IsChecked s.positions
    pub reports_checked : All ReportChecked s.completed_reports

  check_ledger-ids :
      (s : PaperLedgerState F)
      → check_ledger s ≡ ok tt
      → Nodup (keys order_key s.pending_orders)
        × Nodup (keys report_key s.completed_reports)
        × Nodup (keys order_key s.submitted_orders)
        × Apart (keys order_key s.pending_orders) (keys report_key s.completed_reports)
  unfolding check_ledger
  check_ledger-ids s h = (
    (has_duplicates_iff _).0 (ground arith),
    (has_duplicates_iff _).0 (ground arith),
    (has_duplicates_iff _).0 (ground arith),
    (Apart-iff _ _).0 (ground arith),
  )

  construct-IsLoaded : (s t : PaperLedgerState F) → construct s ≡ ok t → IsLoaded s × (s ≡ t)
  unfolding construct
  construct-IsLoaded s t h =
      let (c1, k1) = >>-eq-ok (check_each check_order s.pending_orders) _ h in
      let (c2, k2) = >>-eq-ok (check_each check_order s.submitted_orders) _ k1 in
      let (c3, k3) = >>-eq-ok (check_each check_paper_position s.positions) _ k2 in
      let (c4, k4) = >>-eq-ok (check_each check_report s.completed_reports) _ k3 in
      let (c5, k5) = >>-eq-ok (check_ledger s) _ k4 in
      let (pending, completed, submitted, apart) = check_ledger-ids s c5 in
      (
        record {
          pending_ids = pending;
          completed_ids = completed;
          submitted_ids = submitted;
          apart = apart;
          pending_checked = (check_each_iff check_order s.pending_orders).0 c1;
          submitted_checked = (check_each_iff check_order s.submitted_orders).0 c2;
          positions_checked = (check_each_iff check_paper_position s.positions).0 c3;
          reports_checked = (check_each_iff check_report s.completed_reports).0 c4;
        },
        ok-injective k5,
      )

  pub load-IsLoaded :
      (cash : F) (file : Option (LedgerFile F)) (s : PaperLedgerState F)
      → load cash file ≡ ok s
      → IsLoaded s
  unfolding load
  load-IsLoaded cash none s h =
      subst IsLoaded {x = starting_state cash}
        (ok-injective
          ((>>-eq-ok (check_ledger (starting_state cash)) (ok (starting_state cash)) h).1))
        (record {
          pending_ids = tt;
          completed_ids = tt;
          submitted_ids = tt;
          apart = λ x m. cc;
          pending_checked = tt;
          submitted_checked = tt;
          positions_checked = tt;
          reports_checked = tt;
        })
  load-IsLoaded cash (some f) s h =
      let (loaded, same) =
        construct-IsLoaded (decoded_state f) s
          (rethrow-eq-ok (value_error "invalid paper ledger") (construct (decoded_state f)) h) in
      subst IsLoaded same loaded

  -- The account in the middle of a method.
  pub record IsSound (b : Book F) : Type 0 where
    pub pending_ids : Nodup (keys order_key b.pending)
    pub completed_ids : Nodup (keys report_key b.completed)
    pub submitted_ids : Nodup (keys order_key b.submitted)
    pub apart : Apart (keys order_key b.pending) (keys report_key b.completed)
    pub pending_checked : All OrderChecked b.pending
    pub submitted_checked : All OrderChecked b.submitted
    pub positions_checked : All IsChecked b.positions
    pub reports_checked : All ReportChecked b.completed

  Nodup-default_all :
      (os d : List (OrderIntent F))
      → Nodup (keys order_key d)
      → Nodup (keys order_key (default_all os d))
  Nodup-default_all [] d n = n
  Nodup-default_all (o ∷ os) d n =
      Nodup-default_all os (set_default order_key o d)
        (ground (arith, Nodup-append_one order_key o d, has-eq-elem order_key o.order_id d))

  All-default_all :
      (os d : List (OrderIntent F))
      → All OrderChecked os
      → All OrderChecked d
      → All OrderChecked (default_all os d)
  All-default_all [] d a c = c
  All-default_all (o ∷ os) d a c =
      All-default_all os (set_default order_key o d) a.1
        (ground (arith, All-append OrderChecked d (o ∷ []) c))

  -- The methods begin with a sound account.
  pub open_book-IsSound : (s : PaperLedgerState F) → IsLoaded s → IsSound (open_book s)
  unfolding open_book
  open_book-IsSound s l =
      rw
        (
          dict_of-Nodup order_key s.pending_orders l.pending_ids,
          dict_of-Nodup report_key s.completed_reports l.completed_ids,
          dict_of-Nodup order_key s.submitted_orders l.submitted_ids,
        )
        (record {
          pending_ids = l.pending_ids;
          completed_ids = l.completed_ids;
          submitted_ids = Nodup-default_all s.pending_orders s.submitted_orders l.submitted_ids;
          apart = l.apart;
          pending_checked = l.pending_checked;
          submitted_checked =
              All-default_all s.pending_orders s.submitted_orders l.pending_checked
                l.submitted_checked;
          positions_checked = l.positions_checked;
          reports_checked = l.reports_checked;
        })

  pub complete-IsSound :
      (b : Book F) (o : OrderIntent F) (done : Filled F)
      → IsSound b
      → IsOutcome o b.positions done
      → elem o.order_id (keys order_key b.pending) ≡ false
      → IsSound (complete b done)
  complete-IsSound b o done s r fresh = record {
    pending_ids = s.pending_ids;
    completed_ids = Nodup-put report_key done.1 b.completed s.completed_ids;
    submitted_ids = s.submitted_ids;
    apart = λ x m.
        ground (arith, elem-put report_key x done.1 b.completed, s.apart x m, r.reports_order);
    pending_checked = s.pending_checked;
    submitted_checked = s.submitted_checked;
    positions_checked = r.positions_checked s.positions_checked;
    reports_checked =
        All-put report_key ReportChecked done.1 b.completed r.report_checked s.reports_checked;
  }

  pub enqueue-IsSound :
      (b : Book F) (o : OrderIntent F)
      → IsSound b
      → OrderChecked o
      → elem o.order_id (keys report_key b.completed) ≡ false
      → IsSound (enqueue b o)
  enqueue-IsSound b o s c fresh = record {
    pending_ids = Nodup-put order_key o b.pending s.pending_ids;
    completed_ids = s.completed_ids;
    submitted_ids = s.submitted_ids;
    apart = λ x m. ground (arith, elem-put order_key x o b.pending, s.apart x);
    pending_checked = All-put order_key OrderChecked o b.pending c s.pending_checked;
    submitted_checked = s.submitted_checked;
    positions_checked = s.positions_checked;
    reports_checked = s.reports_checked;
  }

  pub submit-IsSound :
      (b : Book F) (o : OrderIntent F) → IsSound b → OrderChecked o → IsSound (submit b o)
  submit-IsSound b o s c = record {
    pending_ids = s.pending_ids;
    completed_ids = s.completed_ids;
    submitted_ids = Nodup-put order_key o b.submitted s.submitted_ids;
    apart = s.apart;
    pending_checked = s.pending_checked;
    submitted_checked = All-put order_key OrderChecked o b.submitted c s.submitted_checked;
    positions_checked = s.positions_checked;
    reports_checked = s.reports_checked;
  }

  -- A settled order leaves the queue.
  pub unqueue-IsSound :
      (b : Book F) (id : ℕ)
      → IsSound b
      → IsSound (record b { pending = pop order_key id b.pending })
  unqueue-IsSound b id s = record {
    pending_ids = Nodup-pop order_key id b.pending s.pending_ids;
    completed_ids = s.completed_ids;
    submitted_ids = s.submitted_ids;
    apart = λ x m. ground (arith, elem-pop order_key x id b.pending s.pending_ids, s.apart x);
    pending_checked = All-pop order_key OrderChecked id b.pending s.pending_checked;
    submitted_checked = s.submitted_checked;
    positions_checked = s.positions_checked;
    reports_checked = s.reports_checked;
  }
