-- ===== src/Execution/Broker/Durability.antt =====
-- What `execute` of src/stock_trading/execution/paper.py leaves in the ledger file.
use stock_traiding.Base.{
  ℕ, ◌≡◌, true, false, raise_if, raise_if-eq-ok, ◌||◌, Option, some, List, [], ◌∷◌, map, Float, ok,
  >>=-eq-ok, >>-eq-ok, ok-injective, check_each_iff, All, Nodup, arith, ap, sym, ◌∙◌,
}
use stock_traiding.Base.Dict.{lookup, has, has-eq-elem, dict_of-Nodup}
use stock_traiding.Base.Sort.{sorted, All-sorted, elem-sorted, lookup-sorted}
use stock_traiding.Engine.Contracts.{OrderIntent, ExecutionReport, check_order, check_report}
use stock_traiding.Engine.Validation.{order_key, report_key}
use stock_traiding.Execution.Ledger.{
  PaperLedgerState, LedgerFile, company_key, order_before, report_before, check_paper_position,
  check_ledger, construct, load, payload, save, is_unencodable,
}
use stock_traiding.Execution.Broker.{
  Book, FillFunction, open_book, closed_state, commit, execute_each, execute,
}
use stock_traiding.Execution.Broker.Soundness.{
  IsFill, OrderChecked, ReportChecked, IsLoaded, IsSound, load-IsLoaded, open_book-IsSound,
}
use stock_traiding.Execution.Broker.Rounds.{Booked, Keeps}
use stock_traiding.Execution.Broker.Run.{execute_each-IsRun}

module _ {F : Type 0} ⦃fl : Float F⦄ where
  -- A sound account that passes the ledger's check is read back as it was written.
  pub load-payload :
      (starting_cash : F) (b : Book F)
      → IsSound b
      → check_ledger (closed_state b) ≡ ok tt
      → load starting_cash (payload (closed_state b)) ≡ ok (closed_state b)
  unfolding load payload construct closed_state
  load-payload starting_cash b s h = rw (
    (check_each_iff check_order (sorted order_before b.pending)).1
        (All-sorted order_before OrderChecked b.pending s.pending_checked),
    (check_each_iff check_order (sorted order_before b.submitted)).1
        (All-sorted order_before OrderChecked b.submitted s.submitted_checked),
    (check_each_iff check_paper_position _).1 s.positions_checked,
    (check_each_iff check_report _).1
        (All-sorted report_before ReportChecked b.completed s.reports_checked),
    h,
  )

  -- The identity is queued or has its report, in the ledger.
  abbrev pub IsBookedIn : PaperLedgerState F → ℕ → Type 0
  IsBookedIn s id =
      (has order_key id s.pending_orders || has report_key id s.completed_reports) ≡ true

  abbrev pub OnePerCompany : PaperLedgerState F → Type 0
  OnePerCompany s = Nodup (map company_key s.positions)

  -- What the ledger keeps from one state to the next.
  pub record Extends (s t : PaperLedgerState F) : Type 0 where
    pub reports :
        (id : ℕ) (r : ExecutionReport F)
        → lookup report_key id s.completed_reports ≡ some r
        → lookup report_key id t.completed_reports ≡ some r
    pub booked : (id : ℕ) → IsBookedIn s id → IsBookedIn t id
    pub companies : OnePerCompany s → OnePerCompany t

  pub Extends-refl : (s : PaperLedgerState F) → Extends s s
  Extends-refl s = record { reports = λ id r h. h; booked = λ id h. h; companies = λ n. n }

  Booked-closed : (b : Book F) (id : ℕ) → Booked b id → IsBookedIn (closed_state b) id
  unfolding closed_state
  Booked-closed b id h = ground (
    arith,
    has-eq-elem order_key id b.pending,
    has-eq-elem report_key id b.completed,
    has-eq-elem order_key id (sorted order_before b.pending),
    has-eq-elem report_key id (sorted report_before b.completed),
    elem-sorted order_before order_key id b.pending,
    elem-sorted report_before report_key id b.completed,
  )

  -- A loaded ledger extends to the one that is written, if the account in between is kept.
  pub closed-Extends :
      (s : PaperLedgerState F) (b : Book F)
      → IsLoaded s
      → IsSound b
      → Keeps (open_book s) b
      → Extends s (closed_state b)
  unfolding closed_state open_book
  closed-Extends s b l sound k = record {
    reports = λ id r h.
        lookup-sorted report_before report_key id b.completed sound.completed_ids
        ∙ k.reports id r (
            ap (lookup report_key id) (dict_of-Nodup report_key s.completed_reports l.completed_ids)
            ∙ h);
    booked = λ id h. Booked-closed b id (
        k.booked id (
          ground (
            arith,
            dict_of-Nodup report_key s.completed_reports l.completed_ids,
            dict_of-Nodup order_key s.pending_orders l.pending_ids,
          )));
    companies = λ n. k.companies n;
  }

  pub commit-eq-ok :
      (b : Book F) (reports rs : List (ExecutionReport F)) (file' : Option (LedgerFile F))
      → commit b reports ≡ ok (rs, file')
      → (check_ledger (closed_state b) ≡ ok tt)
        × (reports ≡ rs)
        × (payload (closed_state b) ≡ file')
        × (is_unencodable (closed_state b) ≡ false)
  unfolding commit save
  commit-eq-ok b reports rs file' h =
      let (checked, e) = >>-eq-ok (check_ledger (closed_state b)) _ h in
      let (file, saved, last) = >>=-eq-ok (save (closed_state b)) _ e in
      let (finite, made) = >>-eq-ok (raise_if (is_unencodable (closed_state b)) _) _ saved in
      let same = ok-injective last in
      (
        checked,
        ap (λ p. p.0) same,
        ok-injective made ∙ ap (λ p. p.1) same,
        raise_if-eq-ok _ _ finite,
      )

  -- What a method that returns has written, when it wrote: a ledger that loads, and that extends
  -- the one before.
  pub record IsWritten (starting_cash : F) (s : PaperLedgerState F) (file' : Option (LedgerFile F))
      : Type 0 where
    pub state : PaperLedgerState F
    pub loads : load starting_cash file' ≡ ok state
    pub extends : Extends s state

  pub commit-IsWritten :
      (starting_cash : F) (s : PaperLedgerState F) (b : Book F)
      (reports rs : List (ExecutionReport F)) (file' : Option (LedgerFile F))
      → IsLoaded s
      → IsSound b
      → Keeps (open_book s) b
      → commit b reports ≡ ok (rs, file')
      → IsWritten starting_cash s file'
  commit-IsWritten starting_cash s b reports rs file' l sound k h =
      let (checked, _, written, _) = commit-eq-ok b reports rs file' h in
      record {
        state = closed_state b;
        loads = ap (load starting_cash) (sym written) ∙ load-payload starting_cash b sound checked;
        extends = closed-Extends s b l sound k;
      }

  module _ (starting_cash : F) (fill : FillFunction F) (law : IsFill fill) where
    -- With a fill that meets the broker's contract: a call of `execute` that returns gives one report for each order, in the order of the orders.
    pub execute_reports :
        (file : Option (LedgerFile F)) (os : List (OrderIntent F)) (rs : List (ExecutionReport F))
        (file' : Option (LedgerFile F))
        → execute starting_cash fill file os ≡ ok (rs, file')
        → map report_key rs ≡ map order_key os
    unfolding execute
    execute_reports file [] rs file' h = ap (λ p. map report_key p.0) (sym (ok-injective h))
    execute_reports file (o ∷ os) rs file' h =
        let (s, _, k) = >>=-eq-ok (load starting_cash file) _ h in
        let (done, e, c) = >>=-eq-ok (execute_each starting_cash fill (open_book s) (o ∷ os)) _ k in
        let run =
          execute_each-IsRun starting_cash fill law (open_book s) (o ∷ os) done.0 done.1 e in
        ap (map report_key) (sym (commit-eq-ok done.0 done.1 rs file' c).1) ∙ run.about

    -- With a fill that meets the broker's contract, a file that loads and checked orders: after a
    -- call of `execute` that returns, the ledger file loads again; every earlier report is
    -- in it unchanged, every identity that was queued or reported still is, and if no company had
    -- two positions, none has.
    pub execute-IsWritten :
        (file : Option (LedgerFile F)) (s : PaperLedgerState F) (os : List (OrderIntent F))
        (rs : List (ExecutionReport F)) (file' : Option (LedgerFile F))
        → load starting_cash file ≡ ok s
        → All OrderChecked os
        → execute starting_cash fill file os ≡ ok (rs, file')
        → IsWritten starting_cash s file'
    unfolding execute
    execute-IsWritten file s [] rs file' loads checked h = record {
      state = s;
      loads = ap (λ p. load starting_cash p.1) (sym (ok-injective h)) ∙ loads;
      extends = Extends-refl s;
    }
    execute-IsWritten file s (o ∷ os) rs file' loads checked h =
        let l = load-IsLoaded starting_cash file s loads in
        let k = rw loads at h in
        let (done, e, c) = >>=-eq-ok (execute_each starting_cash fill (open_book s) (o ∷ os)) _ k in
        let run =
          execute_each-IsRun starting_cash fill law (open_book s) (o ∷ os) done.0 done.1 e in
        commit-IsWritten starting_cash s done.0 done.1 rs file' l
          (run.sound (open_book-IsSound s l) checked) run.keeps c
