-- ===== src/Execution/Broker/Settle.antt =====
-- The loop of `PaperExecutionBroker.settle` in src/stock_trading/execution/paper.py, and what the
-- method reports and writes.
use stock_traiding.Base.{
  ℕ, ◌≡◌, inl, inr, ◌⊎◌, true, false, Option, none, some, List, [], ◌∷◌, Float, ok, >>=-eq-ok,
  ok-injective, elem, All, Nodup, arith, Option-cases, List-cases, Bool-cases, ap, sym, ◌∙◌, subst,
  ltb, Datetime, ==_refl,
}
use stock_traiding.Base.Dict.{keys, has, has-eq-elem, dict_of-Nodup}
use stock_traiding.Base.Sort.{sorted, All-sorted, Nodup-sorted, lookup-sorted}
use stock_traiding.Engine.Contracts.{OrderIntent, ExecutionReport, execution_day}
use stock_traiding.Engine.Validation.{order_key, validate_settlements}
use stock_traiding.Engine.Validation.Outputs.{IsFinal, validate_settlements_iff}
use stock_traiding.Execution.Ledger.{PaperLedgerState, LedgerFile, order_before, load}
use stock_traiding.Execution.Fill.{Filled}
use stock_traiding.Execution.Fill.Contract.{IsOutcome}
use stock_traiding.Execution.Broker.{
  Book, FillFunction, open_book, settled, settle_order, settle_each, settle_all, settle_pending,
  settle, commit,
}
use stock_traiding.Execution.Broker.Soundness.{IsFill, IsLoaded, load-IsLoaded, open_book-IsSound}
use stock_traiding.Execution.Broker.Rounds.{Keeps-refl}
use stock_traiding.Execution.Broker.Durability.{
  IsWritten, commit-IsWritten, commit-eq-ok, Extends-refl,
}
use stock_traiding.Execution.Broker.Settlement.{
  IsSettlement, IsReady, IsSettled, settled-IsReady, skip-IsSettled, cons-IsSettled,
}

all_has :
    {V : Type 0} (key : V → ℕ) (d xs : List V)
    → ((x : ℕ) → elem x (keys key xs) ≡ true → elem x (keys key d) ≡ true)
    → All (λ x. has key (key x) d ≡ true) xs
all_has key d [] h = tt
all_has key d (x ∷ xs) h = (
  has-eq-elem key (key x) d ∙ h (key x) (ground (arith, ==_refl (key x))),
  all_has key d xs (λ y m. h y (ground arith)),
)

module _ {F : Type 0} ⦃fl : Float F⦄ where
  open_book-IsReady :
      (s : PaperLedgerState F)
      → IsLoaded s
      → IsReady (open_book s) (sorted order_before s.pending_orders)
  unfolding open_book
  open_book-IsReady s l = record {
    sound = open_book-IsSound s l;
    ids = Nodup-sorted order_before order_key s.pending_orders l.pending_ids;
    queued = All-sorted order_before _ s.pending_orders (
        rw (dict_of-Nodup order_key s.pending_orders l.pending_ids)
          (all_has order_key s.pending_orders s.pending_orders (λ x m. m)));
  }

  unsorted_settlements :
      (as_of : Datetime) (os : List (OrderIntent F)) (rs : List (ExecutionReport F))
      → Nodup (keys order_key os)
      → All (IsSettlement as_of (sorted order_before os)) rs
      → All (IsSettlement as_of os) rs
  unsorted_settlements as_of os [] n a = tt
  unsorted_settlements as_of os (r ∷ rs) n a = (
    record {
      order = a.0.order;
      listed = sym (lookup-sorted order_before order_key r.order_id os n) ∙ a.0.listed;
      due = a.0.due;
      final = a.0.final;
    },
    unsorted_settlements as_of os rs n a.1,
  )

  finals_of :
      (as_of : Datetime) (os : List (OrderIntent F)) (rs : List (ExecutionReport F))
      → All (IsSettlement as_of os) rs
      → All IsFinal rs
  finals_of as_of os [] a = tt
  finals_of as_of os (r ∷ rs) a = (a.0.final, finals_of as_of os rs a.1)

  module _ (starting_cash : F) (fill : FillFunction F) (law : IsFill fill) where
    -- An order stays, or it is due and its fill has a result.
    settle_order-cases :
        (as_of : Datetime) (b : Book F) (o : OrderIntent F)
        (step : Option (Book F × ExecutionReport F))
        → settle_order starting_cash fill as_of b o ≡ ok step
        → (step ≡ none)
          ⊎ ((done : Filled F) × (step ≡ some (settled b o done, done.1))
              × (ltb as_of.date (execution_day o) ≡ false)
              × IsOutcome o b.positions done)
    unfolding settle_order
    settle_order-cases as_of b o step h = elim (Bool-cases (ltb as_of.date (execution_day o))) [
      | inl early ↦ inl (sym (ok-injective (rw early at h)))
      | inr due ↦
          let (outcome, e, k) = >>=-eq-ok (fill o as_of b.cash b.positions) _ (rw due at h) in
          elim (Option-cases outcome) [
            | inl none_yet ↦ inl (sym (ok-injective (rw none_yet at k)))
            | inr (done, filled_now) ↦ inr (
              done,
              sym (ok-injective (rw filled_now at k)),
              due,
              law.outcome o as_of b.cash b.positions done (e ∙ ap ok filled_now),
            )
          ]
    ]

    settle_each-IsSettled :
        (as_of : Datetime) (b : Book F) (os : List (OrderIntent F)) (c : Book F)
        (rs : List (ExecutionReport F))
        → IsReady b os
        → settle_each starting_cash fill as_of b os ≡ ok (c, rs)
        → IsSettled as_of b os c rs
    unfolding settle_each
    settle_each-IsSettled as_of b [] c rs ready h =
        subst (λ (p : Book F × List (ExecutionReport F)). IsSettled as_of b [] p.0 p.1)
          (ok-injective h)
          (record { sound = ready.sound; keeps = Keeps-refl b; settlements = tt; distinct = tt })
    settle_each-IsSettled as_of b (o ∷ os) c rs ready h =
        let (step, e, k) = >>=-eq-ok (settle_order starting_cash fill as_of b o) _ h in
        elim (settle_order-cases as_of b o step e) [
          | inl stays ↦ skip-IsSettled as_of b o os c rs ready (
              settle_each-IsSettled as_of b os c rs
                (record { sound = ready.sound; ids = ready.ids.1; queued = ready.queued.1 })
                (rw stays at k))
          | inr (done, goes, due, out) ↦
              let (rest, e', k') =
                >>=-eq-ok (settle_each starting_cash fill as_of (settled b o done) os) _
                  (rw goes at k) in
              subst (λ (p : Book F × List (ExecutionReport F)). IsSettled as_of b (o ∷ os) p.0 p.1)
                (ok-injective k')
                (cons-IsSettled as_of b o os done rest.0 rest.1 due ready out (
                  settle_each-IsSettled as_of (settled b o done) os rest.0 rest.1
                    (settled-IsReady b o os done ready out) e'))
        ]

    -- The whole method: nothing is queued and nothing changes, or the loop has run.
    settle-cases :
        (file : Option (LedgerFile F)) (s : PaperLedgerState F) (as_of : Datetime)
        (rs : List (ExecutionReport F)) (file' : Option (LedgerFile F))
        → load starting_cash file ≡ ok s
        → settle starting_cash fill file as_of ≡ ok (rs, file')
        → ((rs ≡ []) × (file' ≡ file))
          ⊎ ((c : Book F) × IsSettled as_of
                (open_book s)
                (sorted order_before s.pending_orders)
                c
                rs
              × (commit c rs ≡ ok (rs, file')))
    unfolding settle settle_pending
    settle-cases file s as_of rs file' loads h = elim (List-cases s.pending_orders) [
      | inl idle ↦
          let same = ok-injective (rw (loads, idle, settle_pending) at h) in
          inl (ap (λ p. p.0) (sym same), ap (λ p. p.1) (sym same))
      | inr (o, os, busy) ↦
          let k : settle_all starting_cash fill as_of s ≡ ok (rs, file') =
            rw (loads, busy, settle_pending) at h in
          let (done, e, c) =
            >>=-eq-ok
              (settle_each starting_cash fill as_of (open_book s)
                (sorted order_before s.pending_orders))
              _ k in
          let (_, reported, _, _) = commit-eq-ok done.0 done.1 rs file' c in
          let run =
            settle_each-IsSettled as_of (open_book s) (sorted order_before s.pending_orders) done.0
              done.1 (open_book-IsReady s (load-IsLoaded starting_cash file s loads)) e in
          inr (
            done.0,
            subst (IsSettled as_of (open_book s) _ done.0) reported run,
            subst (λ xs. commit done.0 xs ≡ ok (rs, file')) reported c,
          )
    ]

    -- With a fill that meets the broker's contract and a file that loads: a settlement that returns
    -- reports only on orders of the ledger's queue that are due, each
    -- once and each with a final report, so the engine's check of settlements accepts it.
    pub settle_reports :
        (file : Option (LedgerFile F)) (s : PaperLedgerState F) (as_of : Datetime)
        (rs : List (ExecutionReport F)) (file' : Option (LedgerFile F))
        → load starting_cash file ≡ ok s
        → settle starting_cash fill file as_of ≡ ok (rs, file')
        → All (IsSettlement as_of s.pending_orders) rs × (validate_settlements rs ≡ ok tt)
    settle_reports file s as_of rs file' loads h =
        let l = load-IsLoaded starting_cash file s loads in
        elim (settle-cases file s as_of rs file' loads h) [
          | inl (idle, _) ↦
              subst
                (λ xs.
                  All (IsSettlement as_of s.pending_orders) xs × (validate_settlements xs ≡ ok tt))
                (sym idle) (tt, (validate_settlements_iff []).1 (tt, tt))
          | inr (c, run, _) ↦ (
            unsorted_settlements as_of s.pending_orders rs l.pending_ids run.settlements,
            (validate_settlements_iff rs).1 (
              run.distinct,
              finals_of as_of (sorted order_before s.pending_orders) rs run.settlements,
            ),
          )
        ]

    -- With a fill that meets the broker's contract and a file that loads: after a settlement that
    -- returns, the ledger file loads again; every earlier report is in it
    -- unchanged, every identity that was queued or reported still is one of the two, and if no
    -- company had two positions, none has.
    pub settle-IsWritten :
        (file : Option (LedgerFile F)) (s : PaperLedgerState F) (as_of : Datetime)
        (rs : List (ExecutionReport F)) (file' : Option (LedgerFile F))
        → load starting_cash file ≡ ok s
        → settle starting_cash fill file as_of ≡ ok (rs, file')
        → IsWritten starting_cash s file'
    settle-IsWritten file s as_of rs file' loads h =
        elim (settle-cases file s as_of rs file' loads h) [
          | inl (_, same) ↦ record {
            state = s;
            loads = ap (load starting_cash) same ∙ loads;
            extends = Extends-refl s;
          }
          | inr (c, run, k) ↦
              commit-IsWritten starting_cash s c rs rs file'
                (load-IsLoaded starting_cash file s loads) run.sound run.keeps k
        ]
