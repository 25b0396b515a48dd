-- ===== src/Execution/Broker/Settlement.antt =====
-- `PaperExecutionBroker.settle` in src/stock_trading/execution/paper.py, round after round, and
-- its effect on the ledger file.
use stock_traiding.Base.{
  ℕ, ◌≡◌, refl, true, false, none, some, List, [], ◌∷◌, map, Float, elem, All, Nodup, arith, ap,
  sym, ◌∙◌, ltb, Datetime,
}
use stock_traiding.Base.Dict.{keys, lookup, has, pop, has-eq-elem, lookup-put, elem-pop}
use stock_traiding.Engine.Contracts.{OrderIntent, ExecutionReport, execution_day}
use stock_traiding.Engine.Validation.{order_key, report_key}
use stock_traiding.Engine.Validation.Outputs.{IsFinal}
use stock_traiding.Execution.Fill.{Filled}
use stock_traiding.Execution.Fill.Contract.{IsOutcome}
use stock_traiding.Execution.Broker.{Book, settled}
use stock_traiding.Execution.Broker.Soundness.{IsSound, complete-IsSound, unqueue-IsSound}
use stock_traiding.Execution.Broker.Rounds.{Keeps, Keeps-trans}

module _ {F : Type 0} ⦃fl : Float F⦄ where
  -- The report is the final one on an order of the list that is due.
  pub record IsSettlement (as_of : Datetime) (os : List (OrderIntent F)) (r : ExecutionReport F)
      : Type 0 where
    pub order : OrderIntent F
    pub listed : lookup order_key r.order_id os ≡ some order
    pub due : ltb as_of.date (execution_day order) ≡ false
    pub final : IsFinal r

  -- The orders that the loop has still to visit are queued.
  pub record IsReady (b : Book F) (os : List (OrderIntent F)) : Type 0 where
    pub sound : IsSound b
    pub ids : Nodup (keys order_key os)
    pub queued : All (λ o. has order_key o.order_id b.pending ≡ true) os

  pub record IsSettled (as_of : Datetime) (b : Book F) (os : List (OrderIntent F)) (c : Book F)
      (rs : List (ExecutionReport F)) : Type 0 where
    pub sound : IsSound c
    pub keeps : Keeps b c
    pub settlements : All (IsSettlement as_of os) rs
    pub distinct : Nodup (map report_key rs)

  settled-Keeps :
      (b : Book F) (o : OrderIntent F) (done : Filled F)
      → IsSound b
      → IsOutcome o b.positions done
      → lookup report_key o.order_id b.completed ≡ none
      → Keeps b (settled b o done)
  settled-Keeps b o done s out new = record {
    reports =
        λ id r h. ground (arith, lookup-put report_key id done.1 b.completed, out.reports_order);
    booked = λ id h. ground (
      arith,
      out.reports_order,
      lookup-put report_key id done.1 b.completed,
      has-eq-elem order_key id b.pending,
      has-eq-elem order_key id (pop order_key o.order_id b.pending),
      elem-pop order_key id o.order_id b.pending s.pending_ids,
    );
    companies = out.one_per_company;
  }

  settled-IsSound :
      (b : Book F) (o : OrderIntent F) (done : Filled F)
      → IsSound b
      → IsOutcome o b.positions done
      → IsSound (settled b o done)
  settled-IsSound b o done s out =
      complete-IsSound (record b { pending = pop order_key o.order_id b.pending }) o done
        (unqueue-IsSound b o.order_id s) out
        (ground (arith, elem-pop order_key o.order_id o.order_id b.pending s.pending_ids))

  queued-pop :
      (b : Book F) (o : OrderIntent F) (os : List (OrderIntent F))
      → IsSound b
      → elem o.order_id (keys order_key os) ≡ false
      → All (λ q. has order_key q.order_id b.pending ≡ true) os
      → All (λ q. has order_key q.order_id (pop order_key o.order_id b.pending) ≡ true) os
  queued-pop b o [] s fresh a = tt
  queued-pop b o (q ∷ os) s fresh a = (
    ground (
      arith,
      has-eq-elem order_key q.order_id b.pending,
      has-eq-elem order_key q.order_id (pop order_key o.order_id b.pending),
      elem-pop order_key q.order_id o.order_id b.pending s.pending_ids,
    ),
    queued-pop b o os s (ground arith) a.1,
  )

  -- A queued order has no report.
  unreported :
      (b : Book F) (o : OrderIntent F)
      → IsSound b
      → has order_key o.order_id b.pending ≡ true
      → lookup report_key o.order_id b.completed ≡ none
  unreported b o s q =
      let out = s.apart o.order_id (sym (has-eq-elem order_key o.order_id b.pending) ∙ q) in
      ground (arith, has-eq-elem report_key o.order_id b.completed)

  pub settled-IsReady :
      (b : Book F) (o : OrderIntent F) (os : List (OrderIntent F)) (done : Filled F)
      → IsReady b (o ∷ os)
      → IsOutcome o b.positions done
      → IsReady (settled b o done) os
  settled-IsReady b o os done r out = record {
    sound = settled-IsSound b o done r.sound out;
    ids = r.ids.1;
    queued = queued-pop b o os r.sound r.ids.0 r.queued.1;
  }

  listed_later :
      (as_of : Datetime) (o : OrderIntent F) (os : List (OrderIntent F)) (r : ExecutionReport F)
      → elem o.order_id (keys order_key os) ≡ false
      → IsSettlement as_of os r
      → IsSettlement as_of (o ∷ os) r
  listed_later as_of o os r fresh s = record {
    order = s.order;
    listed = ground (arith, s.listed, has-eq-elem order_key r.order_id os);
    due = s.due;
    final = s.final;
  }

  all_listed_later :
      (as_of : Datetime) (o : OrderIntent F) (os : List (OrderIntent F))
      (rs : List (ExecutionReport F))
      → elem o.order_id (keys order_key os) ≡ false
      → All (IsSettlement as_of os) rs
      → All (IsSettlement as_of (o ∷ os)) rs
  all_listed_later as_of o os [] fresh a = tt
  all_listed_later as_of o os (r ∷ rs) fresh a =
      (listed_later as_of o os r fresh a.0, all_listed_later as_of o os rs fresh a.1)

  settled_elsewhere :
      (as_of : Datetime) (id : ℕ) (os : List (OrderIntent F)) (rs : List (ExecutionReport F))
      → elem id (keys order_key os) ≡ false
      → All (IsSettlement as_of os) rs
      → elem id (map report_key rs) ≡ false
  settled_elsewhere as_of id os [] fresh a = refl
  settled_elsewhere as_of id os (r ∷ rs) fresh a =
      let there = a.0.listed in
      ground
        (arith, settled_elsewhere as_of id os rs fresh a.1, has-eq-elem order_key r.order_id os)

  pub skip-IsSettled :
      (as_of : Datetime) (b : Book F) (o : OrderIntent F) (os : List (OrderIntent F)) (c : Book F)
      (rs : List (ExecutionReport F))
      → IsReady b (o ∷ os)
      → IsSettled as_of b os c rs
      → IsSettled as_of b (o ∷ os) c rs
  skip-IsSettled as_of b o os c rs r s = record {
    sound = s.sound;
    keeps = s.keeps;
    settlements = all_listed_later as_of o os rs r.ids.0 s.settlements;
    distinct = s.distinct;
  }

  pub cons-IsSettled :
      (as_of : Datetime) (b : Book F) (o : OrderIntent F) (os : List (OrderIntent F))
      (done : Filled F) (c : Book F) (rs : List (ExecutionReport F))
      → ltb as_of.date (execution_day o) ≡ false
      → IsReady b (o ∷ os)
      → IsOutcome o b.positions done
      → IsSettled as_of (settled b o done) os c rs
      → IsSettled as_of b (o ∷ os) c (done.1 ∷ rs)
  cons-IsSettled as_of b o os done c rs due r out s = record {
    sound = s.sound;
    keeps =
        Keeps-trans (settled-Keeps b o done r.sound out (unreported b o r.sound r.queued.0))
          s.keeps;
    settlements = (
      record {
        order = o;
        listed = ground (arith, out.reports_order);
        due = due;
        final = out.final;
      },
      all_listed_later as_of o os rs r.ids.0 s.settlements,
    );
    distinct = (
      settled_elsewhere as_of done.1.order_id os rs
          (ap (λ id. elem id (keys order_key os)) out.reports_order ∙ r.ids.0) s.settlements,
      s.distinct,
    );
  }
