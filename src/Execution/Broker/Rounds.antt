-- ===== src/Execution/Broker/Rounds.antt =====
-- One round of the loop of `execute` in src/stock_trading/execution/paper.py, and the whole loop.
use stock_traiding.Base.{
  ℕ, String, ◌≡◌, refl, inl, inr, true, false, ◌||◌, Option, none, some, map, Float, ok, >>=-eq-ok,
  >>-eq-ok, ok-injective, Nodup, arith, Option-cases, Bool-cases, ◌⊎◌, ap, sym, ◌∙◌, subst, ltb,
}
use stock_traiding.Base.Dict.{lookup, has, has-eq-elem, lookup-put, key_of_lookup}
use stock_traiding.Engine.Contracts.{OrderIntent, ExecutionReport, is_queued, execution_day}
use stock_traiding.Engine.Validation.{order_key, report_key}
use stock_traiding.Execution.Ledger.{company_key}
use stock_traiding.Execution.Fill.{Filled, queued_report}
use stock_traiding.Execution.Fill.Contract.{IsOutcome}
use stock_traiding.Execution.Broker.{
  Book, FillFunction, complete, enqueue, submit, validate_replayed_order, record_submission,
  fill_now, book_outcome, place, respond, execute_order,
}
use stock_traiding.Execution.Broker.Soundness.{
  IsFill, OrderChecked, IsSound, complete-IsSound, enqueue-IsSound, submit-IsSound,
}

module _ {F : Type 0} ⦃fl : Float F⦄ where
  -- The identity is queued or has its report.
  abbrev pub Booked : Book F → ℕ → Type 0
  Booked b id = (has order_key id b.pending || has report_key id b.completed) ≡ true

  -- What the account keeps when it goes from `b` to `c`.
  pub record Keeps (b c : Book F) : Type 0 where
    pub reports :
        (id : ℕ) (r : ExecutionReport F)
        → lookup report_key id b.completed ≡ some r
        → lookup report_key id c.completed ≡ some r
    pub booked : (id : ℕ) → Booked b id → Booked c id
    pub companies : Nodup (map company_key b.positions) → Nodup (map company_key c.positions)

  pub Keeps-refl : (b : Book F) → Keeps b b
  Keeps-refl b = record { reports = λ id r h. h; booked = λ id h. h; companies = λ n. n }

  pub Keeps-trans : {a b c : Book F} → Keeps a b → Keeps b c → Keeps a c
  Keeps-trans k l = record {
    reports = λ id r h. l.reports id r (k.reports id r h);
    booked = λ id h. l.booked id (k.booked id h);
    companies = λ n. l.companies (k.companies n);
  }

  -- The report is about the order, and says where the order stands.
  pub record IsAnswer (o : OrderIntent F) (c : Book F) (r : ExecutionReport F) : Type 0 where
    pub about : r.order_id ≡ o.order_id
    pub stands :
        (lookup report_key o.order_id c.completed ≡ some r)
        ⊎ ((is_queued r.status ≡ true) × (has order_key o.order_id c.pending ≡ true))

  pub record IsRound (b : Book F) (o : OrderIntent F) (c : Book F) (r : ExecutionReport F)
      : Type 0 where
    pub sound : IsSound b → OrderChecked o → IsSound c
    pub keeps : Keeps b c
    pub answer : IsAnswer o c r

  enqueue-IsRound :
      (b : Book F) (o : OrderIntent F) (m : String)
      → lookup report_key o.order_id b.completed ≡ none
      → IsRound b o (enqueue b o) (queued_report o o.created_at m)
  unfolding queued_report
  enqueue-IsRound b o m new = record {
    sound = λ s c.
        enqueue-IsSound b o s c (rw (← has-eq-elem report_key o.order_id b.completed, new) refl);
    keeps = record {
      reports = λ id r h. h;
      booked = λ id h. ground (arith, lookup-put order_key id o b.pending);
      companies = λ n. n;
    };
    answer = record {
      about = refl;
      stands = inr (refl, ground (arith, lookup-put order_key o.order_id o b.pending));
    };
  }

  complete-IsRound :
      (b : Book F) (o : OrderIntent F) (done : Filled F)
      → lookup report_key o.order_id b.completed ≡ none
      → has order_key o.order_id b.pending ≡ false
      → IsOutcome o b.positions done
      → IsRound b o (complete b done) done.1
  complete-IsRound b o done new unqueued out = record {
    sound = λ s _.
        complete-IsSound b o done s out
          (sym (has-eq-elem order_key o.order_id b.pending) ∙ unqueued);
    keeps = record {
      reports =
          λ id r h. ground (arith, lookup-put report_key id done.1 b.completed, out.reports_order);
      booked = λ id h. ground (arith, lookup-put report_key id done.1 b.completed);
      companies = out.one_per_company;
    };
    answer = record {
      about = out.reports_order;
      stands =
          inl (
            ground (arith, lookup-put report_key o.order_id done.1 b.completed, out.reports_order));
    };
  }

  book_outcome-IsRound :
      (b : Book F) (o : OrderIntent F) (outcome : Option (Filled F))
      → lookup report_key o.order_id b.completed ≡ none
      → has order_key o.order_id b.pending ≡ false
      → ((done : Filled F) → outcome ≡ some done → IsOutcome o b.positions done)
      → IsRound b o (book_outcome b o outcome).0 (book_outcome b o outcome).1
  book_outcome-IsRound b o none new unqueued out =
      enqueue-IsRound b o "waiting for market price" new
  book_outcome-IsRound b o (some done) new unqueued out =
      complete-IsRound b o done new unqueued (out done refl)

  -- Queued and reported orders get their answer and leave the account alone.
  known-IsRound :
      (b : Book F) (o : OrderIntent F) (r : ExecutionReport F) → IsAnswer o b r → IsRound b o b r
  known-IsRound b o r a = record { sound = λ s _. s; keeps = Keeps-refl b; answer = a }

  record_submission-cases :
      (b : Book F) (o : OrderIntent F) (c : Book F)
      → record_submission b o ≡ ok c
      → (c ≡ b) ⊎ (c ≡ submit b o)
  unfolding record_submission
  record_submission-cases b o c h = elim (Option-cases (lookup order_key o.order_id b.submitted)) [
    | inl e ↦ inr (sym (ok-injective (rw (e, record_submission) at h)))
    | inr (previous, e) ↦ inl (
        sym (
          ok-injective (
            (>>-eq-ok (validate_replayed_order previous o) (ok b)
              (rw (e, record_submission) at h)).1)))
  ]

  submit-IsRound :
      (b : Book F) (o : OrderIntent F) (c : Book F) (r : ExecutionReport F)
      → IsRound (submit b o) o c r
      → IsRound b o c r
  submit-IsRound b o c r k = record {
    sound = λ s checked. k.sound (submit-IsSound b o s checked) checked;
    keeps = record {
      reports = λ id x h. k.keeps.reports id x h;
      booked = λ id h. k.keeps.booked id h;
      companies = λ n. k.keeps.companies n;
    };
    answer = k.answer;
  }

  module _ (starting_cash : F) (fill : FillFunction F) (law : IsFill fill) where
    fill_now-IsRound :
        (b : Book F) (o : OrderIntent F) (c : Book F) (r : ExecutionReport F)
        → lookup report_key o.order_id b.completed ≡ none
        → has order_key o.order_id b.pending ≡ false
        → fill_now starting_cash fill b o ≡ ok (c, r)
        → IsRound b o c r
    fill_now-IsRound b o c r new unqueued h =
        let (outcome, e, k) = >>=-eq-ok (fill o o.created_at b.cash b.positions) _ h in
        subst (λ (p : Book F × ExecutionReport F). IsRound b o p.0 p.1) (ok-injective k)
          (book_outcome-IsRound b o outcome new unqueued (λ done some_done.
            law.outcome o o.created_at b.cash b.positions done (e ∙ ap ok some_done)))

    place-IsRound :
        (b : Book F) (o : OrderIntent F) (c : Book F) (r : ExecutionReport F)
        → lookup report_key o.order_id b.completed ≡ none
        → has order_key o.order_id b.pending ≡ false
        → place starting_cash fill b o ≡ ok (c, r)
        → IsRound b o c r
    unfolding place
    place-IsRound b o c r new unqueued h =
        elim (Bool-cases (ltb o.created_at.date (execution_day o))) [
          | inl early ↦
              subst (λ (p : Book F × ExecutionReport F). IsRound b o p.0 p.1)
                (ok-injective (rw early at h))
                (enqueue-IsRound b o "waiting for execution date" new)
          | inr due ↦ fill_now-IsRound b o c r new unqueued (rw due at h)
        ]

    respond-IsRound :
        (b : Book F) (o : OrderIntent F) (c : Book F) (r : ExecutionReport F)
        → respond starting_cash fill b o ≡ ok (c, r)
        → IsRound b o c r
    unfolding respond queued_report
    respond-IsRound b o c r h = elim (Option-cases (lookup report_key o.order_id b.completed)) [
      | inr (previous, e) ↦
          subst (λ (p : Book F × ExecutionReport F). IsRound b o p.0 p.1)
            (ok-injective (rw (e, respond) at h))
            (known-IsRound b o previous (record {
              about = key_of_lookup report_key o.order_id b.completed e;
              stands = inl e;
            }))
      | inl new ↦ elim (Bool-cases (has order_key o.order_id b.pending)) [
        | inl queued_already ↦
            subst (λ (p : Book F × ExecutionReport F). IsRound b o p.0 p.1)
              (ok-injective (rw (new, respond, queued_already) at h))
              (known-IsRound b o (queued_report o o.created_at "already queued")
                (record { about = refl; stands = inr (refl, queued_already) }))
        | inr unqueued ↦ place-IsRound b o c r new unqueued (rw (new, respond, unqueued) at h)
      ]
    ]

    pub execute_order-IsRound :
        (b : Book F) (o : OrderIntent F) (c : Book F) (r : ExecutionReport F)
        → execute_order starting_cash fill b o ≡ ok (c, r)
        → IsRound b o c r
    unfolding execute_order
    execute_order-IsRound b o c r h =
        let (b', e, k) =
          >>=-eq-ok (record_submission b o) (λ b'. respond starting_cash fill b' o) h in
        elim (record_submission-cases b o b' e) [
          | inl same ↦ respond-IsRound b o c r (rw same at k)
          | inr new ↦ submit-IsRound b o c r (respond-IsRound (submit b o) o c r (rw new at k))
        ]
