-- ===== src/Execution/Broker/Journal.antt =====
-- The journal of submitted orders during `execute` of src/stock_trading/execution/paper.py.
use stock_traiding.Base.{
  ℕ, ◌≡◌, refl, inl, inr, ◌⊎◌, true, Option, none, some, List, [], ◌∷◌, Float, ok, >>=-eq-ok,
  >>-eq-ok, ok-injective, All, arith, Option-cases, ap, ◌∙◌, subst, opt_eq_iff, opt_int_eq, ℤ, pos,
  negsuc, ==_refl,
}
use stock_traiding.Base.Dict.{lookup, has, put, lookup-put}
use stock_traiding.Engine.Contracts.{OrderIntent, ExecutionReport, OrderSide, buy, sell, side_eq}
use stock_traiding.Engine.Validation.{order_key}
use stock_traiding.Execution.Broker.{
  Book, FillFunction, same_intent, validate_replayed_order, record_submission, place, respond,
  execute_order, execute_each,
}

opt_int_eq_refl : (h : Option ℤ) → opt_int_eq h h ≡ true
opt_int_eq_refl none = refl
opt_int_eq_refl (some (pos n)) = ==_refl n
opt_int_eq_refl (some (negsuc n)) = ==_refl n

side_eq_refl : (s : OrderSide) → side_eq s s ≡ true
side_eq_refl buy = refl
side_eq_refl sell = refl

module _ {F : Type 0} ⦃fl : Float F⦄ where
  -- `float == float` of the order's share; it fails for a NaN only.
  abbrev pub SelfEqual : OrderIntent F → Type 0
  SelfEqual o = fl.same o.allocation_pct o.allocation_pct ≡ true

  -- The journal has an entry of the order's identity with the same economic intent.
  pub record IsEntered (b : Book F) (o : OrderIntent F) : Type 0 where
    pub entry : OrderIntent F
    pub found : lookup order_key o.order_id b.submitted ≡ some entry
    pub intent : same_intent entry o ≡ true

  -- Every queued order is in the journal.
  abbrev pub Covered : Book F → Type 0
  Covered b = (id : ℕ) → has order_key id b.pending ≡ true → has order_key id b.submitted ≡ true

  same_intent_refl : (o : OrderIntent F) → SelfEqual o → same_intent o o ≡ true
  same_intent_refl o h = rw (
    ==_refl o.strategy_id,
    (opt_eq_iff o.candidate_id o.candidate_id).1 refl,
    (opt_eq_iff o.event_id o.event_id).1 refl,
    ==_refl o.company_id,
    ==_refl o.security_id,
    side_eq_refl o.side,
    h,
    opt_int_eq_refl o.horizon_sessions,
    (opt_eq_iff o.execute_on o.execute_on).1 refl,
  )

  -- What the journal keeps from `b` to `c`.
  pub record Journals (b c : Book F) : Type 0 where
    pub kept :
        (id : ℕ) (p : OrderIntent F)
        → lookup order_key id b.submitted ≡ some p
        → lookup order_key id c.submitted ≡ some p
    pub covered : Covered b → Covered c

  record_submission-Journals :
      (b : Book F) (o : OrderIntent F) (c : Book F)
      → SelfEqual o
      → record_submission b o ≡ ok c
      → Journals b c × IsEntered c o
  unfolding record_submission validate_replayed_order
  record_submission-Journals b o c self h =
      elim (Option-cases (lookup order_key o.order_id b.submitted)) [
        | inl new ↦
            subst (λ d. Journals b d × IsEntered d o)
              (ok-injective (rw (new, record_submission) at h))
              (
                record {
                  kept = λ id p e. ground (arith, lookup-put order_key id o b.submitted);
                  covered =
                      λ cov id q. ground (arith, lookup-put order_key id o b.submitted, cov id q);
                },
                record {
                  entry = o;
                  found = ground (arith, lookup-put order_key o.order_id o b.submitted);
                  intent = same_intent_refl o self;
                },
              )
        | inr (p, known) ↦
            let (valid, same) =
              >>-eq-ok (validate_replayed_order p o) (ok b) (rw (known, record_submission) at h) in
            subst (λ d. Journals b d × IsEntered d o) (ok-injective same)
              (
                record { kept = λ id q e. e; covered = λ cov. cov },
                record { entry = p; found = known; intent = ground arith },
              )
      ]

  module _ (starting_cash : F) (fill : FillFunction F) where
    respond_queue :
        (b : Book F) (o : OrderIntent F) (c : Book F) (r : ExecutionReport F)
        → respond starting_cash fill b o ≡ ok (c, r)
        → (c.submitted ≡ b.submitted)
          × ((c.pending ≡ b.pending) ⊎ (c.pending ≡ put order_key o b.pending))
    unfolding respond place
    respond_queue b o c r h = ground arith

    execute_order-Journals :
        (b : Book F) (o : OrderIntent F) (c : Book F) (r : ExecutionReport F)
        → SelfEqual o
        → execute_order starting_cash fill b o ≡ ok (c, r)
        → Journals b c × IsEntered c o
    unfolding execute_order
    execute_order-Journals b o c r self h =
        let (b', e, k) =
          >>=-eq-ok (record_submission b o) (λ b'. respond starting_cash fill b' o) h in
        let (first, entered) = record_submission-Journals b o b' self e in
        let (same, queue) = respond_queue b' o c r k in
        (
          record {
            kept = λ id p f. ap (lookup order_key id) same ∙ first.kept id p f;
            covered = λ cov id q.
                let before = first.covered cov id in
                ground (arith, lookup-put order_key id o b'.pending, entered.found);
          },
          record {
            entry = entered.entry;
            found = ap (lookup order_key o.order_id) same ∙ entered.found;
            intent = entered.intent;
          },
        )

    IsEntered-later :
        (b c : Book F) (o : OrderIntent F) → Journals b c → IsEntered b o → IsEntered c o
    IsEntered-later b c o j e = record {
      entry = e.entry;
      found = j.kept o.order_id e.entry e.found;
      intent = e.intent;
    }

    -- After the loop every order has its journal entry, and every queued order is in the journal.
    pub execute_each-Journals :
        (b : Book F) (os : List (OrderIntent F)) (c : Book F) (rs : List (ExecutionReport F))
        → All SelfEqual os
        → execute_each starting_cash fill b os ≡ ok (c, rs)
        → Journals b c × All (IsEntered c) os
    unfolding execute_each
    execute_each-Journals b [] c rs self h =
        let same = ap (λ p. p.0) (ok-injective h) in
        (subst (Journals b) same (record { kept = λ id p e. e; covered = λ cov. cov }), tt)
    execute_each-Journals b (o ∷ os) c rs self h =
        let (step, e, k) = >>=-eq-ok (execute_order starting_cash fill b o) _ h in
        let (rest, e', k') = >>=-eq-ok (execute_each starting_cash fill step.0 os) _ k in
        let same = ap (λ p. p.0) (ok-injective k') in
        let (first, entered) = execute_order-Journals b o step.0 step.1 self.0 e in
        let (later, others) = execute_each-Journals step.0 os rest.0 rest.1 self.1 e' in
        subst (λ d. Journals b d × All (IsEntered d) (o ∷ os)) same
          (
            record {
              kept = λ id p f. later.kept id p (first.kept id p f);
              covered = λ cov. later.covered (first.covered cov);
            },
            (IsEntered-later step.0 rest.0 o later entered, others),
          )
