-- ===== src/Execution/Broker/Run.antt =====
-- The loop of `execute` in src/stock_trading/execution/paper.py, round after round.
use stock_traiding.Base.{
  ◌≡◌, refl, List, [], ◌∷◌, map, Float, ok, >>=-eq-ok, ok-injective, All, arith, subst, ap₂,
}
use stock_traiding.Engine.Contracts.{OrderIntent, ExecutionReport}
use stock_traiding.Engine.Validation.{order_key, report_key}
use stock_traiding.Execution.Broker.{Book, FillFunction, execute_order, execute_each}
use stock_traiding.Execution.Broker.Soundness.{IsFill, OrderChecked, IsSound}
use stock_traiding.Execution.Broker.Rounds.{
  Booked, Keeps, Keeps-refl, Keeps-trans, IsAnswer, IsRound, execute_order-IsRound,
}

module _ {F : Type 0} ⦃fl : Float F⦄ where
  -- All rounds: the reports are about the orders, one for each and in their order, and every
  -- order ends up in the account.
  pub record IsRun (b : Book F) (os : List (OrderIntent F)) (c : Book F)
      (rs : List (ExecutionReport F)) : Type 0 where
    pub sound : IsSound b → All OrderChecked os → IsSound c
    pub keeps : Keeps b c
    pub about : map report_key rs ≡ map order_key os
    pub booked : All (λ o. Booked c o.order_id) os

  All-Booked :
      {b c : Book F} (os : List (OrderIntent F))
      → Keeps b c
      → All (λ o. Booked b o.order_id) os
      → All (λ o. Booked c o.order_id) os
  All-Booked [] k a = tt
  All-Booked (o ∷ os) k a = (k.booked o.order_id a.0, All-Booked os k a.1)

  Booked-of_answer :
      (o : OrderIntent F) (c : Book F) (r : ExecutionReport F)
      → IsAnswer o c r
      → Booked c o.order_id
  Booked-of_answer o c r a = ground (arith, a.stands)

  cons-IsRun :
      (b : Book F) (o : OrderIntent F) (c : Book F) (r : ExecutionReport F)
      (os : List (OrderIntent F)) (d : Book F) (rs : List (ExecutionReport F))
      → IsRound b o c r
      → IsRun c os d rs
      → IsRun b (o ∷ os) d (r ∷ rs)
  cons-IsRun b o c r os d rs first rest = record {
    sound = λ s checked. rest.sound (first.sound s checked.0) checked.1;
    keeps = Keeps-trans first.keeps rest.keeps;
    about = ap₂ ◌∷◌ first.answer.about rest.about;
    booked = (rest.keeps.booked o.order_id (Booked-of_answer o c r first.answer), rest.booked);
  }

  module _ (starting_cash : F) (fill : FillFunction F) (law : IsFill fill) where
    pub execute_each-IsRun :
        (b : Book F) (os : List (OrderIntent F)) (c : Book F) (rs : List (ExecutionReport F))
        → execute_each starting_cash fill b os ≡ ok (c, rs)
        → IsRun b os c rs
    unfolding execute_each
    execute_each-IsRun b [] c rs h =
        subst (λ (p : Book F × List (ExecutionReport F)). IsRun b [] p.0 p.1) (ok-injective h)
          (record { sound = λ s _. s; keeps = Keeps-refl b; about = refl; booked = tt })
    execute_each-IsRun b (o ∷ os) c rs h =
        let (step, e, k) = >>=-eq-ok (execute_order starting_cash fill b o) _ h in
        let (rest, e', k') = >>=-eq-ok (execute_each starting_cash fill step.0 os) _ k in
        subst (λ (p : Book F × List (ExecutionReport F)). IsRun b (o ∷ os) p.0 p.1)
          (ok-injective k')
          (cons-IsRun b o step.0 step.1 os rest.0 rest.1
            (execute_order-IsRound starting_cash fill law b o step.0 step.1 e)
            (execute_each-IsRun step.0 os rest.0 rest.1 e'))
