-- ===== src/Engine/Runtime/Cycle.antt =====
-- A cycle of `TradingEngine` (src/stock_trading/engine/runtime.py) that returns its result.
use stock_traiding.Base.{◌≡◌, refl, map, Float, Result, ok, raise, Nodup, ap, Error}
use stock_traiding.Engine.Contracts.{PreparedEngineCycle, EngineCycleResult}
use stock_traiding.Engine.Naming.{Naming}
use stock_traiding.Engine.Validation.{order_key, report_key}
use stock_traiding.Engine.Validation.Outputs.{SameIdentities}
use stock_traiding.Engine.Runtime.{Action, and_then, Plugins, Decision, all_orders, cycle_result}
use stock_traiding.Engine.Runtime.Decided.{IsDecided}

pub raise_ne_ok : {A : Type 0} (e : Error) (a : A) → raise e ≡ ok a → ⊥
raise_ne_ok e a q = cc

-- Inversion of a sequence of calls that returns.
pub and_then-eq-ok :
    {S A B : Type 0} (m : Result A × S) (k : A → Action S B) {b : B} {s' : S}
    → and_then m k ≡ (ok b, s')
    → (a : A) × (m.0 ≡ ok a) × (k a m.1 ≡ (ok b, s'))
and_then-eq-ok (ok a, s) k h = (a, refl, h)
and_then-eq-ok (raise e, s) k {b} h = absurd (raise_ne_ok e b (ap (λ p. p.0) h))

module _ {F : Type 0} ⦃fl : Float F⦄ (naming : Naming) {S : Type 0} (plugins : Plugins F S) where
  -- What is known of a cycle by its result and the state it leaves
  pub record IsCompleted (prepared : PreparedEngineCycle F) (s : S) (result : EngineCycleResult F)
      (s' : S) : Type 0 where
    pub decision : Decision F
    pub decided : IsDecided naming prepared decision
    pub after : S
    pub executed :
        plugins.execute (all_orders naming plugins decision) s ≡ (ok result.executions, after)
    pub reported : Nodup (map report_key result.executions)
    pub identities :
        SameIdentities
          (map order_key (all_orders naming plugins decision))
          (map report_key result.executions)
    pub filled_in : result ≡ cycle_result naming plugins prepared decision result.executions
    pub observed : plugins.record_result result after ≡ (ok tt, s')
