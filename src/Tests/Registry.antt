-- ===== src/Tests/Registry.antt =====
-- Runs of the strategy registry and its lifecycle (src/stock_trading/engine/registry.py and
-- lifecycle.py).
use stock_traiding.Base.{ℕ, ◌≡◌, refl, true, Option, none, some, [], ◌∷◌, Result, ok, pos, elem}
use stock_traiding.Engine.Contracts.{Identity, StrategyStage, shadow, paper, live}
use stock_traiding.Engine.Registry.{
  StrategyScorecard, StrategyRecord, StrategyRegistrySnapshot, ProfitabilityGate, StrategyRegistry,
  register, update_record, set_champion,
}
use stock_traiding.Engine.Registry.Consistent.{IsConsistent, methods-IsConsistent}
use stock_traiding.Engine.Lifecycle.{StrategyLifecyclePolicy, transition}
use stock_traiding.Engine.Lifecycle.Staged.{transition-IsKeeping}
use stock_traiding.Tests.Samples.{Fixed, fixed_point}

-- A strategy plugin is its identity.
abbrev plugin_id : ℕ → Identity
plugin_id p = p

abbrev record_in : ℕ → StrategyStage → StrategyRecord Fixed
record_in id stage = record {
  strategy_id = id;
  stage = stage;
  artifact_ref = some 88;
  scorecard = some (record {
    compounded_return = 200_000;
    profit_factor = 1_500_000;
    worst_realized_drawdown = 50_000;
    total_trades = pos 60;
    profitable_year_rate = 800_000;
    average_trade_alpha = none;
  });
  selection_score = some 1_000_000;
  notes = 0;
}

abbrev gate : ProfitabilityGate Fixed
gate = record {
  min_compounded_return = 0;
  min_profit_factor = 1_000_000;
  min_trades = pos 1;
  max_realized_drawdown = 100_000;
  min_profitable_year_rate = 0;
}

abbrev policy : StrategyLifecyclePolicy Fixed
policy = record {
  shadow_gate = gate;
  paper_gate = gate;
  live_gate = gate;
  require_artifact_for_paper = true;
  require_artifact_for_live = true;
}

abbrev registry : StrategyRegistry Fixed ℕ
registry = record {
  strategies = 1 ∷ 2 ∷ [];
  records = record_in 1 live ∷ record_in 2 shadow ∷ [];
  champion_id = some 1;
}

-- A store that keeps the last snapshot
abbrev Store : Type 0
Store = Option (StrategyRegistrySnapshot Fixed)

abbrev keep : Option (StrategyRegistrySnapshot Fixed → Store → Result (Unit {0}) × Store)
keep = some (λ snapshot s. (ok tt, some snapshot))

abbrev known_here : (k : ℕ) → elem k (1 ∷ 2 ∷ []) ≡ true → elem k (1 ∷ 2 ∷ []) ≡ true
known_here k m = m

registry-IsConsistent : IsConsistent plugin_id registry
registry-IsConsistent = record {
  records_once = (refl, (refl, tt));
  plugins_once = (refl, (refl, tt));
  loaded_known = known_here;
  champion = (record_in 1 live, refl, refl);
}

methods-IsConsistent_example :
    ((strategy : ℕ) (supplied : Option (StrategyRecord Fixed))
      → IsConsistent plugin_id (register plugin_id keep strategy supplied registry none).1)
    × ((r : StrategyRecord Fixed)
        → IsConsistent plugin_id (update_record plugin_id keep r registry none).1)
    × ((k : Identity) → IsConsistent plugin_id (set_champion plugin_id keep k registry none).1)
methods-IsConsistent_example =
    methods-IsConsistent plugin_id keep registry none registry-IsConsistent

moved : Result (StrategyRecord Fixed) × StrategyRegistry Fixed ℕ × Store
unfolding transition
moved = transition plugin_id keep policy 2 paper registry none

transition-IsKeeping_example :
    ((transition plugin_id keep policy 2 paper registry none).1.champion_id ≡ some 1)
    × (IsConsistent plugin_id registry
        → IsConsistent plugin_id (transition plugin_id keep policy 2 paper registry none).1)
transition-IsKeeping_example = transition-IsKeeping plugin_id keep policy 2 paper registry none
