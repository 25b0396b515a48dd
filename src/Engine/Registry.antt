-- ===== src/Engine/Registry.antt =====
-- src/stock_trading/engine/registry.py: the champion/challenger registry, its profitability gate
-- and its durable metadata. `P` is the type of strategy plugins, `Store` what the metadata store
-- keeps; the store's `save` is a function, absent where the registry has no store.
pub mod Consistent
use stock_traiding.Base.{
  ℕ, Bool, true, false, not, ◌&&◌, Option, none, some, List, [], ◌∷◌, map, Float, decimal, ◌≼◌, ◌≺◌,
  Result, ok, raise, raise_if, ◌>>=◌, ◌>>◌, value_error, key_error, runtime_error, ℤ, pos, int_le,
  if◌then◌else◌, opt_eq, is_some, ltb, ◌==◌, select, any,
}
use stock_traiding.Base.Dict.{lookup, has, put, dict_of}
use stock_traiding.Base.Sort.{sorted}
use stock_traiding.Engine.Contracts.{Identity, StrategyStage, retired, stage_eq}

pub record StrategyScorecard (F : Type 0) : Type 0 where
  pub compounded_return : F
  pub profit_factor : F
  pub worst_realized_drawdown : F
  pub total_trades : ℤ
  pub profitable_year_rate : F
  pub average_trade_alpha : Option F

pub record StrategyRecord (F : Type 0) : Type 0 where
  pub strategy_id : Identity
  pub stage : StrategyStage
  pub artifact_ref : Option Identity
  pub scorecard : Option (StrategyScorecard F)
  pub selection_score : Option F
  pub notes : Identity

pub record StrategyRegistrySnapshot (F : Type 0) : Type 0 where
  pub champion_id : Option Identity
  pub records : List (StrategyRecord F)

pub record ProfitabilityGate (F : Type 0) : Type 0 where
  pub min_compounded_return : F
  pub min_profit_factor : F
  pub min_trades : ℤ
  pub max_realized_drawdown : F
  pub min_profitable_year_rate : F

pub record StrategyRegistry (F P : Type 0) : Type 0 where
  pub strategies : List P
  pub records : List (StrategyRecord F)
  pub champion_id : Option Identity

abbrev pub record_key : {F : Type 0} → StrategyRecord F → Identity
record_key r = r.strategy_id

-- An optional identity other than the one given
abbrev is_other : Option Identity → Identity → Bool
is_other champion k = not (opt_eq champion (some k))

-- `stage in allowed`
abbrev pub has_stage : List StrategyStage → StrategyStage → Bool
has_stage stages s = any (stage_eq s) stages

module _ {F : Type 0} ⦃fl : Float F⦄ where
  unfoldable pub check_scorecard : StrategyScorecard F → Result (Unit {0})
  check_scorecard c = do
    raise_if (c.profit_factor ≺ decimal 0 0) (value_error "profit_factor must be >= 0")
    raise_if (c.worst_realized_drawdown ≺ decimal 0 0)
        (value_error "worst_realized_drawdown must be >= 0")
    raise_if (not (int_le (pos 0) c.total_trades)) (value_error "total_trades must be >= 0")
    raise_if (not (decimal 0 0 ≼ c.profitable_year_rate && c.profitable_year_rate ≼ decimal 1 0))
        (value_error "profitable_year_rate must be in [0, 1]")

  abbrev pub passes : ProfitabilityGate F → StrategyScorecard F → Bool
  passes gate c =
      gate.min_compounded_return ≺ c.compounded_return
      && gate.min_profit_factor ≼ c.profit_factor
      && int_le gate.min_trades c.total_trades
      && c.worst_realized_drawdown ≼ gate.max_realized_drawdown
      && gate.min_profitable_year_rate ≼ c.profitable_year_rate

  -- `ProfitabilityGate.eligible`
  unfoldable pub eligible : ProfitabilityGate F → StrategyRecord F → Bool
  eligible gate r = elim r.scorecard [
    | none ↦ false
    | some c ↦ if stage_eq r.stage retired then false else passes gate c
  ]

  -- `-inf` where there is no number
  abbrev pub return_below : Option F → Option F → Bool
  return_below none none = false
  return_below none (some y) = true
  return_below (some x) none = false
  return_below (some x) (some y) = x ≺ y

  abbrev pub return_same : Option F → Option F → Bool
  return_same none none = true
  return_same (some x) (some y) = fl.same x y
  return_same none (some y) = false
  return_same (some x) none = false

  abbrev compounded : StrategyRecord F → Option F
  compounded r = elim r.scorecard [ none ↦ none | some c ↦ some c.compounded_return ]

  -- The order of the keys (selection_score, compounded_return, strategy_id)
  unfoldable pub ranks_below : StrategyRecord F → StrategyRecord F → Bool
  ranks_below a b =
      if not (return_same a.selection_score b.selection_score)
      then return_below a.selection_score b.selection_score
      else if not (return_same (compounded a) (compounded b))
      then return_below (compounded a) (compounded b)
      else ltb a.strategy_id b.strategy_id

  -- Python's `max` with that key: the first of the greatest.
  unfoldable pub best_of : StrategyRecord F → List (StrategyRecord F) → StrategyRecord F
  best_of best [] = best
  best_of best (r ∷ rest) = best_of (if ranks_below best r then r else best) rest

  abbrev pub best : List (StrategyRecord F) → Option (StrategyRecord F)
  best [] = none
  best (r ∷ rest) = some (best_of r rest)

  unfoldable pub recommend_champion :
      {P : Type 0} → ProfitabilityGate F → StrategyRegistry F P → Option (StrategyRecord F)
  recommend_champion gate registry =
      best (select (λ r. eligible gate r && is_some r.selection_score) registry.records)

module _ {F P : Type 0} (plugin_id : P → Identity) where
  -- `__init__`, with what the metadata store has loaded
  unfoldable pub initial : Option (StrategyRegistrySnapshot F) → StrategyRegistry F P
  initial none = record { strategies = []; records = []; champion_id = none }
  initial (some snapshot) = record {
    strategies = [];
    records = dict_of record_key snapshot.records;
    champion_id = snapshot.champion_id;
  }

  abbrev pub is_champion : StrategyRegistry F P → Identity → Bool
  is_champion registry k = opt_eq registry.champion_id (some k)

  -- The assignments of `register`, before it persists
  unfoldable pub registered :
      P → Option (StrategyRecord F) → StrategyRegistry F P → Result (StrategyRegistry F P)
  registered strategy none registry =
      raise (value_error "no metadata supplied or persisted for strategy")
  registered strategy (some resolved) registry = do
    raise_if (not (plugin_id strategy == resolved.strategy_id))
        (value_error "strategy_id mismatch between plugin and record")
    raise_if (is_champion registry resolved.strategy_id && stage_eq resolved.stage retired)
        (value_error "persisted champion strategy is retired")
    ok (record {
      strategies = put plugin_id strategy registry.strategies;
      records = put record_key resolved registry.records;
      champion_id = registry.champion_id;
    })

  unfoldable pub updated : StrategyRecord F → StrategyRegistry F P → Result (StrategyRegistry F P)
  updated r registry = do
    raise_if (not (has record_key r.strategy_id registry.records)) (key_error "unknown strategy")
    raise_if (is_champion registry r.strategy_id && stage_eq r.stage retired)
        (value_error "champion strategy cannot be retired before replacement")
    ok (record {
      strategies = registry.strategies;
      records = put record_key r registry.records;
      champion_id = registry.champion_id;
    })

  -- `record`
  unfoldable pub record_of : Identity → StrategyRegistry F P → Result (StrategyRecord F)
  record_of k registry = elim (lookup record_key k registry.records) [
    | none ↦ raise (key_error "unknown strategy")
    | some r ↦ ok r
  ]

  unfoldable pub crowned : Identity → StrategyRegistry F P → Result (StrategyRegistry F P)
  unfolding record_of
  crowned k registry = do
    r ← record_of k registry
    raise_if (not (has plugin_id k registry.strategies))
        (runtime_error "champion strategy plugin must be loaded before promotion")
    raise_if (stage_eq r.stage retired) (value_error "retired strategy cannot be champion")
    ok (record {
      strategies = registry.strategies;
      records = registry.records;
      champion_id = some k;
    })

  unfoldable pub loaded_strategy : Identity → StrategyRegistry F P → Result P
  loaded_strategy k registry = do
    raise_if (not (has record_key k registry.records)) (key_error "unknown strategy")
    elim (lookup plugin_id k registry.strategies) [
      | none ↦ raise (runtime_error "strategy plugin is not loaded")
      | some strategy ↦ ok strategy
    ]

  unfoldable pub active : StrategyRegistry F P → Result P
  unfolding loaded_strategy
  active registry = elim registry.champion_id [
    | none ↦ raise (runtime_error "no champion strategy configured")
    | some k ↦ loaded_strategy k registry
  ]

  -- `records`: sorted by identity
  unfoldable pub sorted_records : StrategyRegistry F P → List (StrategyRecord F)
  sorted_records registry = sorted (λ a b. ltb (record_key a) (record_key b)) registry.records

  unfoldable pub challengers : StrategyRegistry F P → List (StrategyRecord F)
  unfolding sorted_records
  challengers registry =
      select (λ r. is_other registry.champion_id r.strategy_id && not (stage_eq r.stage retired))
        (sorted_records registry)

  -- The generator of `loaded_challenger_strategies` on the sorted plugins: reading the record of a
  -- plugin that has none raises.
  unfoldable pub challengers_from :
      List StrategyStage → StrategyRegistry F P → List P → Result (List P)
  challengers_from stages registry [] = ok []
  challengers_from stages registry (p ∷ rest) =
      let others = challengers_from stages registry rest in
      if is_other registry.champion_id (plugin_id p)
      then elim (lookup record_key (plugin_id p) registry.records) [
        | none ↦ raise (key_error "strategy_id")
        | some r ↦ if has_stage stages r.stage then (others >>= λ ps. ok (p ∷ ps)) else others
      ]
      else others

  unfoldable pub loaded_challenger_strategies :
      List StrategyStage → StrategyRegistry F P → Result (List P)
  unfolding challengers_from
  loaded_challenger_strategies stages registry =
      challengers_from stages registry
        (sorted (λ a b. ltb (plugin_id a) (plugin_id b)) registry.strategies)

  unfoldable pub snapshot : StrategyRegistry F P → StrategyRegistrySnapshot F
  unfolding sorted_records
  snapshot registry = record {
    champion_id = registry.champion_id;
    records = sorted_records registry;
  }

  -- `persisted or record`
  abbrev pub resolved :
      P → Option (StrategyRecord F) → StrategyRegistry F P → Option (StrategyRecord F)
  resolved strategy supplied registry =
      elim (lookup record_key (plugin_id strategy) registry.records) [
        | none ↦ supplied
        | some persisted ↦ some persisted
      ]

  module _ {Store : Type 0}
      (save : Option (StrategyRegistrySnapshot F → Store → Result (Unit {0}) × Store)) where
    -- `_persist`
    unfoldable pub persist : StrategyRegistry F P → Store → Result (Unit {0}) × Store
    unfolding snapshot
    persist registry store = elim save [
      | none ↦ (ok tt, store)
      | some run ↦ run (snapshot registry) store
    ]

    -- A method ends: with nothing changed when it raises, else with its assignments made, then
    -- persisted where it says so; they stay when the store raises.
    unfoldable pub commit :
        Bool
        → Result (StrategyRegistry F P)
        → StrategyRegistry F P
        → Store
        → Result (Unit {0}) × StrategyRegistry F P × Store
    unfolding persist
    commit writes (raise e) registry store = (raise e, registry, store)
    commit true (ok changed) registry store =
        let written = persist changed store in (written.0, changed, written.1)
    commit false (ok changed) registry store = (ok tt, changed, store)

    unfoldable pub register :
        P
        → Option (StrategyRecord F)
        → StrategyRegistry F P
        → Store
        → Result (Unit {0}) × StrategyRegistry F P × Store
    unfolding registered commit
    register strategy supplied registry store =
        commit (not (has record_key (plugin_id strategy) registry.records))
          (registered strategy (resolved strategy supplied registry) registry) registry store

    unfoldable pub update_record :
        StrategyRecord F
        → StrategyRegistry F P
        → Store
        → Result (Unit {0}) × StrategyRegistry F P × Store
    unfolding updated commit
    update_record r registry store = commit true (updated r registry) registry store

    unfoldable pub set_champion :
        Identity → StrategyRegistry F P → Store → Result (Unit {0}) × StrategyRegistry F P × Store
    unfolding crowned commit
    set_champion k registry store = commit true (crowned k registry) registry store
