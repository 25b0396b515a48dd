-- ===== src/Engine/Lifecycle.antt =====
-- src/stock_trading/engine/lifecycle.py: the staged promotion of strategies on the registry.
pub mod Staged
use stock_traiding.Base.{
  Bool, true, false, not, ◌&&◌, Option, none, some, List, [], ◌∷◌, Float, Result, ok, raise,
  raise_if, ◌>>=◌, ◌>>◌, value_error, if◌then◌else◌, ◌==◌,
}
use stock_traiding.Engine.Contracts.{
  Identity, StrategyStage, development, shadow, paper, live, retired, stage_eq,
}
use stock_traiding.Engine.Registry.{
  StrategyRecord, StrategyRegistrySnapshot, StrategyRegistry, ProfitabilityGate, eligible,
  has_stage, record_of, loaded_strategy, update_record, set_champion,
}

-- `_ALLOWED_TRANSITIONS`
unfoldable pub allowed_transitions : StrategyStage → List StrategyStage
allowed_transitions development = shadow ∷ retired ∷ []
allowed_transitions shadow = paper ∷ retired ∷ []
allowed_transitions paper = live ∷ retired ∷ []
allowed_transitions live = paper ∷ retired ∷ []
allowed_transitions retired = []

-- `(stage, target) in _UPGRADES`
unfoldable pub is_upgrade : StrategyStage → StrategyStage → Bool
is_upgrade development shadow = true
is_upgrade shadow paper = true
is_upgrade paper live = true
is_upgrade _ _ = false

pub record StrategyLifecyclePolicy (F : Type 0) : Type 0 where
  pub shadow_gate : ProfitabilityGate F
  pub paper_gate : ProfitabilityGate F
  pub live_gate : ProfitabilityGate F
  pub require_artifact_for_paper : Bool
  pub require_artifact_for_live : Bool

module _ {F : Type 0} ⦃fl : Float F⦄ where
  unfoldable pub gate_for : StrategyLifecyclePolicy F → StrategyStage → Option (ProfitabilityGate F)
  gate_for policy shadow = some policy.shadow_gate
  gate_for policy paper = some policy.paper_gate
  gate_for policy live = some policy.live_gate
  gate_for policy development = none
  gate_for policy retired = none

  abbrev pub fails_gate : Option (ProfitabilityGate F) → StrategyRecord F → Bool
  fails_gate none r = false
  fails_gate (some gate) r = not (eligible gate r)

  -- `not record.artifact_ref`: absent, or the empty string
  abbrev pub lacks_artifact : StrategyRecord F → Bool
  lacks_artifact r = elim r.artifact_ref [ none ↦ true | some k ↦ k == 0 ]

  -- The guards of an upgrade
  unfoldable pub check_upgrade :
      StrategyLifecyclePolicy F → StrategyRecord F → StrategyStage → Result (Unit {0})
  unfolding gate_for
  check_upgrade policy r target = do
    raise_if (fails_gate (gate_for policy target) r)
        (value_error "strategy does not satisfy profitability gate")
    raise_if (stage_eq target paper && policy.require_artifact_for_paper && lacks_artifact r)
        (value_error "paper promotion requires an immutable strategy artifact_ref")
    raise_if (stage_eq target live && policy.require_artifact_for_live && lacks_artifact r)
        (value_error "live promotion requires an immutable strategy artifact_ref")

  -- What `transition` checks before it changes the stage
  unfoldable pub check_transition :
      StrategyLifecyclePolicy F → StrategyRecord F → StrategyStage → Result (Unit {0})
  unfolding allowed_transitions is_upgrade check_upgrade
  check_transition policy r target = do
    raise_if (not (has_stage (allowed_transitions r.stage) target))
        (value_error "invalid strategy lifecycle transition")
    if is_upgrade r.stage target then check_upgrade policy r target else ok tt

  -- `replace(record, stage=target)`
  abbrev pub with_stage : StrategyRecord F → StrategyStage → StrategyRecord F
  with_stage r target = record {
    strategy_id = r.strategy_id;
    stage = target;
    artifact_ref = r.artifact_ref;
    scorecard = r.scorecard;
    selection_score = r.selection_score;
    notes = r.notes;
  }

  module _ {P Store : Type 0} (plugin_id : P → Identity)
      (save : Option (StrategyRegistrySnapshot F → Store → Result (Unit {0}) × Store)) where
    -- `self.registry.update_record(updated)`, and the record to return
    unfoldable pub store_stage :
        StrategyRecord F
        → StrategyRegistry F P
        → Store
        → Result (StrategyRecord F) × StrategyRegistry F P × Store
    store_stage r registry store =
        let stored = update_record plugin_id save r registry store in
        (stored.0 >> ok r, stored.1, stored.2)

    -- The change of the record, unless a check has raised
    unfoldable pub if_passed :
        Result (Unit {0})
        → StrategyRecord F
        → StrategyRegistry F P
        → Store
        → Result (StrategyRecord F) × StrategyRegistry F P × Store
    unfolding store_stage
    if_passed (raise e) r registry store = (raise e, registry, store)
    if_passed (ok _) r registry store = store_stage r registry store

    -- `transition`, once its record is found
    unfoldable pub move :
        StrategyLifecyclePolicy F
        → StrategyRecord F
        → StrategyStage
        → StrategyRegistry F P
        → Store
        → Result (StrategyRecord F) × StrategyRegistry F P × Store
    unfolding if_passed
    move policy r target registry store =
        if stage_eq target r.stage
        then (ok r, registry, store)
        else if_passed (check_transition policy r target) (with_stage r target) registry store

    unfoldable pub if_found :
        StrategyLifecyclePolicy F
        → StrategyStage
        → Result (StrategyRecord F)
        → StrategyRegistry F P
        → Store
        → Result (StrategyRecord F) × StrategyRegistry F P × Store
    unfolding move
    if_found policy target (raise e) registry store = (raise e, registry, store)
    if_found policy target (ok r) registry store = move policy r target registry store

    unfoldable pub transition :
        StrategyLifecyclePolicy F
        → Identity
        → StrategyStage
        → StrategyRegistry F P
        → Store
        → Result (StrategyRecord F) × StrategyRegistry F P × Store
    unfolding if_found
    transition policy k target registry store =
        if_found policy target (record_of plugin_id k registry) registry store

    -- The guards of `promote_champion`
    unfoldable pub check_promotion :
        Identity → StrategyStage → StrategyRegistry F P → Result (Unit {0})
    check_promotion k required_stage registry = do
      r ← record_of plugin_id k registry
      raise_if (not (stage_eq r.stage required_stage))
          (value_error "strategy must be in the required stage before champion promotion")
      strategy ← loaded_strategy plugin_id k registry
      ok tt

    unfoldable pub if_promotable :
        Result (Unit {0})
        → Identity
        → StrategyRegistry F P
        → Store
        → Result (Unit {0}) × StrategyRegistry F P × Store
    if_promotable (raise e) k registry store = (raise e, registry, store)
    if_promotable (ok _) k registry store = set_champion plugin_id save k registry store

    unfoldable pub promote_champion :
        Identity
        → StrategyStage
        → StrategyRegistry F P
        → Store
        → Result (Unit {0}) × StrategyRegistry F P × Store
    unfolding check_promotion if_promotable
    promote_champion k required_stage registry store =
        if_promotable (check_promotion k required_stage registry) k registry store
