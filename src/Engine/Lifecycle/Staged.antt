-- ===== src/Engine/Lifecycle/Staged.antt =====
-- What a stage change of src/stock_trading/engine/lifecycle.py may do.
use stock_traiding.Base.{
  ◌≡◌, refl, true, false, not, Option, Float, Result, ok, raise, raise_if, >>-eq-ok, ok-injective,
  sym, ap, Bool-cases, inl, inr, ◌&&◌,
}
use stock_traiding.Base.Dict.{has}
use stock_traiding.Engine.Contracts.{
  Identity, StrategyStage, development, shadow, paper, live, retired, stage_eq,
}
use stock_traiding.Engine.Registry.{
  StrategyRecord, StrategyRegistrySnapshot, StrategyRegistry, record_of, updated, update_record,
  commit, record_key, is_champion,
}
use stock_traiding.Engine.Registry.Consistent.{
  IsConsistent, commit-IsConsistent, updated-IsConsistent,
}
use stock_traiding.Engine.Lifecycle.{
  is_upgrade, StrategyLifecyclePolicy, gate_for, fails_gate, lacks_artifact, check_transition,
  with_stage, store_stage, if_passed, if_found, move, transition,
}

-- The stages that may follow one another: a strategy climbs one stage at a time, falls from live to
-- paper, and is retired from anywhere; nothing leaves `retired`.
pub data Step : StrategyStage → StrategyStage → Type 0 where
  to_shadow : Step development shadow
  to_paper : Step shadow paper
  to_live : Step paper live
  back_to_paper : Step live paper
  development_ends : Step development retired
  shadow_ends : Step shadow retired
  paper_ends : Step paper retired
  live_ends : Step live retired

module _ {F : Type 0} ⦃fl : Float F⦄ where
  -- A step that the policy lets pass: an upgrade meets the gate of its target, and has an artifact
  -- where the policy wants one.
  pub record IsPermitted (policy : StrategyLifecyclePolicy F) (r : StrategyRecord F)
      (target : StrategyStage) : Type 0 where
    pub step : Step r.stage target
    pub gated : is_upgrade r.stage target ≡ true → fails_gate (gate_for policy target) r ≡ false
    pub artifact :
        is_upgrade r.stage target ≡ true
        → ((stage_eq target paper && policy.require_artifact_for_paper && lacks_artifact r) ≡ false)
          × ((stage_eq target live && policy.require_artifact_for_live && lacks_artifact r) ≡ false)

  module _ {P Store : Type 0} (plugin_id : P → Identity)
      (save : Option (StrategyRegistrySnapshot F → Store → Result (Unit {0}) × Store)) where
    -- What `transition` has done when it has found `r` and returns a record: nothing, as the strategy was in the
    -- stage already, or a permitted step, with the record stored.
    pub data IsMoved (policy : StrategyLifecyclePolicy F) (target : StrategyStage)
        (registry after : StrategyRegistry F P) (r : StrategyRecord F)
        : StrategyRecord F → Type 0 where
      stays :
          stage_eq target r.stage ≡ true
          → after ≡ registry
          → IsMoved policy target registry after r r
      steps :
          IsPermitted policy r target
          → updated plugin_id (with_stage r target) registry ≡ ok after
          → IsMoved policy target registry after r (with_stage r target)

    commit_champion :
        (m : Result (StrategyRegistry F P)) (registry : StrategyRegistry F P) (store : Store)
        → ((changed : StrategyRegistry F P)
            → m ≡ ok changed
            → changed.champion_id ≡ registry.champion_id)
        → (commit plugin_id save true m registry store).1.champion_id ≡ registry.champion_id
    unfolding commit
    commit_champion (ok changed) registry store f = f changed refl
    commit_champion (raise e) registry store f = refl

    updated_champion :
        (r : StrategyRecord F) (registry changed : StrategyRegistry F P)
        → updated plugin_id r registry ≡ ok changed
        → changed.champion_id ≡ registry.champion_id
    unfolding updated
    updated_champion r registry changed h =
        let (_, h1) =
          >>-eq-ok (raise_if (not (has record_key r.strategy_id registry.records)) _) _ h in
        let (_, h2) =
          >>-eq-ok
            (raise_if (is_champion plugin_id registry r.strategy_id && stage_eq r.stage retired) _)
            _ h1 in
        sym (ap (λ x. x.champion_id) (ok-injective h2))

    -- The champion and the consistency of the registry, through a call
    abbrev IsKeeping : StrategyRegistry F P → StrategyRegistry F P → Type 0
    IsKeeping registry after =
        (after.champion_id ≡ registry.champion_id)
        × (IsConsistent plugin_id registry → IsConsistent plugin_id after)

    store_stage-IsKeeping :
        (r : StrategyRecord F) (registry : StrategyRegistry F P) (store : Store)
        → IsKeeping registry (store_stage plugin_id save r registry store).1
    unfolding store_stage update_record
    store_stage-IsKeeping r registry store = (
      commit_champion (updated plugin_id r registry) registry store
          (λ changed e. updated_champion r registry changed e),
      λ c.
          commit-IsConsistent plugin_id save true (updated plugin_id r registry) registry store c
            (λ changed e. updated-IsConsistent plugin_id r registry changed c e),
    )

    if_passed-IsKeeping :
        (r : StrategyRecord F) (m : Result (Unit {0})) (registry : StrategyRegistry F P)
        (store : Store)
        → IsKeeping registry (if_passed plugin_id save m r registry store).1
    unfolding if_passed
    if_passed-IsKeeping r (raise e) registry store = (refl, λ c. c)
    if_passed-IsKeeping r (ok u) registry store = store_stage-IsKeeping r registry store

    if_found-IsKeeping :
        (policy : StrategyLifecyclePolicy F) (target : StrategyStage)
        (m : Result (StrategyRecord F)) (registry : StrategyRegistry F P) (store : Store)
        → IsKeeping registry (if_found plugin_id save policy target m registry store).1
    unfolding if_found move
    if_found-IsKeeping policy target (raise e) registry store = (refl, λ c. c)
    if_found-IsKeeping policy target (ok r) registry store =
        elim (Bool-cases (stage_eq target r.stage)) [
          | inl e ↦ rw e (refl, λ c. c)
          | inr e ↦ rw e (
              if_passed-IsKeeping (with_stage r target) (check_transition policy r target) registry
                store)
        ]

    -- On every branch, errors of the metadata store included, a transition leaves the champion as it
    -- is and keeps a consistent registry consistent, so it never retires the champion.
    pub transition-IsKeeping :
        (policy : StrategyLifecyclePolicy F) (k : Identity) (target : StrategyStage)
        (registry : StrategyRegistry F P) (store : Store)
        → ((transition plugin_id save policy k target registry store).1.champion_id
            ≡ registry.champion_id)
          × (IsConsistent plugin_id registry
              → IsConsistent plugin_id (transition plugin_id save policy k target registry store).1)
    unfolding transition
    transition-IsKeeping policy k target registry store =
        if_found-IsKeeping policy target (record_of plugin_id k registry) registry store
