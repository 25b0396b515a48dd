-- ===== src/Engine/Registry/Consistent.antt =====
-- The state of the registry of src/stock_trading/engine/registry.py after each of its methods.
use stock_traiding.Base.{
  ℕ, ◌≡◌, refl, Bool, true, false, not, ◌&&◌, Option, none, some, List, map, Result, ok, raise,
  Nodup, elem, raise_if, >>=-eq-ok, >>-eq-ok, raise_if-eq-ok, ok-injective, subst, ◌∙◌, arith,
  Option-cases, Bool-cases, inl, inr, opt_eq, ◌==◌,
}
use stock_traiding.Base.Dict.{lookup, has, put, lookup-put, elem-put, Nodup-put}
use stock_traiding.Engine.Contracts.{Identity, retired, stage_eq}
use stock_traiding.Engine.Registry.{
  StrategyRecord, StrategyRegistrySnapshot, StrategyRegistry, record_key, is_champion, registered,
  updated, resolved, record_of, crowned, commit, register, update_record, set_champion,
}

module _ {F P : Type 0} (plugin_id : P → Identity) where
  -- A champion that is known and not retired, or none
  abbrev pub IsChampion : Option Identity → List (StrategyRecord F) → Type 0
  IsChampion none records = Unit
  IsChampion (some k) records =
      (r : StrategyRecord F) × (lookup record_key k records ≡ some r)
      × (stage_eq r.stage retired ≡ false)

  -- No identity has two records or two plugins, each loaded plugin has a record, and the champion
  -- is known and not retired.
  pub record IsConsistent (registry : StrategyRegistry F P) : Type 0 where
    pub records_once : Nodup (map record_key registry.records)
    pub plugins_once : Nodup (map plugin_id registry.strategies)
    pub loaded_known :
        (k : ℕ)
        → elem k (map plugin_id registry.strategies) ≡ true
        → elem k (map record_key registry.records) ≡ true
    pub champion : IsChampion registry.champion_id registry.records

  IsChampion-put :
      (champion : Option Identity) (r : StrategyRecord F) (records : List (StrategyRecord F))
      → (opt_eq champion (some r.strategy_id) && stage_eq r.stage retired) ≡ false
      → IsChampion champion records
      → IsChampion champion (put record_key r records)
  IsChampion-put none r records h c = tt
  IsChampion-put (some k) r records h c = elim (Bool-cases (k == r.strategy_id)) [
    | inl e ↦ (r, lookup-put record_key k r records ∙ rw e refl, ground arith)
    | inr e ↦ (c.0, lookup-put record_key k r records ∙ rw e c.1, c.2)
  ]

  registered-IsConsistent :
      (strategy : P) (resolved : Option (StrategyRecord F))
      (registry changed : StrategyRegistry F P)
      → IsConsistent registry
      → registered plugin_id strategy resolved registry ≡ ok changed
      → IsConsistent changed
  unfolding registered
  registered-IsConsistent strategy none registry changed c h = cc
  registered-IsConsistent strategy (some r) registry changed c h =
      let (e1, h1) = >>-eq-ok (raise_if (not (plugin_id strategy == r.strategy_id)) _) _ h in
      let (e2, h2) =
        >>-eq-ok
          (raise_if (is_champion plugin_id registry r.strategy_id && stage_eq r.stage retired) _) _
          h1 in
      let fresh = raise_if-eq-ok _ _ e2 in
      let same = raise_if-eq-ok _ _ e1 in
      subst IsConsistent (ok-injective h2) (record {
        records_once = Nodup-put record_key r registry.records c.records_once;
        plugins_once = Nodup-put plugin_id strategy registry.strategies c.plugins_once;
        loaded_known = λ k m.
            let known = c.loaded_known k in
            ground (
              arith,
              elem-put plugin_id k strategy registry.strategies,
              elem-put record_key k r registry.records,
              known,
            );
        champion = IsChampion-put registry.champion_id r registry.records fresh c.champion;
      })

  pub updated-IsConsistent :
      (r : StrategyRecord F) (registry changed : StrategyRegistry F P)
      → IsConsistent registry
      → updated plugin_id r registry ≡ ok changed
      → IsConsistent changed
  unfolding updated
  updated-IsConsistent r registry changed c h =
      let (e1, h1) =
        >>-eq-ok (raise_if (not (has record_key r.strategy_id registry.records)) _) _ h in
      let (e2, h2) =
        >>-eq-ok
          (raise_if (is_champion plugin_id registry r.strategy_id && stage_eq r.stage retired) _) _
          h1 in
      let fresh = raise_if-eq-ok _ _ e2 in
      subst IsConsistent (ok-injective h2) (record {
        records_once = Nodup-put record_key r registry.records c.records_once;
        plugins_once = c.plugins_once;
        loaded_known = λ k m.
            let known = c.loaded_known k m in
            ground (arith, elem-put record_key k r registry.records, known);
        champion = IsChampion-put registry.champion_id r registry.records fresh c.champion;
      })

  pub record_of-eq-ok :
      (k : Identity) (registry : StrategyRegistry F P) (r : StrategyRecord F)
      → record_of plugin_id k registry ≡ ok r
      → lookup record_key k registry.records ≡ some r
  unfolding record_of
  record_of-eq-ok k registry r h = elim (Option-cases (lookup record_key k registry.records)) [
    | inl e ↦ ground arith
    | inr (x, e) ↦ ground arith
  ]

  crowned-IsConsistent :
      (k : Identity) (registry changed : StrategyRegistry F P)
      → IsConsistent registry
      → crowned plugin_id k registry ≡ ok changed
      → IsConsistent changed
  unfolding crowned
  crowned-IsConsistent k registry changed c h =
      let (r, e, h0) = >>=-eq-ok (record_of plugin_id k registry) _ h in
      let (_, h1) = >>-eq-ok (raise_if (not (has plugin_id k registry.strategies)) _) _ h0 in
      let (e2, h2) = >>-eq-ok (raise_if (stage_eq r.stage retired) _) _ h1 in
      subst IsConsistent (ok-injective h2) (record {
        records_once = c.records_once;
        plugins_once = c.plugins_once;
        loaded_known = c.loaded_known;
        champion = (r, record_of-eq-ok k registry r e, raise_if-eq-ok _ _ e2);
      })

  module _ {Store : Type 0}
      (save : Option (StrategyRegistrySnapshot F → Store → Result (Unit {0}) × Store)) where
    pub commit-IsConsistent :
        (writes : Bool) (m : Result (StrategyRegistry F P)) (registry : StrategyRegistry F P)
        (store : Store)
        → IsConsistent registry
        → ((changed : StrategyRegistry F P) → m ≡ ok changed → IsConsistent changed)
        → IsConsistent (commit plugin_id save writes m registry store).1
    unfolding commit
    commit-IsConsistent writes (raise e) registry store c f = c
    commit-IsConsistent true (ok changed) registry store c f = f changed refl
    commit-IsConsistent false (ok changed) registry store c f = f changed refl

    -- The methods that change a consistent registry keep it consistent, also when they raise and when the
    -- metadata store raises after the assignments: no identity has two records or two plugins, each
    -- loaded plugin has a record, and the champion is known and not retired.
    pub methods-IsConsistent :
        (registry : StrategyRegistry F P) (store : Store)
        → IsConsistent registry
        → ((strategy : P) (supplied : Option (StrategyRecord F))
            → IsConsistent (register plugin_id save strategy supplied registry store).1)
          × ((r : StrategyRecord F)
              → IsConsistent (update_record plugin_id save r registry store).1)
          × ((k : Identity) → IsConsistent (set_champion plugin_id save k registry store).1)
    unfolding register update_record set_champion
    methods-IsConsistent registry store c = (
      λ strategy supplied.
          commit-IsConsistent (not (has record_key (plugin_id strategy) registry.records))
            (registered plugin_id strategy (resolved plugin_id strategy supplied registry) registry)
            registry store c (λ changed e. registered-IsConsistent strategy _ registry changed c e),
      λ r.
          commit-IsConsistent true (updated plugin_id r registry) registry store c
            (λ changed e. updated-IsConsistent r registry changed c e),
      λ k.
          commit-IsConsistent true (crowned plugin_id k registry) registry store c
            (λ changed e. crowned-IsConsistent k registry changed c e),
    )
