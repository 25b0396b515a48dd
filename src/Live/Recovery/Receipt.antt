-- ===== src/Live/Recovery/Receipt.antt =====
-- What a receipt of src/stock_trading/live/paper_order_recovery.py holds.
use stock_traiding.Base.{
  ◌≡◌, ◌∙◌, true, false, not, ◌||◌, Option, some, List, map, Result, ok, ok-injective, raise_if,
  raise_if-eq-ok, >>-eq-ok, >>=-eq-ok, ltb, ◌==◌, any, elem, to_set, subset_iff, subst, sym, ap,
  arith, eq_of_==, ==_refl, ◌↔◌, refl,
}
use mathlib.Core.List.{Memᴰ}
use stock_traiding.Base.Sort.{sorted}
use stock_traiding.Base.Every.{item_of_key, key_of_item}
use stock_traiding.Engine.Contracts.{
  Identity, OrderIntent, OrderSide, buy, sell, is_buy, FeatureValue, float, int, str, bool, null,
  metadata_get,
}
use stock_traiding.Engine.Validation.{order_key}
use stock_traiding.Backtest.Dates.{Ascending, sorted_set-Ascending, elem-sorted_set}
use stock_traiding.Live.Recovery.{
  is_batch, is_champion_entry, durable_ids, submitted, receipt_champion_entry_order_ids,
}

buys : (s : OrderSide) → is_buy s ≡ true → s ≡ buy
buys buy h = refl
buys sell h = cc

module _ {F : Type 0} (batch champion : Identity) where
  -- The order is one of the journal that buys for the champion and is tagged with the batch.
  pub record IsChampionEntry (journal : List (OrderIntent F)) (id : Identity) : Type 0 where
    pub order : OrderIntent F
    pub journalled : Memᴰ order journal
    pub identity : order.order_id ≡ id
    pub bought : order.side ≡ buy
    pub of_champion : order.strategy_id ≡ champion
    pub of_batch : metadata_get "runtime_batch_id" order.metadata ≡ str batch

  is_entry :
      (o : OrderIntent F)
      → o.side ≡ buy
      → o.strategy_id ≡ champion
      → metadata_get "runtime_batch_id" o.metadata ≡ str batch
      → is_champion_entry batch champion o ≡ true
  is_entry o bought of_champion of_batch =
      rw (bought, of_champion, of_batch) (ground (arith, ==_refl champion, ==_refl batch))

  of_batch_str : (v : FeatureValue F) → is_batch batch v ≡ true → v ≡ str batch
  of_batch_str (str id) h = ap str (eq_of_== id batch h)
  of_batch_str (float x) h = cc
  of_batch_str (int n) h = cc
  of_batch_str (bool b) h = cc
  of_batch_str null h = cc

  durable_ids_iff :
      (journal : List (OrderIntent F)) (id : Identity)
      → (elem id (durable_ids batch champion journal) ≡ true) ↔ IsChampionEntry journal id
  durable_ids_iff journal id = (
    λ m.
        let (o, there, same, passes) =
          item_of_key order_key (is_champion_entry batch champion) id journal m in
        record {
          order = o;
          journalled = there;
          identity = same;
          bought = buys o.side (ground arith);
          of_champion = eq_of_== o.strategy_id champion (ground arith);
          of_batch = of_batch_str (metadata_get "runtime_batch_id" o.metadata) (ground arith);
        },
    λ e.
        subst (λ x. elem x (durable_ids batch champion journal) ≡ true) e.identity
          (key_of_item order_key (is_champion_entry batch champion) e.order journal e.journalled
            (is_entry e.order e.bought e.of_champion e.of_batch)),
  )

  -- The receipt is sorted, and it holds just the champion's entries of the batch in the journal, with
  -- all that the engine emitted.
  pub record IsReceipt (emitted journal : List (OrderIntent F)) (ids : List Identity) : Type 0 where
    pub named : (batch == 0 || champion == 0) ≡ false
    pub ascending : Ascending ids
    pub exact : (id : Identity) → (elem id ids ≡ true) ↔ IsChampionEntry journal id
    pub complete : (id : Identity) → elem id (map order_key emitted) ≡ true → elem id ids ≡ true

  -- A receipt that is returned for a broker whose journal is read names the batch and the champion
  -- and is sorted without repetition. An identity is in it exactly when it is that of an order of
  -- the journal that buys, is of the champion's strategy and is tagged with the batch. All the orders
  -- that the engine emitted are in it.
  pub receipt_champion_entry_order_ids-IsReceipt :
      (emitted journal : List (OrderIntent F)) (ids : List Identity)
      → receipt_champion_entry_order_ids batch champion emitted (some (ok journal)) ≡ ok ids
      → IsReceipt emitted journal ids
  unfolding receipt_champion_entry_order_ids
  receipt_champion_entry_order_ids-IsReceipt emitted journal ids h =
      let durable = durable_ids batch champion journal in
      let (blank, rest) = >>-eq-ok (raise_if (batch == 0 || champion == 0) _) _ h in
      let (missing, last) =
        >>-eq-ok (raise_if (any (λ id. not (elem id durable)) (map order_key emitted)) _) _ rest in
      let same : sorted ltb (to_set durable) ≡ ids = ok-injective last in
      let exact = λ (id : Identity).
        subst (λ l. elem id l ≡ elem id durable) same (elem-sorted_set id durable) in
      record {
        named = raise_if-eq-ok _ _ blank;
        ascending = subst Ascending same (sorted_set-Ascending durable);
        exact = λ id. (
          λ m. (durable_ids_iff journal id).0 (sym (exact id) ∙ m),
          λ e. exact id ∙ (durable_ids_iff journal id).1 e,
        );
        complete = λ id m.
            exact id
            ∙ (subset_iff (map order_key emitted) durable).0 (raise_if-eq-ok _ _ missing) id m;
      }

  -- A retry that emits only some of the orders, or none, recovers the same receipt.
  pub receipt_retry :
      (emitted again : List (OrderIntent F)) (broker : Option (Result (List (OrderIntent F))))
      (ids : List Identity)
      → ((id : Identity)
          → elem id (map order_key again) ≡ true
          → elem id (map order_key emitted) ≡ true)
      → receipt_champion_entry_order_ids batch champion emitted broker ≡ ok ids
      → receipt_champion_entry_order_ids batch champion again broker ≡ ok ids
  unfolding receipt_champion_entry_order_ids
  receipt_retry emitted again broker ids fewer h =
      let (blank, rest) = >>-eq-ok (raise_if (batch == 0 || champion == 0) _) _ h in
      let (journal, read, later) = >>=-eq-ok (submitted broker) _ rest in
      let durable = durable_ids batch champion journal in
      let (missing, last) =
        >>-eq-ok (raise_if (any (λ id. not (elem id durable)) (map order_key emitted)) _) _ later in
      let named = raise_if-eq-ok _ _ blank in
      let held = (subset_iff (map order_key emitted) durable).0 (raise_if-eq-ok _ _ missing) in
      let none_missing =
        (subset_iff (map order_key again) durable).1 (λ id m. held id (fewer id m)) in
      rw (named, read, none_missing) last
