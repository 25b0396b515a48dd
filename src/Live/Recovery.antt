-- ===== src/Live/Recovery.antt =====
-- src/stock_trading/live/paper_order_recovery.py. An identity is taken without the white space around
-- it, which the check strips. The broker is given by the answer of its
-- `submitted_entry_orders`, which is absent when it has no such method.
pub mod Receipt
use stock_traiding.Base.{
  ℕ, Bool, true, false, not, ◌||◌, ◌&&◌, Option, none, some, List, map, Result, ok, raise,
  value_error, type_error, runtime_error, raise_if, ◌>>◌, ◌>>=◌, ltb, ◌==◌, select, any, elem,
  to_set,
}
use stock_traiding.Base.Sort.{sorted}
use stock_traiding.Engine.Contracts.{
  Identity, FeatureValue, float, int, str, bool, null, OrderIntent, is_buy, metadata_get,
}
use stock_traiding.Engine.Validation.{order_key}

module _ {F : Type 0} where
  abbrev pub is_batch : Identity → FeatureValue F → Bool
  is_batch batch (str id) = id == batch
  is_batch batch (float x) = false
  is_batch batch (int n) = false
  is_batch batch (bool b) = false
  is_batch batch null = false

  abbrev pub is_champion_entry : Identity → Identity → OrderIntent F → Bool
  is_champion_entry batch champion o =
      is_buy o.side
      && o.strategy_id == champion
      && is_batch batch (metadata_get "runtime_batch_id" o.metadata)

  -- The identities of `durable_orders`
  abbrev pub durable_ids : Identity → Identity → List (OrderIntent F) → List Identity
  durable_ids batch champion journal =
      map order_key (select (is_champion_entry batch champion) journal)

  abbrev pub submitted : Option (Result (List (OrderIntent F))) → Result (List (OrderIntent F))
  submitted none = raise (type_error "PAPER broker does not expose submitted entry order journal")
  submitted (some journal) = journal

  unfoldable pub receipt_champion_entry_order_ids :
      Identity
      → Identity
      → List (OrderIntent F)
      → Option (Result (List (OrderIntent F)))
      → Result (List Identity)
  unfolding to_set
  receipt_champion_entry_order_ids batch champion emitted broker = do
    raise_if (batch == 0 || champion == 0)
        (value_error "batch and champion strategy identity must not be empty")
    journal ← submitted broker
    raise_if
        (any (λ id. not (elem id (durable_ids batch champion journal))) (map order_key emitted))
        (runtime_error "champion entry orders are missing from durable submitted PAPER journal: ")
    ok (sorted ltb (to_set (durable_ids batch champion journal)))
