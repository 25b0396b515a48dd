-- ===== src/Engine/Naming.antt =====
-- The texts that the program derives from identities: SHA-256 digests, prefixed identities and ISO
-- dates. SHA-256 and the string functions are not code of the repository, so they are functions
-- here; a property that needs distinct texts says so.
use stock_traiding.Base.{ℕ, Datetime}
use stock_traiding.Engine.Contracts.{Identity}

pub record Naming : Type 0 where
  -- `ord_` and the digest of `strategy|candidate|buy`
  pub entry_order_id : Identity → Identity → Identity
  -- `ord_` and the digest of `position|fixed-horizon-exit`
  pub exit_order_id : Identity → Identity
  -- `reserved_` and the order
  pub reserved_id : Identity → Identity
  -- `ppos_` and the digest of `paper|strategy|order|company`
  pub position_id : Identity → Identity → Identity → Identity
  pub iso_date : ℕ → Identity
  pub iso_datetime : Datetime → Identity
