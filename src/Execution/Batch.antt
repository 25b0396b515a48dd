-- ===== src/Execution/Batch.antt =====
-- `SessionBarPaperExecutionBroker.execute` of src/stock_trading/execution/session_paper.py, and the
-- batch commits of src/stock_trading/execution/paper_batch_commit.py. The commit directory is the
-- list of its files; `is_batch` says which identities start with `batch_`; `B` is what the
-- callback before the commit changes.
pub mod Committed
use stock_traiding.Base.{
  ℕ, Bool, true, false, not, ◌&&◌, Option, none, some, List, [], ◌∷◌, map, Float, Result, ok, raise,
  value_error, raise_if, rethrow, ◌>>=◌, ◌>>◌, Datetime, ltb, ◌==◌, has_duplicates,
}
use stock_traiding.Base.Dict.{lookup, put}
use stock_traiding.Base.Sort.{sorted}
use stock_traiding.Engine.Contracts.{
  Identity, FeatureValue, float, int, str, bool, null, metadata_get, metadata_put, OrderIntent,
  ExecutionReport, check_order,
}
use stock_traiding.Engine.Validation.{order_key}
use stock_traiding.Engine.Runtime.{Action, and_then}
use stock_traiding.Execution.Ledger.{LedgerFile, load}
use stock_traiding.Execution.Broker.{FillFunction, execute}

pub record PaperRuntimeBatchCommit : Type 0 where
  pub batch_id : Identity
  pub committed_at : Datetime
  pub submitted_order_ids : List Identity

-- A file `{batch_id}.json` and what it holds
pub record CommitFile : Type 0 where
  pub name : Identity
  pub commit : PaperRuntimeBatchCommit

abbrev pub file_name : CommitFile → Identity
file_name f = f.name

unfoldable pub check_commit : PaperRuntimeBatchCommit → Result (Unit {0})
check_commit c =
    raise_if (has_duplicates c.submitted_order_ids)
      (value_error "PAPER runtime batch commit contains duplicate order IDs")

-- Whether two tuples of identities are equal
abbrev pub ids_eq : List Identity → List Identity → Bool
ids_eq [] [] = true
ids_eq (x ∷ xs) (y ∷ ys) = x == y && ids_eq xs ys
ids_eq [] (y ∷ ys) = false
ids_eq (x ∷ xs) [] = false

-- `FilePaperRuntimeBatchCommitStore.load` of a file, whose construction is checked again
abbrev pub decoded_commit : Option CommitFile → Result (Option PaperRuntimeBatchCommit)
decoded_commit none = ok none
decoded_commit (some f) =
    rethrow (value_error "invalid PAPER runtime batch commit")
      (check_commit f.commit >> ok (some f.commit))

-- `write`, once the commit that the batch has is known
unfoldable pub write_new :
    PaperRuntimeBatchCommit
    → List CommitFile
    → Option PaperRuntimeBatchCommit
    → Result (List CommitFile)
write_new commit files none =
    ok (put file_name (record { name = commit.batch_id; commit = commit }) files)
write_new commit files (some existing) =
    raise_if (not (ids_eq existing.submitted_order_ids commit.submitted_order_ids))
      (value_error "PAPER runtime batch commit changed submitted order IDs")
    >> ok files

module _ (is_batch : Identity → Bool) where
  unfoldable pub load_commit : Identity → List CommitFile → Result (Option PaperRuntimeBatchCommit)
  unfolding check_commit
  load_commit id files = do
    raise_if (not (is_batch id)) (value_error "invalid PAPER runtime batch_id")
    decoded_commit (lookup file_name id files)

  unfoldable pub write_commit : PaperRuntimeBatchCommit → List CommitFile → Result (List CommitFile)
  unfolding load_commit write_new
  write_commit commit files = do
    raise_if (not (is_batch commit.batch_id)) (value_error "invalid PAPER runtime batch_id")
    existing ← load_commit commit.batch_id files
    write_new commit files existing

module _ {F : Type 0} where
  -- `value is not None and value != batch_id`
  abbrev pub is_other_batch : FeatureValue F → Identity → Bool
  is_other_batch null batch = false
  is_other_batch (str b) batch = not (b == batch)
  is_other_batch (float x) batch = true
  is_other_batch (int n) batch = true
  is_other_batch (bool b) batch = true

  unfoldable pub tagged : Identity → OrderIntent F → OrderIntent F
  tagged batch o = record o { metadata = metadata_put "runtime_batch_id" (str batch) o.metadata }

  abbrev pub of_other_batch : Identity → Option (OrderIntent F) → Bool
  of_other_batch batch none = false
  of_other_batch batch (some previous) =
      is_other_batch (metadata_get "runtime_batch_id" previous.metadata) batch

module _ {F : Type 0} ⦃fl : Float F⦄ where
  -- `_tag_runtime_batch`; `replace` constructs the order again.
  unfoldable pub tag_runtime_batch : Identity → OrderIntent F → Result (OrderIntent F)
  unfolding tagged
  tag_runtime_batch batch o = do
    raise_if (is_other_batch (metadata_get "runtime_batch_id" o.metadata) batch)
        (value_error "PAPER order already belongs to a different runtime batch")
    check_order (tagged batch o)
    ok (tagged batch o)

  -- The loop of `execute` over the orders, with the submitted orders of the ledger
  unfoldable pub tag_each :
      Identity → List (OrderIntent F) → List (OrderIntent F) → Result (List (OrderIntent F))
  unfolding tag_runtime_batch
  tag_each batch existing [] = ok []
  tag_each batch existing (o ∷ os) = do
    raise_if (of_other_batch batch (lookup order_key o.order_id existing))
        (value_error "PAPER order_id belongs to a different runtime batch")
    first ← tag_runtime_batch batch o
    rest ← tag_each batch existing os
    ok (first ∷ rest)

-- What `execute` changes
pub record Session (F B : Type 0) : Type 0 where
  pub ledger : Option (LedgerFile F)
  pub commits : List CommitFile
  pub rest : B

-- The commit of the orders of a batch
abbrev pub commit_of :
    {F : Type 0} → Identity → Datetime → List (OrderIntent F) → PaperRuntimeBatchCommit
commit_of batch now os = record {
  batch_id = batch;
  committed_at = now;
  submitted_order_ids = sorted ltb (map order_key os);
}

unfoldable pub new_commits :
    {F : Type 0}
    → (Identity → Bool)
    → Identity
    → Datetime
    → List (OrderIntent F)
    → List CommitFile
    → Result (List CommitFile)
new_commits is_batch batch now os files =
    check_commit (commit_of batch now os) >> write_commit is_batch (commit_of batch now os) files

module _ {F B : Type 0} where
  -- The ledger file changes only when the broker's call returns.
  abbrev pub with_ledger :
      Result (List (ExecutionReport F) × Option (LedgerFile F))
      → Action (Session F B) (List (ExecutionReport F))
  with_ledger (raise e) s = (raise e, s)
  with_ledger (ok done) s = (ok done.0, record s { ledger = done.1 })

  -- The ledger stays written when the commit raises.
  abbrev pub with_commits :
      List (ExecutionReport F)
      → Result (List CommitFile)
      → Action (Session F B) (List (ExecutionReport F))
  with_commits reports (raise e) s = (raise e, s)
  with_commits reports (ok files) s = (ok reports, record s { commits = files })

  -- The callback before the commit, where there is one
  abbrev pub run_before : Option (Action B (Unit {0})) → Action (Session F B) (Unit {0})
  run_before none s = (ok tt, s)
  run_before (some before) s = let done = before s.rest in (done.0, record s { rest = done.1 })

  -- The commit after the broker's call
  unfoldable pub commit_batch :
      (Identity → Bool)
      → Identity
      → Datetime
      → List (OrderIntent F)
      → List (ExecutionReport F)
      → Action (Session F B) (List (ExecutionReport F))
  unfolding new_commits
  commit_batch is_batch batch now os reports s =
      with_commits reports (new_commits is_batch batch now os s.commits) s

module _ {F B : Type 0} ⦃fl : Float F⦄ (starting_cash : F) (fill : FillFunction F) where
  -- `super().execute(…)`
  unfoldable pub execute_ledger :
      List (OrderIntent F) → Action (Session F B) (List (ExecutionReport F))
  execute_ledger os s = with_ledger (execute starting_cash fill s.ledger os) s

  unfoldable pub tag_orders :
      Identity → List (OrderIntent F) → Session F B → Result (List (OrderIntent F))
  unfolding tag_each
  tag_orders batch os s = do
    state ← load starting_cash s.ledger
    tag_each batch state.submitted_orders os

  unfoldable pub execute_batch :
      (Identity → Bool)
      → Identity
      → Option (Action B (Unit {0}))
      → Datetime
      → List (OrderIntent F)
      → Action (Session F B) (List (ExecutionReport F))
  unfolding execute_ledger tag_orders commit_batch
  execute_batch is_batch batch before now os s =
      and_then (tag_orders batch os s, s)
        (λ orders s0.
          and_then (run_before before s0)
            (λ _ s1. and_then (execute_ledger orders s1) (commit_batch is_batch batch now orders)))

  -- `execute`, with a batch or without
  unfoldable pub session_execute :
      (Identity → Bool)
      → Option Identity
      → Option (Action B (Unit {0}))
      → Datetime
      → List (OrderIntent F)
      → Action (Session F B) (List (ExecutionReport F))
  unfolding execute_batch
  session_execute is_batch none before now os s = execute_ledger os s
  session_execute is_batch (some batch) before now os s =
      execute_batch is_batch batch before now os s
