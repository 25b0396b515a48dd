-- ===== src/Execution/Batch/Committed.antt =====
-- What a batch of src/stock_trading/execution/session_paper.py leaves behind when it returns.
use stock_traiding.Base.{
  ◌≡◌, refl, Bool, true, false, ◌==◌, not, Option, none, some, List, [], ◌∷◌, map, Float, Result,
  ok, raise, raise_if, raise_if-eq-ok, rethrow-eq-ok, >>=-eq-ok, >>-eq-ok, ok-injective, Datetime,
  ltb, eq_of_==, arith, ap, ap₂, sym, ◌∙◌, subst,
}
use stock_traiding.Base.Dict.{lookup, lookup-put}
use stock_traiding.Base.Sort.{sorted}
use stock_traiding.Engine.Contracts.{
  Identity, OrderIntent, ExecutionReport, check_order, metadata_get,
}
use stock_traiding.Engine.Validation.{order_key, report_key}
use stock_traiding.Engine.Runtime.{Action, and_then}
use stock_traiding.Engine.Runtime.Cycle.{raise_ne_ok, and_then-eq-ok}
use stock_traiding.Execution.Ledger.{LedgerFile, load}
use stock_traiding.Execution.Broker.{FillFunction, execute}
use stock_traiding.Execution.Broker.Soundness.{IsFill}
use stock_traiding.Execution.Broker.Durability.{execute_reports}
use stock_traiding.Execution.Batch.{
  PaperRuntimeBatchCommit, CommitFile, file_name, check_commit, ids_eq, decoded_commit, write_new,
  load_commit, write_commit, is_other_batch, of_other_batch, tagged, tag_runtime_batch, tag_each,
  Session, commit_of, execute_ledger, tag_orders, run_before, new_commits, with_ledger,
  with_commits, commit_batch, execute_batch,
}

eq_of_ids_eq : (xs ys : List Identity) → ids_eq xs ys ≡ true → xs ≡ ys
eq_of_ids_eq [] [] h = refl
eq_of_ids_eq (x ∷ xs) (y ∷ ys) h =
    ap₂ ◌∷◌ (eq_of_== x y (ground arith)) (eq_of_ids_eq xs ys (ground arith))
eq_of_ids_eq [] (y ∷ ys) h = cc
eq_of_ids_eq (x ∷ xs) [] h = cc

-- From the files `old`, the batch has a commit file with these orders: a file that it had before has
-- these orders already and nothing is written; the files of other batches are as they were.
pub record IsRecorded (batch : Identity) (ids : List Identity) (old files : List CommitFile)
    : Type 0 where
  pub file : CommitFile
  pub found : lookup file_name batch files ≡ some file
  pub orders : file.commit.submitted_order_ids ≡ ids
  pub unchanged :
      (f : CommitFile)
      → lookup file_name batch old ≡ some f
      → (f.commit.submitted_order_ids ≡ ids) × (files ≡ old)
  pub others :
      (k : Identity) → (k == batch) ≡ false → lookup file_name k files ≡ lookup file_name k old

decoded_commit-cases :
    (f : Option CommitFile) (c : Option PaperRuntimeBatchCommit)
    → decoded_commit f ≡ ok c
    → c ≡ (elim f [ none ↦ none | some x ↦ some x.commit ])
unfolding check_commit
decoded_commit-cases none c h = sym (ok-injective h)
decoded_commit-cases (some f) c h =
    let (e, k) = >>-eq-ok (check_commit f.commit) _ (rethrow-eq-ok _ _ h) in sym (ok-injective k)

some_injective : {A : Type 0} {a b : A} → (some a ≡ some b) → a ≡ b
some_injective h = cc

none_ne_some : {A : Type 0} {x : A} → (none ≡ some x) → ⊥
none_ne_some h = cc

write_new-IsRecorded :
    (commit : PaperRuntimeBatchCommit) (files files' : List CommitFile) (f : Option CommitFile)
    → lookup file_name commit.batch_id files ≡ f
    → write_new commit files (elim f [ none ↦ none | some x ↦ some x.commit ]) ≡ ok files'
    → IsRecorded commit.batch_id commit.submitted_order_ids files files'
unfolding write_new
write_new-IsRecorded commit files files' none e h =
    subst (IsRecorded commit.batch_id commit.submitted_order_ids files) (ok-injective h) (record {
      file = record { name = commit.batch_id; commit = commit };
      found =
          lookup-put file_name commit.batch_id (record { name = commit.batch_id; commit = commit })
            files
          ∙ ground arith;
      orders = refl;
      unchanged = λ f found. absurd (none_ne_some (sym e ∙ found));
      others = λ k other.
          lookup-put file_name k (record { name = commit.batch_id; commit = commit }) files
          ∙ ground (arith, other);
    })
write_new-IsRecorded commit files files' (some x) e h =
    let (same, k) =
      >>-eq-ok (raise_if (not (ids_eq x.commit.submitted_order_ids commit.submitted_order_ids)) _) _
        h in
    let equal = raise_if-eq-ok _ _ same in
    subst (IsRecorded commit.batch_id commit.submitted_order_ids files) (ok-injective k) (record {
      file = x;
      found = e;
      orders = eq_of_ids_eq x.commit.submitted_order_ids commit.submitted_order_ids (ground arith);
      unchanged = λ f found. (
        ap (λ y. y.commit.submitted_order_ids) (some_injective (sym found ∙ e))
            ∙ eq_of_ids_eq x.commit.submitted_order_ids commit.submitted_order_ids (ground arith),
        refl,
      );
      others = λ k other. refl;
    })

write_commit-IsRecorded :
    (is_batch : Identity → Bool) (commit : PaperRuntimeBatchCommit) (files files' : List CommitFile)
    → write_commit is_batch commit files ≡ ok files'
    → IsRecorded commit.batch_id commit.submitted_order_ids files files'
unfolding write_commit load_commit
write_commit-IsRecorded is_batch commit files files' h =
    let (_, h1) = >>-eq-ok (raise_if (not (is_batch commit.batch_id)) _) _ h in
    let (c, e, h2) = >>=-eq-ok (load_commit is_batch commit.batch_id files) _ h1 in
    let (_, e1) = >>-eq-ok (raise_if (not (is_batch commit.batch_id)) _) _ e in
    write_new-IsRecorded commit files files' (lookup file_name commit.batch_id files) refl (
      subst (λ x. write_new commit files x ≡ ok files')
        (decoded_commit-cases (lookup file_name commit.batch_id files) c e1) h2)

module _ {F : Type 0} ⦃fl : Float F⦄ where
  tag_each-map :
      (batch : Identity) (existing os r : List (OrderIntent F))
      → tag_each batch existing os ≡ ok r
      → r ≡ map (tagged batch) os
  unfolding tag_each tag_runtime_batch
  tag_each-map batch existing [] r h = sym (ok-injective h)
  tag_each-map batch existing (o ∷ os) r h =
      let (_, h1) =
        >>-eq-ok (raise_if (of_other_batch batch (lookup order_key o.order_id existing)) _) _ h in
      let (first, e1, h2) = >>=-eq-ok (tag_runtime_batch batch o) _ h1 in
      let (rest, e2, h3) = >>=-eq-ok (tag_each batch existing os) _ h2 in
      let (_, k1) =
        >>-eq-ok (raise_if (is_other_batch (metadata_get "runtime_batch_id" o.metadata) batch) _) _
          e1 in
      let (_, k2) = >>-eq-ok (check_order (tagged batch o)) _ k1 in
      sym (ok-injective h3)
      ∙ ap₂ ◌∷◌ (sym (ok-injective k2)) (tag_each-map batch existing os rest e2)

  tagged_keys :
      (batch : Identity) (os : List (OrderIntent F))
      → map order_key (map (tagged batch) os) ≡ map order_key os
  unfolding tagged
  tagged_keys batch [] = refl
  tagged_keys batch (o ∷ os) = ap (◌∷◌ o.order_id) (tagged_keys batch os)

  module _ {B : Type 0} where
    with_ledger-eq-ok :
        (m : Result (List (ExecutionReport F) × Option (LedgerFile F))) (s s' : Session F B)
        (rs : List (ExecutionReport F))
        → with_ledger m s ≡ (ok rs, s')
        → m ≡ ok (rs, s'.ledger)
    with_ledger-eq-ok (ok done) s s' rs h = cc
    with_ledger-eq-ok (raise e) s s' rs h = absurd (raise_ne_ok e rs (ap (λ p. p.0) h))

    with_ledger_commits :
        (m : Result (List (ExecutionReport F) × Option (LedgerFile F))) (s : Session F B)
        → (with_ledger m s).1.commits ≡ s.commits
    with_ledger_commits (ok done) s = refl
    with_ledger_commits (raise e) s = refl

    with_commits-eq-ok :
        (m : Result (List CommitFile)) (s s' : Session F B) (rs rs' : List (ExecutionReport F))
        → with_commits rs m s ≡ (ok rs', s')
        → (rs ≡ rs') × (m ≡ ok s'.commits)
    with_commits-eq-ok (ok files) s s' rs rs' h =
        (ok-injective (ap (λ p. p.0) h), ap (λ p. ok p.1.commits) h)
    with_commits-eq-ok (raise e) s s' rs rs' h = absurd (raise_ne_ok e rs' (ap (λ p. p.0) h))

    commit_batch-IsRecorded :
        (is_batch : Identity → Bool) (batch : Identity) (now : Datetime) (os : List (OrderIntent F))
        (rs rs' : List (ExecutionReport F)) (s s' : Session F B)
        → commit_batch is_batch batch now os rs s ≡ (ok rs', s')
        → (rs ≡ rs') × IsRecorded batch (sorted ltb (map order_key os)) s.commits s'.commits
    unfolding commit_batch new_commits
    commit_batch-IsRecorded is_batch batch now os rs rs' s s' h =
        let (same, k) =
          with_commits-eq-ok (new_commits is_batch batch now os s.commits) s s' rs rs' h in
        let (_, k1) = >>-eq-ok (check_commit (commit_of batch now os)) _ k in
        (same, write_commit-IsRecorded is_batch (commit_of batch now os) s.commits s'.commits k1)

  module _ {B : Type 0} (starting_cash : F) (fill : FillFunction F) (law : IsFill fill) where
    run_before_commits :
        (before : Option (Action B (Unit {0}))) (s : Session F B)
        → (run_before before s).1.commits ≡ s.commits
    run_before_commits none s = refl
    run_before_commits (some f) s = refl

    execute_ledger_commits :
        (os : List (OrderIntent F)) (s : Session F B)
        → (execute_ledger starting_cash fill os s).1.commits ≡ s.commits
    unfolding execute_ledger
    execute_ledger_commits os s = with_ledger_commits (execute starting_cash fill s.ledger os) s

    -- The same, once the orders are tagged.
    tagged-IsRecorded :
        (is_batch : Identity → Bool) (batch : Identity) (now : Datetime) (os : List (OrderIntent F))
        (s s' : Session F B) (rs : List (ExecutionReport F))
        → and_then (execute_ledger starting_cash fill os s) (commit_batch is_batch batch now os)
          ≡ (ok rs, s')
        → (map report_key rs ≡ map order_key os)
          × IsRecorded batch (sorted ltb (map order_key os)) s.commits s'.commits
    unfolding execute_ledger
    tagged-IsRecorded is_batch batch now os s s' rs h =
        let (mid, e, k) = and_then-eq-ok (execute_ledger starting_cash fill os s) _ h in
        let s1 = (execute_ledger starting_cash fill os s).1 in
        let booked =
          with_ledger-eq-ok (execute starting_cash fill s.ledger os) s s1 mid
            (ap (λ r. (r, s1)) e) in
        let (same, recorded) = commit_batch-IsRecorded is_batch batch now os mid rs s1 s' k in
        (
          ap (map report_key) (sym same)
              ∙ execute_reports starting_cash fill law s.ledger os mid s1.ledger booked,
          subst (λ old. IsRecorded batch (sorted ltb (map order_key os)) old s'.commits)
              (execute_ledger_commits os s) recorded,
        )

    -- With a fill that meets the broker's contract: a batch that returns has one report for each
    -- order, in the order of the orders, and a commit file of the batch that holds just the sorted
    -- identities of the orders. If the batch had a commit file when it was called, that file held
    -- these same identities and no commit file has changed; otherwise only the batch's own is new.
    pub execute_batch-IsRecorded :
        (is_batch : Identity → Bool) (batch : Identity) (before : Option (Action B (Unit {0})))
        (now : Datetime) (os : List (OrderIntent F)) (s s' : Session F B)
        (rs : List (ExecutionReport F))
        → execute_batch starting_cash fill is_batch batch before now os s ≡ (ok rs, s')
        → (map report_key rs ≡ map order_key os)
          × IsRecorded batch (sorted ltb (map order_key os)) s.commits s'.commits
    unfolding execute_batch tag_orders
    execute_batch-IsRecorded is_batch batch before now os s s' rs h =
        let (orders, e, h1) = and_then-eq-ok (tag_orders starting_cash fill batch os s, s) _ h in
        let (_, _, h2) = and_then-eq-ok (run_before before s) _ h1 in
        let (state, _, e1) = >>=-eq-ok (load starting_cash s.ledger) _ e in
        let keys =
          ap (map order_key) (tag_each-map batch state.submitted_orders os orders e1)
          ∙ tagged_keys batch os in
        subst
          (λ (ids : List Identity).
            (map report_key rs ≡ ids) × IsRecorded batch (sorted ltb ids) s.commits s'.commits)
          keys
          (subst
            (λ old.
              (map report_key rs ≡ map order_key orders)
              × IsRecorded batch (sorted ltb (map order_key orders)) old s'.commits)
            (run_before_commits before s)
            (tagged-IsRecorded is_batch batch now orders (run_before before s).1 s' rs h2))
