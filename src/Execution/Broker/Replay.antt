-- ===== src/Execution/Broker/Replay.antt =====
-- A repeated call of `execute` in src/stock_trading/execution/paper.py, as a process makes it that
-- was stopped after the ledger was written and before the reports were used.
use stock_traiding.Base.{
  ℕ, ◌≡◌, refl, true, false, ◌||◌, Option, none, some, List, [], ◌∷◌, map, Float, ok, >>=-eq-ok,
  ok-injective, elem, All, arith, ap, sym, ◌∙◌, subst, is_some,
}
use stock_traiding.Base.Dict.{
  keys, lookup, has, set_default, has-eq-elem, dict_of, dict_of-Nodup, elem-keys-append,
}
use stock_traiding.Base.Sort.{
  sorted, elem-sorted, Nodup-sorted, lookup-sorted, sorted_self, sorted-IsSorted,
}
use stock_traiding.Engine.Contracts.{OrderIntent, ExecutionReport}
use stock_traiding.Engine.Validation.{order_key, report_key}
use stock_traiding.Execution.Ledger.{
  PaperLedgerState, LedgerFile, order_before, report_before, check_ledger, load, payload, save,
  is_unencodable,
}
use stock_traiding.Execution.Fill.{queued_report}
use stock_traiding.Execution.Broker.{
  Book, FillFunction, default_all, open_book, closed_state, commit, validate_replayed_order,
  record_submission, respond, execute_order, execute_each, execute,
}
use stock_traiding.Execution.Broker.Soundness.{
  IsFill, OrderChecked, IsLoaded, IsSound, load-IsLoaded, open_book-IsSound,
}
use stock_traiding.Execution.Broker.Rounds.{Booked}
use stock_traiding.Execution.Broker.Run.{execute_each-IsRun}
use stock_traiding.Execution.Broker.Durability.{load-payload, commit-eq-ok}
use stock_traiding.Execution.Broker.Journal.{SelfEqual, IsEntered, Covered, execute_each-Journals}

order_before_asym :
    {F : Type 0} (a b : OrderIntent F) → order_before a b ≡ true → order_before b a ≡ false
order_before_asym a b h = ground arith

report_before_asym :
    {F : Type 0} (a b : ExecutionReport F) → report_before a b ≡ true → report_before b a ≡ false
report_before_asym a b h = ground arith

-- The report that a known order gets: its own, or that it is queued already.
pub standing : {F : Type 0} → List (ExecutionReport F) → OrderIntent F → ExecutionReport F
standing completed o = elim (lookup report_key o.order_id completed) [
  | some r ↦ r
  | none ↦ queued_report o o.created_at "already queued"
]

module _ {F : Type 0} ⦃fl : Float F⦄ where
  execute_order_again :
      (starting_cash : F) (fill : FillFunction F) (b : Book F) (o : OrderIntent F)
      → IsEntered b o
      → Booked b o.order_id
      → execute_order starting_cash fill b o ≡ ok (b, standing b.completed o)
  unfolding execute_order respond record_submission validate_replayed_order standing
  execute_order_again starting_cash fill b o e k = ground (arith, e.found, e.intent)

  execute_each_again :
      (starting_cash : F) (fill : FillFunction F) (b : Book F) (os : List (OrderIntent F))
      → All (IsEntered b) os
      → All (λ o. Booked b o.order_id) os
      → execute_each starting_cash fill b os ≡ ok (b, map (standing b.completed) os)
  unfolding execute_each
  execute_each_again starting_cash fill b [] e k = refl
  execute_each_again starting_cash fill b (o ∷ os) e k = rw (
    execute_order_again starting_cash fill b o e.0 k.0,
    execute_each_again starting_cash fill b os e.1 k.1,
  )

  default_all_known :
      (os d : List (OrderIntent F))
      → All (λ o. has order_key o.order_id d ≡ true) os
      → default_all os d ≡ d
  default_all_known [] d h = refl
  default_all_known (o ∷ os) d h = rw h.0 (default_all_known os d h.1)

  has-default_all :
      (id : ℕ) (os d : List (OrderIntent F))
      → (elem id (keys order_key os) || elem id (keys order_key d)) ≡ true
      → elem id (keys order_key (default_all os d)) ≡ true
  has-default_all id [] d h = h
  has-default_all id (o ∷ os) d h =
      has-default_all id os (set_default order_key o d) (
        ground
          (arith, elem-keys-append order_key id d (o ∷ []), has-eq-elem order_key o.order_id d))

  open_book-Covered : (s : PaperLedgerState F) → IsLoaded s → Covered (open_book s)
  unfolding open_book
  open_book-Covered s l id h =
      has-eq-elem order_key id _
      ∙ has-default_all id s.pending_orders (dict_of order_key s.submitted_orders) (
          ground (
            arith,
            dict_of-Nodup order_key s.pending_orders l.pending_ids,
            has-eq-elem order_key id s.pending_orders,
          ))

  -- The account that a later call finds
  abbrev reopened : Book F → Book F
  reopened b = record b {
    pending = sorted order_before b.pending;
    completed = sorted report_before b.completed;
    submitted = sorted order_before b.submitted;
  }

  all-Covered :
      (b : Book F) (os : List (OrderIntent F))
      → IsSound b
      → Covered b
      → ((x : ℕ) → elem x (keys order_key os) ≡ true → elem x (keys order_key b.pending) ≡ true)
      → All (λ o. has order_key o.order_id (sorted order_before b.submitted) ≡ true) os
  all-Covered b [] s c sub = tt
  all-Covered b (o ∷ os) s c sub = (
    ap is_some (lookup-sorted order_before order_key o.order_id b.submitted s.submitted_ids)
        ∙ c o.order_id (has-eq-elem order_key o.order_id b.pending ∙ sub o.order_id (ground arith)),
    all-Covered b os s c (λ x m. sub x (ground arith)),
  )

  open_book-closed : (b : Book F) → IsSound b → Covered b → open_book (closed_state b) ≡ reopened b
  unfolding open_book closed_state
  open_book-closed b s c = rw (
    dict_of-Nodup order_key (sorted order_before b.pending)
        (Nodup-sorted order_before order_key b.pending s.pending_ids),
    dict_of-Nodup report_key (sorted report_before b.completed)
        (Nodup-sorted report_before report_key b.completed s.completed_ids),
    dict_of-Nodup order_key (sorted order_before b.submitted)
        (Nodup-sorted order_before order_key b.submitted s.submitted_ids),
    default_all_known (sorted order_before b.pending) (sorted order_before b.submitted) (
        all-Covered b (sorted order_before b.pending) s c
          (λ x m. sym (elem-sorted order_before order_key x b.pending) ∙ m)),
  )

  closed-reopened : (b : Book F) → closed_state (reopened b) ≡ closed_state b
  unfolding closed_state
  closed-reopened b = rw (
    sorted_self order_before (sorted order_before b.pending)
        (sorted-IsSorted order_before order_before_asym b.pending),
    sorted_self report_before (sorted report_before b.completed)
        (sorted-IsSorted report_before report_before_asym b.completed),
    sorted_self order_before (sorted order_before b.submitted)
        (sorted-IsSorted order_before order_before_asym b.submitted),
  )

  IsEntered-reopened :
      (b : Book F) (os : List (OrderIntent F))
      → IsSound b
      → All (IsEntered b) os
      → All (IsEntered (reopened b)) os
  IsEntered-reopened b [] s e = tt
  IsEntered-reopened b (o ∷ os) s e = (
    record {
      entry = e.0.entry;
      found =
          lookup-sorted order_before order_key o.order_id b.submitted s.submitted_ids ∙ e.0.found;
      intent = e.0.intent;
    },
    IsEntered-reopened b os s e.1,
  )

  Booked-reopened :
      (b : Book F) (os : List (OrderIntent F))
      → IsSound b
      → All (λ o. Booked b o.order_id) os
      → All (λ o. Booked (reopened b) o.order_id) os
  Booked-reopened b [] s k = tt
  Booked-reopened b (o ∷ os) s k = (
    ground (
      arith,
      k.0,
      lookup-sorted order_before order_key o.order_id b.pending s.pending_ids,
      lookup-sorted report_before report_key o.order_id b.completed s.completed_ids,
    ),
    Booked-reopened b os s k.1,
  )

  -- What a repeated call sees: a ledger that loads, the same file after it, and for each order the
  -- report of the ledger, or that it is queued.
  pub record IsReplayed (starting_cash : F) (fill : FillFunction F) (file : Option (LedgerFile F))
      (os : List (OrderIntent F)) : Type 0 where
    pub state : PaperLedgerState F
    pub loads : load starting_cash file ≡ ok state
    pub again :
        execute starting_cash fill file os ≡ ok (map (standing state.completed_reports) os, file)

  commit_again :
      (b : Book F) (rs : List (ExecutionReport F))
      → check_ledger (closed_state b) ≡ ok tt
      → is_unencodable (closed_state b) ≡ false
      → commit (reopened b) rs ≡ ok (rs, payload (closed_state b))
  unfolding commit save
  commit_again b rs h finite = rw (closed-reopened b, h, finite)

  completed-closed :
      (b : Book F) → (closed_state b).completed_reports ≡ sorted report_before b.completed
  unfolding closed_state
  completed-closed b = refl

  closed-IsReplayed :
      (starting_cash : F) (fill : FillFunction F) (b : Book F) (o : OrderIntent F)
      (os : List (OrderIntent F))
      → IsSound b
      → Covered b
      → All (IsEntered b) (o ∷ os)
      → All (λ q. Booked b q.order_id) (o ∷ os)
      → check_ledger (closed_state b) ≡ ok tt
      → is_unencodable (closed_state b) ≡ false
      → IsReplayed starting_cash fill (payload (closed_state b)) (o ∷ os)
  unfolding execute
  closed-IsReplayed starting_cash fill b o os sound cov entered booked valid finite =
      let read = load-payload starting_cash b sound valid in
      let again =
        subst
          (λ xs.
            execute_each starting_cash fill (reopened b) (o ∷ os)
            ≡ ok (reopened b, map (standing xs) (o ∷ os)))
          (sym (completed-closed b))
          (execute_each_again starting_cash fill (reopened b) (o ∷ os)
            (IsEntered-reopened b (o ∷ os) sound entered)
            (Booked-reopened b (o ∷ os) sound booked)) in
      record {
        state = closed_state b;
        loads = read;
        again =
            rw (read, open_book-closed b sound cov, again)
              (commit_again b (map (standing (closed_state b).completed_reports) (o ∷ os)) valid
                finite);
      }

  -- With a fill that meets the broker's contract and a file that loads: once a call of `execute` on
  -- checked orders has returned, the same call on the new ledger file
  -- returns too, leaves the file as it is, and answers every order with the report of the ledger,
  -- or with the word that it is queued. The shares of the orders are equal to themselves.
  pub execute_replay :
      (starting_cash : F) (fill : FillFunction F)
      → IsFill fill
      → (file : Option (LedgerFile F)) (s : PaperLedgerState F) (os : List (OrderIntent F))
        (rs : List (ExecutionReport F)) (file' : Option (LedgerFile F))
      → load starting_cash file ≡ ok s
      → All OrderChecked os
      → All SelfEqual os
      → execute starting_cash fill file os ≡ ok (rs, file')
      → IsReplayed starting_cash fill file' os
  unfolding execute
  execute_replay starting_cash fill law file s [] rs file' loads checked self h =
      let same = ap (λ p. p.1) (ok-injective h) in
      record { state = s; loads = ap (load starting_cash) (sym same) ∙ loads; again = refl }
  execute_replay starting_cash fill law file s (o ∷ os) rs file' loads checked self h =
      let l = load-IsLoaded starting_cash file s loads in
      let (done, e, c) =
        >>=-eq-ok (execute_each starting_cash fill (open_book s) (o ∷ os)) _ (rw loads at h) in
      let b = done.0 in
      let run = execute_each-IsRun starting_cash fill law (open_book s) (o ∷ os) b done.1 e in
      let sound = run.sound (open_book-IsSound s l) checked in
      let (journal, entered) =
        execute_each-Journals starting_cash fill (open_book s) (o ∷ os) b done.1 self e in
      let (valid, _, written, finite) = commit-eq-ok b done.1 rs file' c in
      subst (λ f. IsReplayed starting_cash fill f (o ∷ os)) written
        (closed-IsReplayed starting_cash fill b o os sound (journal.covered (open_book-Covered s l))
          entered run.booked valid finite)
