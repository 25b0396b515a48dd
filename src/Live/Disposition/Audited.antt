-- ===== src/Live/Disposition/Audited.antt =====
-- Why no pending trigger is lost by `dispose_stale_selection` of
-- src/stock_trading/live/pending_disposition.py.
use stock_traiding.Base.{
  ℕ, ◌-◌, ◌≡◌, ◌⊎◌, inl, inr, refl, sym, ap, ◌∙◌, subst, true, false, not, none, List, [], ◌∷◌, map,
  Datetime, Result, ok, raise, ok-injective, >>-eq-ok, >>=-eq-ok, ◌==◌, Nodup, elem, select, length,
  Bool-cases, Option-cases, arith,
}
use stock_traiding.Base.Dict.{keys, lookup, has-eq-elem, dict_of, dict_of-Nodup, key_of_lookup}
use stock_traiding.Base.Sort.{elem-sorted}
use stock_traiding.Engine.Contracts.{Identity}
use stock_traiding.Engine.Runtime.{and_then}
use stock_traiding.Live.Queue.{
  PendingTrigger, IntakeState, QueueFile, trigger_key, trigger_before, load, save, pending, remove,
  acknowledge_named, acknowledge,
}
use stock_traiding.Live.Queue.Reach.{IsSound, load-IsSound, reloaded, load-save}
use stock_traiding.Live.Queue.Replay.{kept_state, kept_state-IsSound}
use stock_traiding.Live.Disposition.{
  StaleTriggerDisposition, PendingBatchSelection, StoreFile, Files, Collected, disposition_key,
  check_disposition, disposition, disposition_from_pending, load_store, record_many, collect,
  all_found, prepare, with_store, with_queue, counted, remove_stale, record_stale, dispose_stale,
  dispose_stale_selection,
}
use stock_traiding.Live.Disposition.Stored.{Checked, IsAudited, record_many-IsAudited}

-- The identity is pending when the queue is read.
pub record IsPending (id : Identity) (file : QueueFile) : Type 0 where
  pub state : IntakeState
  pub loaded : load file ≡ ok state
  pub found : elem id (keys trigger_key state.pending) ≡ true

elem-kept :
    (id : Identity) (ids : List Identity) (ps : List PendingTrigger)
    → elem id ids ≡ false
    → elem id (keys trigger_key (select (λ p. not (elem p.event_id ids)) ps))
      ≡ elem id (keys trigger_key ps)
elem-kept id ids [] h = refl
elem-kept id ids (p ∷ ps) h = elim (Bool-cases (id == p.event_id)) [
  | inl e ↦
      let same : id ≡ p.event_id = ground arith in
      let out = subst (λ x. elem x ids ≡ false) same h in ground (arith, elem-kept id ids ps h)
  | inr e ↦ ground (arith, elem-kept id ids ps h)
]

kept-IsPending :
    (id : Identity) (ids : List Identity) (s : IntakeState)
    → IsSound s
    → elem id ids ≡ false
    → elem id (keys trigger_key s.pending) ≡ true
    → IsPending id (save (kept_state ids s))
kept-IsPending id ids s h out m = record {
  state = reloaded (kept_state ids s);
  loaded = load-save (kept_state ids s) (kept_state-IsSound ids s h);
  found =
      elem-sorted trigger_before trigger_key id (kept_state ids s).pending
      ∙ elem-kept id ids s.pending out
      ∙ m;
}

named-IsPending :
    (id : Identity) (ids : List Identity) (n : ℕ) (file after : QueueFile)
    → elem id ids ≡ false
    → acknowledge_named ids file ≡ ok (n, after)
    → IsPending id file
    → IsPending id after
named-IsPending id [] n file after out h t = subst (IsPending id) (ap (λ p. p.1) (ok-injective h)) t
named-IsPending id (x ∷ ids) n file after out h t =
    let (s, read, rest) = >>=-eq-ok (load file) (λ s. ok (remove (x ∷ ids) file s)) h in
    let done = ok-injective rest in
    let is : t.state ≡ s = ok-injective (sym t.loaded ∙ read) in
    let kept = select (λ p. not (elem p.event_id (x ∷ ids))) s.pending in
    elim (Bool-cases (length s.pending - length kept == 0)) [
      | inl same ↦ subst (IsPending id) (ap (λ p. p.1) (rw same at done)) t
      | inr fewer ↦ subst (IsPending id) (ap (λ p. p.1) (rw fewer at done)) (
          kept-IsPending id (x ∷ ids) s (load-IsSound file s read) out
            (subst (λ s. elem id (keys trigger_key s.pending) ≡ true) is t.found))
    ]

elem-nonempty :
    (id : Identity) (ids : List Identity)
    → elem id ids ≡ false
    → elem id (select (λ id. not (id == 0)) ids) ≡ false
elem-nonempty id [] h = refl
elem-nonempty id (x ∷ ids) h = ground (arith, elem-nonempty id ids)

-- What is not acknowledged stays pending.
acknowledge-IsPending :
    (id : Identity) (ids : List Identity) (n : ℕ) (file after : QueueFile)
    → elem id ids ≡ false
    → acknowledge ids file ≡ ok (n, after)
    → IsPending id file
    → IsPending id after
unfolding acknowledge
acknowledge-IsPending id ids n file after out h t =
    named-IsPending id (select (λ id. not (id == 0)) ids) n file after (elem-nonempty id ids out) h
      t

-- The identity is still pending, or the store has a record of it.
abbrev pub IsAccounted : Identity → Files → Type 0
IsAccounted id files = IsPending id files.queue ⊎ IsAudited id files.store

module _ (execution_date : Datetime → Result ℕ) (reason : Identity) where
  -- What the loop over the stale identities has collected
  record IsCollected (waiting : List PendingTrigger) (ids : List Identity) (found : Collected)
      : Type 0 where
    pub checked : Checked found.0
    pub covers :
        (id : Identity)
        → elem id ids ≡ true
        → elem id (keys trigger_key waiting) ≡ true
        → elem id (map disposition_key found.0) ≡ true

  from_pending :
      (target : ℕ) (disposed_at : Datetime) (p : PendingTrigger) (r : StaleTriggerDisposition)
      → disposition_from_pending execution_date reason target disposed_at p ≡ ok r
      → (check_disposition r ≡ ok tt) × (disposition_key r ≡ p.event_id)
  unfolding disposition_from_pending
  from_pending target disposed_at p r h =
      let (intended, dated, rest) = >>=-eq-ok (execution_date p.public_time) _ h in
      let made = disposition execution_date reason target disposed_at p intended in
      let (checked, last) = >>-eq-ok (check_disposition made) (ok made) rest in
      let same : made ≡ r = ok-injective last in
      (subst (λ r. check_disposition r ≡ ok tt) same checked, sym (ap disposition_key same))

  collect-IsCollected :
      (target : ℕ) (disposed_at : Datetime) (store : StoreFile) (waiting : List PendingTrigger)
      (ids : List Identity) (found : Collected)
      → collect execution_date reason target disposed_at store waiting ids ≡ ok found
      → IsCollected waiting ids found
  unfolding collect
  collect-IsCollected target disposed_at store waiting [] found h =
      subst (IsCollected waiting []) (ok-injective h)
        (record { checked = tt; covers = λ id m w. cc })
  collect-IsCollected target disposed_at store waiting (x ∷ ids) found h =
      elim (Option-cases (lookup trigger_key x waiting)) [
        | inl e ↦
            let absent : elem x (keys trigger_key waiting) ≡ false =
              ground (arith, has-eq-elem trigger_key x waiting, e) in
            let (stored, read, rest) = >>=-eq-ok (load_store store) _ (rw e at h) in
            let (later, collected, last) =
              >>=-eq-ok (collect execution_date reason target disposed_at store waiting ids) _
                rest in
            let inner = collect-IsCollected target disposed_at store waiting ids later collected in
            subst (IsCollected waiting (x ∷ ids)) (ok-injective last) (record {
              checked = inner.checked;
              covers = λ id m w. elim (Bool-cases (id == x)) [
                | inl same ↦
                    let is : id ≡ x = ground arith in
                    let present = subst (λ y. elem y (keys trigger_key waiting) ≡ true) is w in cc
                | inr other ↦ inner.covers id (ground arith) w
              ];
            })
        | inr (p, e) ↦
            let (r, made, rest) =
              >>=-eq-ok (disposition_from_pending execution_date reason target disposed_at p) _
                (rw e at h) in
            let (later, collected, last) =
              >>=-eq-ok (collect execution_date reason target disposed_at store waiting ids) _
                rest in
            let inner = collect-IsCollected target disposed_at store waiting ids later collected in
            let (checked, named) = from_pending target disposed_at p r made in
            let is = key_of_lookup trigger_key x waiting {x = p} e in
            subst (IsCollected waiting (x ∷ ids)) (ok-injective last) (record {
              checked = (checked, inner.checked);
              covers = λ id m w. elim (Bool-cases (id == x)) [
                | inl same ↦ let named' : r.event_id ≡ x = named ∙ is in ground arith
                | inr other ↦ let there = inner.covers id (ground arith) w in ground arith
              ];
            })
      ]

  prepare-IsCollected :
      (selection : PendingBatchSelection) (disposed_at : Datetime) (files : Files)
      (records : List StaleTriggerDisposition) (id : Identity)
      → prepare execution_date reason selection disposed_at files ≡ ok records
      → IsPending id files.queue
      → Checked records
        × (elem id selection.stale_event_ids ≡ true → elem id (map disposition_key records) ≡ true)
  unfolding prepare pending
  prepare-IsCollected selection disposed_at files records id h t =
      let (waiting, queued, rest) = >>=-eq-ok (pending none files.queue) _ h in
      let (s, read, listed) = >>=-eq-ok (load files.queue) _ queued in
      let (found, collected, last) =
        >>=-eq-ok
          (collect execution_date reason selection.target_execution_date disposed_at files.store
            (dict_of trigger_key waiting) selection.stale_event_ids)
          all_found rest in
      let inner =
        collect-IsCollected selection.target_execution_date disposed_at files.store
          (dict_of trigger_key waiting) selection.stale_event_ids found collected in
      let is : t.state ≡ s = ok-injective (sym t.loaded ∙ read) in
      let items : s.pending ≡ waiting = ok-injective listed in
      let held =
        subst (λ l. elem id (keys trigger_key l) ≡ true) items
          (subst (λ s. elem id (keys trigger_key s.pending) ≡ true) is t.found) in
      let dict =
        dict_of-Nodup trigger_key waiting (
          subst (λ l. Nodup (keys trigger_key l)) items (load-IsSound files.queue s read).events) in
      let same = found_records found records last in
      (
        subst Checked same inner.checked,
        λ m.
            subst (λ l. elem id (map disposition_key l) ≡ true) same
              (inner.covers id m
                (subst (λ l. elem id (keys trigger_key l) ≡ true) (sym dict) held)),
      )
    where
      found_records :
          (found : Collected) (records : List StaleTriggerDisposition)
          → all_found found ≡ ok records
          → found.0 ≡ records
      found_records (rs, []) records h = ok-injective h
      found_records (rs, x ∷ xs) records h = cc

removed_with :
    (id : Identity) (ids : List Identity) (recorded : ℕ) (files : Files)
    (r : Result (ℕ × QueueFile))
    → acknowledge ids files.queue ≡ r
    → (IsAudited id files.store ⊎ ((elem id ids ≡ false) × IsPending id files.queue))
    → IsAccounted id
        (and_then
          (with_queue files r)
          (λ removed files. (counted (length ids) recorded removed files.store, files))).1
removed_with id ids recorded files r e (inl audited) = audited_stays id ids recorded files r audited
  where
    audited_stays :
        (id : Identity) (ids : List Identity) (recorded : ℕ) (files : Files)
        (r : Result (ℕ × QueueFile))
        → IsAudited id files.store
        → IsAccounted id
            (and_then
              (with_queue files r)
              (λ removed files. (counted (length ids) recorded removed files.store, files))).1
    audited_stays id ids recorded files (raise error) audited = inr audited
    audited_stays id ids recorded files (ok (n, queue)) audited = inr audited
removed_with id ids recorded files (raise error) e (inr (out, t)) = inl t
removed_with id ids recorded files (ok (n, queue)) e (inr (out, t)) =
    inl (acknowledge-IsPending id ids n files.queue queue out e t)

recorded_with :
    (id : Identity) (ids : List Identity) (records : List StaleTriggerDisposition) (files : Files)
    (r : Result (ℕ × StoreFile))
    → record_many records files.store ≡ r
    → Checked records
    → (elem id ids ≡ true → elem id (map disposition_key records) ≡ true)
    → IsPending id files.queue
    → IsAccounted id (and_then (with_store files r) (remove_stale ids)).1
recorded_with id ids records files (raise error) e c covers t = inl t
recorded_with id ids records files (ok (n, store)) e c covers t =
    let next : Files = record files { store = store } in
    removed_with id ids n next (acknowledge ids files.queue) refl (elim (Bool-cases (elem id ids)) [
      | inl stale ↦ inl (record_many-IsAudited records n files.store store id c e (covers stale))
      | inr other ↦ inr (other, t)
    ])

module _ (execution_date : Datetime → Result ℕ) (reason : Identity) where
  prepared_with :
      (selection : PendingBatchSelection) (disposed_at : Datetime) (id : Identity)
      (ids : List Identity) (files : Files) (r : Result (List StaleTriggerDisposition))
      → selection.stale_event_ids ≡ ids
      → prepare execution_date reason selection disposed_at files ≡ r
      → IsPending id files.queue
      → IsAccounted id (and_then (r, files) (record_stale ids)).1
  prepared_with selection disposed_at id ids files (raise error) same e t = inl t
  prepared_with selection disposed_at id ids files (ok records) same e t =
      let (checked, covers) =
        prepare-IsCollected execution_date reason selection disposed_at files records id e t in
      recorded_with id ids records files (record_many records files.store) refl checked
        (subst (λ l. elem id l ≡ true → elem id (map disposition_key records) ≡ true) same covers) t

  stale-IsAccounted :
      (selection : PendingBatchSelection) (disposed_at : Datetime) (id : Identity)
      (ids : List Identity) (files : Files)
      → selection.stale_event_ids ≡ ids
      → IsPending id files.queue
      → IsAccounted id (dispose_stale execution_date reason selection disposed_at ids files).1
  stale-IsAccounted selection disposed_at id [] files same t = inl t
  stale-IsAccounted selection disposed_at id (x ∷ ids) files same t =
      prepared_with selection disposed_at id (x ∷ ids) files
        (prepare execution_date reason selection disposed_at files) same refl t

  -- No pending trigger is lost: after a disposal, also one that raises at any point, a trigger that was
  -- pending is still pending, or the store has its record.
  pub dispose_stale_selection-IsAccounted :
      (selection : PendingBatchSelection) (disposed_at : Datetime) (files : Files) (id : Identity)
      → IsPending id files.queue
      → IsAccounted id (dispose_stale_selection execution_date reason selection disposed_at files).1
  unfolding dispose_stale_selection
  dispose_stale_selection-IsAccounted selection disposed_at files id t =
      stale-IsAccounted selection disposed_at id selection.stale_event_ids files refl t
