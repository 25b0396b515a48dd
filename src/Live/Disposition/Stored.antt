-- ===== src/Live/Disposition/Stored.antt =====
-- What the store of src/stock_trading/live/pending_disposition.py holds after a call that records.
use stock_traiding.Base.{
  ℕ, ◌≤◌, ◌≡◌, refl, ap, ◌∙◌, subst, true, not, ◌||◌, none, some, List, [], ◌∷◌, map, ok,
  ok-injective, raise_if, raise_if-eq-ok, rethrow, rethrow-eq-ok, >>-eq-ok, >>=-eq-ok, ◌>>=◌,
  check_each, check_each_iff, value_error, ◌==◌, All, Nodup, elem, has_duplicates,
  has_duplicates_iff, Bool-cases, Option-cases, inl, inr, arith,
}
use stock_traiding.Base.Dict.{
  keys, lookup, has-eq-elem, dict_of, dict_of-Nodup, Nodup-put, All-put, elem-put,
}
use stock_traiding.Base.Sort.{sorted, All-sorted, Nodup-sorted, elem-sorted}
use stock_traiding.Engine.Contracts.{Identity}
use stock_traiding.Live.Disposition.{
  StaleTriggerDisposition, StoreFile, disposition_key, check_disposition, disposition_before,
  load_store, save_store, is_stable, Recorded, record_item, record_each, saved_if_added,
  record_many,
}

abbrev pub Checked : List StaleTriggerDisposition → Type 0
Checked = All (λ (d : StaleTriggerDisposition). check_disposition d ≡ ok tt)

record IsStored (records : List StaleTriggerDisposition) : Type 0 where
  pub checked : Checked records
  pub distinct : Nodup (keys disposition_key records)

sorted-IsStored :
    (records : List StaleTriggerDisposition)
    → IsStored records
    → IsStored (sorted disposition_before records)
sorted-IsStored records h = record {
  checked =
      All-sorted disposition_before (λ (d : StaleTriggerDisposition). check_disposition d ≡ ok tt)
        records h.checked;
  distinct = Nodup-sorted disposition_before disposition_key records h.distinct;
}

load_store-IsStored :
    (file : StoreFile) (stored : List StaleTriggerDisposition)
    → load_store file ≡ ok stored
    → IsStored stored
unfolding load_store
load_store-IsStored none stored h =
    subst IsStored (ok-injective h) (record { checked = tt; distinct = tt })
load_store-IsStored (some records) stored h =
    let (built, rest) =
      >>-eq-ok
        (rethrow (value_error "invalid stale trigger disposition store")
          (check_each check_disposition records))
        _ h in
    let (distinct, last) =
      >>-eq-ok (raise_if (has_duplicates (map disposition_key records)) _) _ rest in
    subst IsStored (ok-injective last) (
      sorted-IsStored records (record {
        checked = (check_each_iff check_disposition records).0 (rethrow-eq-ok _ _ built);
        distinct = (has_duplicates_iff _).0 (raise_if-eq-ok _ _ distinct);
      }))

load_store-save :
    (records : List StaleTriggerDisposition)
    → IsStored records
    → load_store (save_store records)
      ≡ ok (sorted disposition_before (sorted disposition_before records))
unfolding load_store save_store
load_store-save records h =
    let s = sorted-IsStored records h in
    rw
      (
        (check_each_iff check_disposition (sorted disposition_before records)).1 s.checked,
        (has_duplicates_iff (map disposition_key (sorted disposition_before records))).1 s.distinct,
      )
      refl

-- What recording some items has done
record IsRecorded (items : List StaleTriggerDisposition) (before after : Recorded) : Type 0 where
  pub stored : Checked items → IsStored before.1 → IsStored after.1
  pub holds :
      (id : Identity)
      → elem id (keys disposition_key after.1)
        ≡ (elem id (map disposition_key items) || elem id (keys disposition_key before.1))
  pub more : before.0 ≤ after.0
  pub same : after.0 ≡ before.0 → after.1 ≡ before.1

record_item-IsRecorded :
    (item : StaleTriggerDisposition) (before after : Recorded)
    → record_item item before (lookup disposition_key item.event_id before.1) ≡ ok after
    → IsRecorded (item ∷ []) before after
record_item-IsRecorded item (n, existing) after h =
    elim (Option-cases (lookup disposition_key item.event_id existing)) [
      | inl e ↦ subst (IsRecorded (item ∷ []) (n, existing)) (ok-injective (rw e at h)) (record {
        stored = λ c s. record {
          checked =
              All-put disposition_key (λ (d : StaleTriggerDisposition). check_disposition d ≡ ok tt)
                item existing c.0 s.checked;
          distinct = Nodup-put disposition_key item existing s.distinct;
        };
        holds = λ id. ground (arith, elem-put disposition_key id item existing);
        more = omega arith;
        same = λ e. absurd (omega arith);
      })
      | inr (previous, e) ↦
          let body = rw e at h in
          let there = has-eq-elem disposition_key item.event_id existing in
          let known : elem item.event_id (keys disposition_key existing) ≡ true =
            ground (arith, e, there) in
          subst (IsRecorded (item ∷ []) (n, existing))
            (ok-injective (>>-eq-ok (raise_if (not (is_stable previous item)) _) _ body).1)
            (record {
              stored = λ c s. s;
              holds = λ id. ground (arith, known);
              more = omega arith;
              same = λ e. refl;
            })
    ]

record_each-IsRecorded :
    (items : List StaleTriggerDisposition) (before after : Recorded)
    → record_each before items ≡ ok after
    → IsRecorded items before after
unfolding record_each
record_each-IsRecorded [] before after h =
    subst (IsRecorded [] before) (ok-injective h)
      (record { stored = λ c s. s; holds = λ id. refl; more = omega arith; same = λ e. refl })
record_each-IsRecorded (item ∷ items) before after h =
    let (next, now, later) =
      >>=-eq-ok (record_item item before (lookup disposition_key item.event_id before.1)) _ h in
    let first = record_item-IsRecorded item before next now in
    let rest = record_each-IsRecorded items next after later in
    let up = first.more in
    let on = rest.more in
    record {
      stored = λ c s. rest.stored c.1 (first.stored (c.0, tt) s);
      holds = λ id. ground (arith, first.holds id, rest.holds id);
      more = omega arith;
      same = λ e. rest.same (omega arith) ∙ first.same (omega arith);
    }

-- The identity is in the store when it is read.
pub record IsAudited (id : Identity) (file : StoreFile) : Type 0 where
  pub records : List StaleTriggerDisposition
  pub loaded : load_store file ≡ ok records
  pub found : elem id (keys disposition_key records) ≡ true

saved-IsAudited :
    (id : Identity) (file : StoreFile) (stored items : List StaleTriggerDisposition)
    (done : Recorded)
    → load_store file ≡ ok stored
    → IsStored stored
    → Checked items
    → IsRecorded items (0, stored) done
    → elem id (map disposition_key items) ≡ true
    → IsAudited id (saved_if_added file done).1
saved-IsAudited id file stored items (n, existing) read s c r m =
    let held : elem id (keys disposition_key existing) ≡ true = ground (arith, r.holds id) in
    elim (Bool-cases (n == 0)) [
      | inl e ↦
          let none_new : existing ≡ stored = r.same (ground arith) in
          rw e (record {
            records = stored;
            loaded = read;
            found = subst (λ l. elem id (keys disposition_key l) ≡ true) none_new held;
          })
      | inr e ↦ rw e (record {
        records = sorted disposition_before (sorted disposition_before existing);
        loaded = load_store-save existing (r.stored c s);
        found =
            elem-sorted disposition_before disposition_key id (sorted disposition_before existing)
            ∙ elem-sorted disposition_before disposition_key id existing
            ∙ held;
      })
    ]

-- After a call of `record_many` that returns, every identity of its records is in the store.
pub record_many-IsAudited :
    (items : List StaleTriggerDisposition) (n : ℕ) (file after : StoreFile) (id : Identity)
    → Checked items
    → record_many items file ≡ ok (n, after)
    → elem id (map disposition_key items) ≡ true
    → IsAudited id after
unfolding record_many
record_many-IsAudited [] n file after id c h m = cc
record_many-IsAudited (item ∷ items) n file after id c h m =
    let (stored, read, rest) =
      >>=-eq-ok (load_store file)
        (λ stored.
          record_each (0, dict_of disposition_key stored) (item ∷ items)
          >>= (λ done. ok (saved_if_added file done)))
        h in
    let (done, recorded, last) =
      >>=-eq-ok (record_each (0, dict_of disposition_key stored) (item ∷ items)) _ rest in
    let s = load_store-IsStored file stored read in
    let same = dict_of-Nodup disposition_key stored s.distinct in
    subst (IsAudited id) (ap (λ p. p.1) (ok-injective last)) (
      saved-IsAudited id file stored (item ∷ items) done read s c
        (record_each-IsRecorded (item ∷ items) (0, stored) done (rw same at recorded)) m)
