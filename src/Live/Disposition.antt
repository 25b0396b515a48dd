-- ===== src/Live/Disposition.antt =====
-- src/stock_trading/live/pending_disposition.py: the audit of triggers whose session was missed. The file of
-- the store is the payload that its JSON text decodes to, and an identity is taken without the white space around
-- it, which the checks strip. The resolver is the function `execution_date`.
pub mod Stored
pub mod Audited
use stock_traiding.Base.{
  ℕ, suc, ◌+◌, Bool, not, ◌||◌, ◌&&◌, Option, none, some, List, [], ◌∷◌, map, Datetime, datetime_lt,
  datetime_eq, Result, ok, raise, value_error, runtime_error, raise_if, rethrow, check_each, ◌>>◌,
  ◌>>=◌, ltb, leb, ◌==◌, if◌then◌else◌, elem, length, has_duplicates,
}
use stock_traiding.Base.Dict.{lookup, put, dict_of}
use stock_traiding.Base.Sort.{sorted}
use stock_traiding.Engine.Contracts.{Identity}
use stock_traiding.Engine.Runtime.{Action, and_then}
use stock_traiding.Live.Queue.{PendingTrigger, QueueFile, trigger_key, pending, acknowledge}

pub record StaleTriggerDisposition : Type 0 where
  pub event_id : Identity
  pub company_id : Identity
  pub cik : Identity
  pub accession_number : Identity
  pub public_time : Datetime
  pub intended_execution_date : ℕ
  pub observed_target_execution_date : ℕ
  pub disposed_at : Datetime
  pub reason : Identity

pub record PendingBatchSelection : Type 0 where
  pub target_execution_date : ℕ
  pub selected_event_ids : List Identity
  pub stale_event_ids : List Identity
  pub future_event_ids : List Identity

pub record StaleDispositionResult : Type 0 where
  pub selected_count : ℕ
  pub recorded_count : ℕ
  pub removed_from_pending : ℕ
  pub total_disposition_count : ℕ

abbrev pub StoreFile : Type 0
StoreFile = Option (List StaleTriggerDisposition)

abbrev pub disposition_key : StaleTriggerDisposition → Identity
disposition_key d = d.event_id

unfoldable pub check_disposition : StaleTriggerDisposition → Result (Unit {0})
check_disposition d = do
  raise_if
      (d.event_id == 0
        || d.company_id == 0
        || d.cik == 0
        || d.accession_number == 0
        || d.reason == 0)
      (value_error "stale trigger disposition identity fields must not be empty")
  raise_if (leb d.observed_target_execution_date d.intended_execution_date)
      (value_error "stale trigger disposition does not describe an expired session")

-- The order of (public_time, event_id)
abbrev pub disposition_before : StaleTriggerDisposition → StaleTriggerDisposition → Bool
disposition_before a b =
    datetime_lt a.public_time b.public_time
    || datetime_eq a.public_time b.public_time && ltb a.event_id b.event_id

unfoldable pub load_store : StoreFile → Result (List StaleTriggerDisposition)
unfolding check_disposition has_duplicates
load_store none = ok []
load_store (some records) = do
  rethrow (value_error "invalid stale trigger disposition store")
      (check_each check_disposition records)
  raise_if (has_duplicates (map disposition_key records))
      (value_error "stale trigger disposition store contains duplicate event IDs")
  ok (sorted disposition_before records)

unfoldable pub save_store : List StaleTriggerDisposition → StoreFile
save_store records = some (sorted disposition_before records)

abbrev pub is_stable : StaleTriggerDisposition → StaleTriggerDisposition → Bool
is_stable previous item =
    previous.company_id == item.company_id
    && previous.cik == item.cik
    && previous.accession_number == item.accession_number
    && datetime_eq previous.public_time item.public_time
    && previous.intended_execution_date == item.intended_execution_date
    && previous.reason == item.reason

-- The number of new records and the records, a dict by event
abbrev pub Recorded : Type 0
Recorded = ℕ × List StaleTriggerDisposition

abbrev pub record_item :
    StaleTriggerDisposition → Recorded → Option StaleTriggerDisposition → Result Recorded
record_item item (n, existing) none = ok (n + 1, put disposition_key item existing)
record_item item done (some previous) = do
  raise_if (not (is_stable previous item)) (value_error "stale disposition identity changed")
  ok done

unfoldable pub record_each : Recorded → List StaleTriggerDisposition → Result Recorded
record_each done [] = ok done
record_each done (item ∷ items) = do
  next ← record_item item done (lookup disposition_key item.event_id done.1)
  record_each next items

abbrev pub saved_if_added : StoreFile → Recorded → ℕ × StoreFile
saved_if_added file (n, existing) = (n, if n == 0 then file else save_store existing)

unfoldable pub record_many : List StaleTriggerDisposition → StoreFile → Result (ℕ × StoreFile)
unfolding load_store save_store record_each
record_many [] file = ok (0, file)
record_many (item ∷ items) file = do
  stored ← load_store file
  done ← record_each (0, dict_of disposition_key stored) (item ∷ items)
  ok (saved_if_added file done)

-- The files of the queue and of the store
pub record Files : Type 0 where
  pub queue : QueueFile
  pub store : StoreFile

-- The records to make and the identities that have disappeared
abbrev pub Collected : Type 0
Collected = List StaleTriggerDisposition × List Identity

-- The step of the loop for an identity, given what the rest of the loop returns
abbrev pub with_record : StaleTriggerDisposition → Collected → Collected
with_record r (records, missing) = (r ∷ records, missing)

abbrev pub with_missing : Identity → List StaleTriggerDisposition → Collected → Collected
with_missing id stored (records, missing) =
    (records, if elem id (map disposition_key stored) then missing else id ∷ missing)

abbrev pub all_found : Collected → Result (List StaleTriggerDisposition)
all_found (records, []) = ok records
all_found (records, _ ∷ _) =
    raise (runtime_error "stale pending triggers disappeared without audit: ")

abbrev pub with_store : Files → Result (ℕ × StoreFile) → Result ℕ × Files
with_store files (raise e) = (raise e, files)
with_store files (ok (n, store)) = (ok n, record files { store = store })

abbrev pub with_queue : Files → Result (ℕ × QueueFile) → Result ℕ × Files
with_queue files (raise e) = (raise e, files)
with_queue files (ok (n, queue)) = (ok n, record files { queue = queue })

abbrev pub counted : ℕ → ℕ → ℕ → StoreFile → Result StaleDispositionResult
counted selected recorded removed store = do
  stored ← load_store store
  ok (record {
    selected_count = selected;
    recorded_count = recorded;
    removed_from_pending = removed;
    total_disposition_count = length stored;
  })

abbrev pub remove_stale : List Identity → ℕ → Action Files StaleDispositionResult
remove_stale ids recorded files =
    and_then (with_queue files (acknowledge ids files.queue))
      (λ removed files. (counted (length ids) recorded removed files.store, files))

abbrev pub record_stale :
    List Identity → List StaleTriggerDisposition → Action Files StaleDispositionResult
record_stale ids records files =
    and_then (with_store files (record_many records files.store)) (remove_stale ids)

module _ (execution_date : Datetime → Result ℕ) (reason : Identity) where
  abbrev pub disposition : ℕ → Datetime → PendingTrigger → ℕ → StaleTriggerDisposition
  disposition target disposed_at p intended = record {
    event_id = p.event_id;
    company_id = p.company_id;
    cik = p.cik;
    accession_number = p.accession_number;
    public_time = p.public_time;
    intended_execution_date = intended;
    observed_target_execution_date = target;
    disposed_at = disposed_at;
    reason = reason;
  }

  unfoldable pub disposition_from_pending :
      ℕ → Datetime → PendingTrigger → Result StaleTriggerDisposition
  unfolding check_disposition
  disposition_from_pending target disposed_at p = do
    intended ← execution_date p.public_time
    check_disposition (disposition target disposed_at p intended)
    ok (disposition target disposed_at p intended)

  abbrev pub collect_one :
      ℕ
      → Datetime
      → StoreFile
      → Identity
      → Option PendingTrigger
      → Result Collected
      → Result Collected
  collect_one target disposed_at store id none rest = do
    stored ← load_store store
    later ← rest
    ok (with_missing id stored later)
  collect_one target disposed_at store id (some p) rest = do
    r ← disposition_from_pending target disposed_at p
    later ← rest
    ok (with_record r later)

  unfoldable pub collect :
      ℕ → Datetime → StoreFile → List PendingTrigger → List Identity → Result Collected
  unfolding load_store disposition_from_pending
  collect target disposed_at store waiting [] = ok ([], [])
  collect target disposed_at store waiting (id ∷ ids) =
      collect_one target disposed_at store id (lookup trigger_key id waiting)
        (collect target disposed_at store waiting ids)

  -- All that precedes the first change
  unfoldable pub prepare :
      PendingBatchSelection → Datetime → Files → Result (List StaleTriggerDisposition)
  unfolding pending collect
  prepare selection disposed_at files = do
    waiting ← pending none files.queue
    found ←
        collect selection.target_execution_date disposed_at files.store
          (dict_of trigger_key waiting) selection.stale_event_ids
    all_found found

  abbrev pub dispose_stale :
      PendingBatchSelection → Datetime → List Identity → Action Files StaleDispositionResult
  dispose_stale selection disposed_at [] files = (counted 0 0 0 files.store, files)
  dispose_stale selection disposed_at (id ∷ ids) files =
      and_then (prepare selection disposed_at files, files) (record_stale (id ∷ ids))

  unfoldable pub dispose_stale_selection :
      PendingBatchSelection → Datetime → Action Files StaleDispositionResult
  unfolding prepare record_many acknowledge load_store
  dispose_stale_selection selection disposed_at files =
      dispose_stale selection disposed_at selection.stale_event_ids files
