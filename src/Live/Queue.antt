-- ===== src/Live/Queue.antt =====
-- `FileCurrentEventQueue` of src/stock_trading/live/event_intake.py. The file is the payload that its JSON
-- text decodes to, absent before the first save; a CIK is the identity of its normal form. An event is
-- what the queue reads of it, and an identity is taken without the white space around it, which the
-- checks strip. A method returns the new file where the source replaces it.
pub mod Reach
pub mod Replay
use stock_traiding.Base.{
  ℕ, suc, ◌+◌, ◌-◌, Bool, true, false, not, ◌||◌, ◌&&◌, Option, none, some, List, [], ◌∷◌, map,
  Datetime, datetime_lt, datetime_eq, Result, ok, raise, value_error, raise_if, rethrow, check_each,
  ◌>>◌, ◌>>=◌, ltb, leb, ◌==◌, if◌then◌else◌, select, elem, length, has_duplicates,
}
use stock_traiding.Base.Dict.{lookup, put, dict_of}
use stock_traiding.Base.Sort.{sorted}
use stock_traiding.Engine.Contracts.{Identity}

pub record FilingCursor : Type 0 where
  pub accepted_at : Datetime
  pub accession_number : Identity

pub record PendingTrigger : Type 0 where
  pub event_id : Identity
  pub company_id : Identity
  pub public_time : Datetime
  pub cik : Identity
  pub accession_number : Identity

pub record Watermark : Type 0 where
  pub cik : Identity
  pub cursor : FilingCursor

-- `CurrentEventIntakeState`, and the payload of the file
pub record IntakeState : Type 0 where
  pub watermarks : List Watermark
  pub pending : List PendingTrigger

pub record FilingEvent : Type 0 where
  pub event_id : Identity
  pub company_id : Option Identity
  pub public_time : Datetime

abbrev pub QueueFile : Type 0
QueueFile = Option IntakeState

abbrev pub trigger_key : PendingTrigger → Identity
trigger_key p = p.event_id

abbrev pub cik_of : Watermark → Identity
cik_of w = w.cik

unfoldable pub check_cursor : FilingCursor → Result (Unit {0})
check_cursor c =
    raise_if (c.accession_number == 0)
      (value_error "filing cursor accession_number must not be empty")

unfoldable pub check_trigger : PendingTrigger → Result (Unit {0})
check_trigger p =
    raise_if (p.event_id == 0 || p.company_id == 0 || p.cik == 0 || p.accession_number == 0)
      (value_error "pending trigger identity fields must not be empty")

-- `cursor <= previous`
abbrev pub is_reached : FilingCursor → FilingCursor → Bool
is_reached cursor previous =
    datetime_lt cursor.accepted_at previous.accepted_at
    || datetime_eq cursor.accepted_at previous.accepted_at
      && leb cursor.accession_number previous.accession_number

abbrev pub is_old : FilingCursor → Option Watermark → Bool
is_old cursor none = false
is_old cursor (some previous) = is_reached cursor previous.cursor

abbrev pub trigger_eq : PendingTrigger → PendingTrigger → Bool
trigger_eq a b =
    a.event_id == b.event_id
    && a.company_id == b.company_id
    && datetime_eq a.public_time b.public_time
    && a.cik == b.cik
    && a.accession_number == b.accession_number

-- `_pending_sort_key`
abbrev pub trigger_before : PendingTrigger → PendingTrigger → Bool
trigger_before a b =
    datetime_lt a.public_time b.public_time
    || datetime_eq a.public_time b.public_time && ltb a.event_id b.event_id

abbrev pub watermark_before : Watermark → Watermark → Bool
watermark_before a b = ltb a.cik b.cik

unfoldable pub construct_state : IntakeState → Result (Unit {0})
unfolding check_cursor check_trigger has_duplicates
construct_state s = do
  rethrow (value_error "invalid current event queue") (do
    check_each (λ (w : Watermark). check_cursor w.cursor) s.watermarks
    check_each check_trigger s.pending)
  raise_if (has_duplicates (map trigger_key s.pending))
      (value_error "current event queue contains duplicate pending event IDs")

unfoldable pub load : QueueFile → Result IntakeState
unfolding construct_state
load none = ok (record { watermarks = []; pending = [] })
load (some s) = do
  construct_state s
  ok (record { watermarks = dict_of cik_of s.watermarks; pending = s.pending })

unfoldable pub save : IntakeState → QueueFile
save s = some (record {
  watermarks = sorted watermark_before s.watermarks;
  pending = sorted trigger_before s.pending;
})

-- `event.company_id`, where it is not empty
abbrev pub company_of : FilingEvent → Identity
company_of e = elim e.company_id [ none ↦ 0 | some company ↦ company ]

abbrev pub trigger_of : Identity → FilingCursor → FilingEvent → PendingTrigger
trigger_of cik cursor e = record {
  event_id = e.event_id;
  company_id = company_of e;
  public_time = e.public_time;
  cik = cik;
  accession_number = cursor.accession_number;
}

-- The number of new triggers and the triggers, a dict by event
abbrev pub Added : Type 0
Added = ℕ × List PendingTrigger

abbrev pub add_trigger : PendingTrigger → Added → Option PendingTrigger → Result Added
add_trigger item (n, pending) none = ok (n + 1, put trigger_key item pending)
add_trigger item added (some existing) = do
  raise_if (not (trigger_eq existing item)) (value_error "pending event identity changed")
  ok added

-- The body of the loop for an event with a company
unfoldable pub add_named : Identity → FilingCursor → Added → FilingEvent → Result Added
unfolding check_trigger
add_named cik cursor added e = do
  raise_if (not (datetime_eq e.public_time cursor.accepted_at))
      (value_error "normalized filing event public_time differs from SEC acceptance")
  check_trigger (trigger_of cik cursor e)
  add_trigger (trigger_of cik cursor e) added (lookup trigger_key e.event_id added.1)

unfoldable pub add_event : Identity → FilingCursor → Added → FilingEvent → Result Added
add_event cik cursor added e =
    let next = add_named cik cursor added e in if company_of e == 0 then ok added else next

unfoldable pub add_events : Identity → FilingCursor → Added → List FilingEvent → Result Added
unfolding add_event
add_events cik cursor added [] = ok added
add_events cik cursor added (e ∷ es) = do
  next ← add_event cik cursor added e
  add_events cik cursor next es

abbrev pub committed : Identity → FilingCursor → IntakeState → Added → ℕ × QueueFile
committed cik cursor s (n, pending) = (
  n,
  save (record {
    watermarks = put cik_of (record { cik = cik; cursor = cursor }) s.watermarks;
    pending = sorted trigger_before pending;
  }),
)

unfoldable pub advance :
    Identity → FilingCursor → List FilingEvent → IntakeState → Result (ℕ × QueueFile)
unfolding add_events save
advance cik cursor es s = do
  added ← add_events cik cursor (0, dict_of trigger_key s.pending) es
  ok (committed cik cursor s added)

abbrev pub commit_state :
    Identity → FilingCursor → List FilingEvent → QueueFile → IntakeState → Result (ℕ × QueueFile)
commit_state cik cursor es file s =
    let next = advance cik cursor es s in
    if is_old cursor (lookup cik_of cik s.watermarks) then ok (0, file) else next

unfoldable pub commit_filing :
    Identity → FilingCursor → List FilingEvent → QueueFile → Result (ℕ × QueueFile)
unfolding check_cursor load advance
commit_filing cik cursor es file = do
  check_cursor cursor
  s ← load file
  commit_state cik cursor es file s

unfoldable pub watermark : Identity → QueueFile → Result (Option Watermark)
watermark cik file = do s ← load file; ok (lookup cik_of cik s.watermarks)

abbrev pub due_by : Option Datetime → List PendingTrigger → List PendingTrigger
due_by none items = items
due_by (some cutoff) items = select (λ p. not (datetime_lt cutoff p.public_time)) items

unfoldable pub pending : Option Datetime → QueueFile → Result (List PendingTrigger)
pending as_of file = do s ← load file; ok (due_by as_of s.pending)

abbrev pub remove : List Identity → QueueFile → IntakeState → ℕ × QueueFile
remove ids file s =
    let kept = select (λ p. not (elem p.event_id ids)) s.pending in
    let removed = length s.pending - length kept in
    if removed == 0
    then (0, file)
    else (removed, save (record { watermarks = s.watermarks; pending = kept }))

abbrev pub acknowledge_named : List Identity → QueueFile → Result (ℕ × QueueFile)
acknowledge_named [] file = ok (0, file)
acknowledge_named (id ∷ ids) file = do s ← load file; ok (remove (id ∷ ids) file s)

unfoldable pub acknowledge : List Identity → QueueFile → Result (ℕ × QueueFile)
unfolding load save
acknowledge ids file = acknowledge_named (select (λ id. not (id == 0)) ids) file
