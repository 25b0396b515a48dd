-- ===== src/Live/Queue/Reach.antt =====
-- The files that the queue of src/stock_trading/live/event_intake.py saves load again.
use stock_traiding.Base.{
  ℕ, ◌≡◌, refl, subst, not, Option, none, some, List, [], ◌∷◌, ok, ok-injective, raise_if,
  raise_if-eq-ok, rethrow, rethrow-eq-ok, >>-eq-ok, >>=-eq-ok, check_each, check_each_iff,
  value_error, ◌==◌, All, Nodup, has_duplicates_iff, Bool-cases, inl, inr, datetime_eq,
}
use stock_traiding.Base.Dict.{
  keys, lookup, put, put_all, dict_of-Nodup, Nodup-put, Nodup-put_all, All-put,
}
use stock_traiding.Base.Sort.{sorted, All-sorted, Nodup-sorted, lookup-sorted}
use stock_traiding.Engine.Contracts.{Identity}
use stock_traiding.Live.Queue.{
  FilingCursor, PendingTrigger, Watermark, IntakeState, FilingEvent, QueueFile, trigger_key, cik_of,
  check_cursor, check_trigger, trigger_before, trigger_eq, watermark_before, construct_state, load,
  save, company_of, trigger_of, Added, add_trigger, add_named, add_event, add_events,
}

pub record IsSound (s : IntakeState) : Type 0 where
  pub marks : Nodup (keys cik_of s.watermarks)
  pub cursors : All (λ (w : Watermark). check_cursor w.cursor ≡ ok tt) s.watermarks
  pub triggers : All (λ (p : PendingTrigger). check_trigger p ≡ ok tt) s.pending
  pub events : Nodup (keys trigger_key s.pending)

All-put_all :
    {V : Type 0} (key : V → ℕ) (P : V → Type 0) (xs d : List V)
    → All P xs
    → All P d
    → All P (put_all key xs d)
All-put_all key P [] d h k = k
All-put_all key P (x ∷ xs) d h k = All-put_all key P xs (put key x d) h.1 (All-put key P x d h.0 k)

constructed :
    (s : IntakeState)
    → construct_state s ≡ ok tt
    → All (λ (w : Watermark). check_cursor w.cursor ≡ ok tt) s.watermarks
      × All (λ (p : PendingTrigger). check_trigger p ≡ ok tt) s.pending
      × Nodup (keys trigger_key s.pending)
unfolding construct_state
constructed s h =
    let (built, distinct) = >>-eq-ok (rethrow (value_error "invalid current event queue") _) _ h in
    let inner = rethrow-eq-ok _ _ built in
    let (marks, items) =
      >>-eq-ok (check_each (λ (w : Watermark). check_cursor w.cursor) s.watermarks) _ inner in
    (
      (check_each_iff _ s.watermarks).0 marks,
      (check_each_iff _ s.pending).0 items,
      (has_duplicates_iff _).0 (raise_if-eq-ok _ _ distinct),
    )

pub load-IsSound : (file : QueueFile) (s : IntakeState) → load file ≡ ok s → IsSound s
unfolding load
load-IsSound none s h =
    subst IsSound (ok-injective h) (record { marks = tt; cursors = tt; triggers = tt; events = tt })
load-IsSound (some stored) s h =
    let (built, rest) = >>-eq-ok (construct_state stored) _ h in
    let (cursors, triggers, events) = constructed stored built in
    subst IsSound (ok-injective rest) (record {
      marks = Nodup-put_all cik_of stored.watermarks [] tt;
      cursors =
          All-put_all cik_of (λ (w : Watermark). check_cursor w.cursor ≡ ok tt) stored.watermarks []
            cursors tt;
      triggers = triggers;
      events = events;
    })

abbrev pub reloaded : IntakeState → IntakeState
reloaded s = record {
  watermarks = sorted watermark_before s.watermarks;
  pending = sorted trigger_before s.pending;
}

-- What is saved of a sound state loads, sorted.
pub load-save : (s : IntakeState) → IsSound s → load (save s) ≡ ok (reloaded s)
unfolding load save construct_state
load-save s h =
    let cursors =
      All-sorted watermark_before (λ (w : Watermark). check_cursor w.cursor ≡ ok tt) s.watermarks
        h.cursors in
    let triggers =
      All-sorted trigger_before (λ (p : PendingTrigger). check_trigger p ≡ ok tt) s.pending
        h.triggers in
    let marks =
      dict_of-Nodup cik_of (sorted watermark_before s.watermarks)
        (Nodup-sorted watermark_before cik_of s.watermarks h.marks) in
    let events =
      (has_duplicates_iff _).1 (Nodup-sorted trigger_before trigger_key s.pending h.events) in
    rw
      (
        (check_each_iff (λ (w : Watermark). check_cursor w.cursor)
              (sorted watermark_before s.watermarks)).1
            cursors,
        (check_each_iff check_trigger (sorted trigger_before s.pending)).1 triggers,
        events,
        marks,
      )
      refl

pub lookup-reloaded :
    (cik : Identity) (s : IntakeState)
    → IsSound s
    → lookup cik_of cik (reloaded s).watermarks ≡ lookup cik_of cik s.watermarks
lookup-reloaded cik s h = lookup-sorted watermark_before cik_of cik s.watermarks h.marks

-- The triggers that a filing has been added to
pub record IsQueued (added : Added) : Type 0 where
  pub triggers : All (λ (p : PendingTrigger). check_trigger p ≡ ok tt) added.1
  pub events : Nodup (keys trigger_key added.1)

add_trigger-IsQueued :
    (item : PendingTrigger) (added after : Added) (found : Option PendingTrigger)
    → check_trigger item ≡ ok tt
    → add_trigger item added found ≡ ok after
    → IsQueued added
    → IsQueued after
add_trigger-IsQueued item (n, pending) after none c h q = subst IsQueued (ok-injective h) (record {
  triggers =
      All-put trigger_key (λ (p : PendingTrigger). check_trigger p ≡ ok tt) item pending c
        q.triggers;
  events = Nodup-put trigger_key item pending q.events;
})
add_trigger-IsQueued item added after (some existing) c h q =
    subst IsQueued (ok-injective (>>-eq-ok (raise_if (not (trigger_eq existing item)) _) _ h).1) q

add_named-IsQueued :
    (cik : Identity) (cursor : FilingCursor) (added after : Added) (e : FilingEvent)
    → add_named cik cursor added e ≡ ok after
    → IsQueued added
    → IsQueued after
unfolding add_named
add_named-IsQueued cik cursor added after e h q =
    let item = trigger_of cik cursor e in
    let (timed, rest) =
      >>-eq-ok (raise_if (not (datetime_eq e.public_time cursor.accepted_at)) _) _ h in
    let (checked, last) =
      >>-eq-ok (check_trigger item) (add_trigger item added (lookup trigger_key e.event_id added.1))
        rest in
    add_trigger-IsQueued item added after (lookup trigger_key e.event_id added.1) checked last q

add_event-IsQueued :
    (cik : Identity) (cursor : FilingCursor) (added after : Added) (e : FilingEvent)
    → add_event cik cursor added e ≡ ok after
    → IsQueued added
    → IsQueued after
unfolding add_event
add_event-IsQueued cik cursor added after e h q = elim (Bool-cases (company_of e == 0)) [
  | inl blank ↦ subst IsQueued (ok-injective (rw blank at h)) q
  | inr named ↦ add_named-IsQueued cik cursor added after e (rw named at h) q
]

pub add_events-IsQueued :
    (cik : Identity) (cursor : FilingCursor) (added after : Added) (es : List FilingEvent)
    → add_events cik cursor added es ≡ ok after
    → IsQueued added
    → IsQueued after
unfolding add_events
add_events-IsQueued cik cursor added after [] h q = subst IsQueued (ok-injective h) q
add_events-IsQueued cik cursor added after (e ∷ es) h q =
    let (next, now, later) = >>=-eq-ok (add_event cik cursor added e) _ h in
    add_events-IsQueued cik cursor next after es later
      (add_event-IsQueued cik cursor added next e now q)
