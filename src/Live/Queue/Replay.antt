-- ===== src/Live/Queue/Replay.antt =====
-- Why a filing that src/stock_trading/live/event_intake.py has committed is not taken in again.
use stock_traiding.Base.{
  ℕ, ◌-◌, ◌≡◌, refl, sym, ap, ◌∙◌, subst, true, false, not, Option, none, some, List, [], ◌∷◌, ok,
  ok-injective, >>-eq-ok, >>=-eq-ok, ◌==◌, if◌then◌else◌, select, elem, length, Bool-cases, inl,
  inr, arith, ==_refl,
}
use stock_traiding.Base.Dict.{lookup, put, dict_of, Nodup-put, All-put, lookup-put, dict_of-Nodup}
use stock_traiding.Base.Sort.{sorted, All-sorted, Nodup-sorted}
use stock_traiding.Base.Removal.{All-select, Nodup-select}
use stock_traiding.Engine.Contracts.{Identity}
use stock_traiding.Live.Queue.{
  FilingCursor, PendingTrigger, Watermark, IntakeState, FilingEvent, QueueFile, trigger_key, cik_of,
  check_cursor, check_trigger, is_reached, is_old, trigger_before, load, save, Added, add_events,
  advance, commit_state, commit_filing, remove, acknowledge_named, acknowledge,
}
use stock_traiding.Live.Queue.Reach.{
  IsSound, load-IsSound, reloaded, load-save, lookup-reloaded, IsQueued, add_events-IsQueued,
}

is_reached_refl : (c : FilingCursor) → is_reached c c ≡ true
is_reached_refl c = ground arith

-- A cursor that is not reached is later, and then all that was reached stays so.
is_reached_later :
    (c old new : FilingCursor)
    → is_reached c old ≡ true
    → is_reached new old ≡ false
    → is_reached c new ≡ true
is_reached_later c old new h n = ground arith

-- The queue has taken in the CIK's filings up to the cursor.
pub record IsTaken (cik : Identity) (cursor : FilingCursor) (file : QueueFile) : Type 0 where
  pub state : IntakeState
  pub mark : Watermark
  pub loaded : load file ≡ ok state
  pub found : lookup cik_of cik state.watermarks ≡ some mark
  pub reached : is_reached cursor mark.cursor ≡ true

-- A call of the queue that returns
pub data Call (file after : QueueFile) : Type 0 where
  commits :
      (cik : Identity) (cursor : FilingCursor) (es : List FilingEvent) (n : ℕ)
      → commit_filing cik cursor es file ≡ ok (n, after)
      → Call file after
  acknowledges :
      (ids : List Identity) (n : ℕ) → acknowledge ids file ≡ ok (n, after) → Call file after

-- Any number of calls, one after another
pub data Calls (file : QueueFile) : QueueFile → Type 0 where
  stop : Calls file file
  call : {mid after : QueueFile} → Calls file mid → Call mid after → Calls file after

-- What a call leaves of the watermarks
record IsLater (file after : QueueFile) : Type 0 where
  pub keeps :
      (cik : Identity) (cursor : FilingCursor) → IsTaken cik cursor file → IsTaken cik cursor after

same-IsLater : (file after : QueueFile) → file ≡ after → IsLater file after
same-IsLater file after e = record { keeps = λ cik cursor t. subst (IsTaken cik cursor) e t }

abbrev stepped : Identity → FilingCursor → IntakeState → Added → IntakeState
stepped cik cursor s added = record {
  watermarks = put cik_of (record { cik = cik; cursor = cursor }) s.watermarks;
  pending = sorted trigger_before added.1;
}

stepped-IsSound :
    (cik : Identity) (cursor : FilingCursor) (s : IntakeState) (added : Added)
    → check_cursor cursor ≡ ok tt
    → IsSound s
    → IsQueued added
    → IsSound (stepped cik cursor s added)
stepped-IsSound cik cursor s added c h q =
    let mark : Watermark = record { cik = cik; cursor = cursor } in
    record {
      marks = Nodup-put cik_of mark s.watermarks h.marks;
      cursors =
          All-put cik_of (λ (w : Watermark). check_cursor w.cursor ≡ ok tt) mark s.watermarks c
            h.cursors;
      triggers =
          All-sorted trigger_before (λ (p : PendingTrigger). check_trigger p ≡ ok tt) added.1
            q.triggers;
      events = Nodup-sorted trigger_before trigger_key added.1 q.events;
    }

start-IsQueued : (s : IntakeState) → IsSound s → IsQueued (0, dict_of trigger_key s.pending)
start-IsQueued s h =
    let same = dict_of-Nodup trigger_key s.pending h.events in
    record { triggers = rw same h.triggers; events = rw same h.events }

-- The file of a step is read back with the new watermark in front of the old ones.
stepped-IsTaken :
    (cik other : Identity) (cursor reached : FilingCursor) (s : IntakeState) (added : Added)
    (mark : Watermark)
    → check_cursor cursor ≡ ok tt
    → IsSound s
    → IsQueued added
    → (if other == cik
        then some (record { cik = cik; cursor = cursor })
        else lookup cik_of other s.watermarks)
      ≡ some mark
    → is_reached reached mark.cursor ≡ true
    → IsTaken other reached (save (stepped cik cursor s added))
stepped-IsTaken cik other cursor reached s added mark c h q found old =
    let sound = stepped-IsSound cik cursor s added c h q in
    record {
      state = reloaded (stepped cik cursor s added);
      mark = mark;
      loaded = load-save (stepped cik cursor s added) sound;
      found =
          lookup-reloaded other (stepped cik cursor s added) sound
          ∙ lookup-put cik_of other (record { cik = cik; cursor = cursor }) s.watermarks
          ∙ found;
      reached = old;
    }

stepped-IsLater :
    (cik : Identity) (cursor : FilingCursor) (file : QueueFile) (s : IntakeState) (added : Added)
    → load file ≡ ok s
    → is_old cursor (lookup cik_of cik s.watermarks) ≡ false
    → check_cursor cursor ≡ ok tt
    → IsQueued added
    → IsLater file (save (stepped cik cursor s added))
stepped-IsLater cik cursor file s added read new c q = record {
  keeps = λ other reached t.
      let same : t.state ≡ s = ok-injective (sym t.loaded ∙ read) in
      let found = subst (λ s. lookup cik_of other s.watermarks ≡ some t.mark) same t.found in
      elim (Bool-cases (other == cik)) [
        | inl e ↦
            let equal : other ≡ cik = ground arith in
            let before = subst (λ k. lookup cik_of k s.watermarks ≡ some t.mark) equal found in
            let mark : Watermark = record { cik = cik; cursor = cursor } in
            stepped-IsTaken cik other cursor reached s added mark c (load-IsSound file s read) q
              (rw e) (is_reached_later reached t.mark.cursor cursor t.reached (rw before at new))
        | inr e ↦
            stepped-IsTaken cik other cursor reached s added t.mark c (load-IsSound file s read) q
              (rw e found) t.reached
      ];
}

-- What a commit that returns has done: nothing, as it was reached before, or a step
data IsCommit (cik : Identity) (cursor : FilingCursor) (file after : QueueFile) : Type 0 where
  ignored :
      (s : IntakeState) (previous : Watermark)
      → load file ≡ ok s
      → lookup cik_of cik s.watermarks ≡ some previous
      → is_reached cursor previous.cursor ≡ true
      → file ≡ after
      → IsCommit cik cursor file after
  advanced :
      (s : IntakeState) (added : Added)
      → load file ≡ ok s
      → is_old cursor (lookup cik_of cik s.watermarks) ≡ false
      → IsQueued added
      → save (stepped cik cursor s added) ≡ after
      → IsCommit cik cursor file after

old_mark :
    (cursor : FilingCursor) (found : Option Watermark)
    → is_old cursor found ≡ true
    → (previous : Watermark) × (found ≡ some previous) × (is_reached cursor previous.cursor ≡ true)
old_mark cursor none h = cc
old_mark cursor (some previous) h = (previous, refl, h)

commit_filing-IsCommit :
    (cik : Identity) (cursor : FilingCursor) (es : List FilingEvent) (n : ℕ)
    (file after : QueueFile)
    → commit_filing cik cursor es file ≡ ok (n, after)
    → (check_cursor cursor ≡ ok tt) × IsCommit cik cursor file after
unfolding commit_filing check_cursor load advance
commit_filing-IsCommit cik cursor es n file after h =
    let (named, rest) = >>-eq-ok (check_cursor cursor) _ h in
    let (s, read, last) = >>=-eq-ok (load file) (commit_state cik cursor es file) rest in
    (
      named,
      elim (Bool-cases (is_old cursor (lookup cik_of cik s.watermarks))) [
        | inl old ↦
            let (previous, found, reached) = old_mark cursor (lookup cik_of cik s.watermarks) old in
            ignored s previous read found reached (ap (λ p. p.1) (ok-injective (rw old at last)))
        | inr new ↦
            let (added, queued, done) =
              >>=-eq-ok (add_events cik cursor (0, dict_of trigger_key s.pending) es) _
                (rw new at last) in
            advanced s added read new
              (add_events-IsQueued cik cursor (0, dict_of trigger_key s.pending) added es queued
                (start-IsQueued s (load-IsSound file s read)))
              (ap (λ p. p.1) (ok-injective done))
      ],
    )

-- What an acknowledgement leaves
abbrev pub kept_state : List Identity → IntakeState → IntakeState
kept_state ids s = record {
  watermarks = s.watermarks;
  pending = select (λ p. not (elem p.event_id ids)) s.pending;
}

pub kept_state-IsSound :
    (ids : List Identity) (s : IntakeState) → IsSound s → IsSound (kept_state ids s)
kept_state-IsSound ids s h =
    let test = λ (p : PendingTrigger). not (elem p.event_id ids) in
    record {
      marks = h.marks;
      cursors = h.cursors;
      triggers =
          All-select (λ (p : PendingTrigger). check_trigger p ≡ ok tt) test s.pending h.triggers;
      events = Nodup-select trigger_key test s.pending h.events;
    }

kept-IsTaken :
    (ids : List Identity) (s : IntakeState) (cik : Identity) (cursor : FilingCursor)
    (mark : Watermark)
    → IsSound s
    → lookup cik_of cik s.watermarks ≡ some mark
    → is_reached cursor mark.cursor ≡ true
    → IsTaken cik cursor (save (kept_state ids s))
kept-IsTaken ids s cik cursor mark h found reached =
    let sound = kept_state-IsSound ids s h in
    record {
      state = reloaded (kept_state ids s);
      mark = mark;
      loaded = load-save (kept_state ids s) sound;
      found = lookup-reloaded cik (kept_state ids s) sound ∙ found;
      reached = reached;
    }

removed-IsLater :
    (ids : List Identity) (n : ℕ) (file after : QueueFile) (s : IntakeState)
    → load file ≡ ok s
    → remove ids file s ≡ (n, after)
    → IsLater file after
removed-IsLater ids n file after s read h =
    let kept = select (λ p. not (elem p.event_id ids)) s.pending in
    elim (Bool-cases (length s.pending - length kept == 0)) [
      | inl same ↦ same-IsLater file after (ap (λ p. p.1) (rw same at h))
      | inr fewer ↦
          let saved : save (kept_state ids s) ≡ after = ap (λ p. p.1) (rw fewer at h) in
          record {
            keeps = λ cik cursor t.
                let is : t.state ≡ s = ok-injective (sym t.loaded ∙ read) in
                subst (IsTaken cik cursor) saved (
                  kept-IsTaken ids s cik cursor t.mark (load-IsSound file s read)
                    (subst (λ s. lookup cik_of cik s.watermarks ≡ some t.mark) is t.found)
                    t.reached);
          }
    ]

named-IsLater :
    (ids : List Identity) (n : ℕ) (file after : QueueFile)
    → acknowledge_named ids file ≡ ok (n, after)
    → IsLater file after
named-IsLater [] n file after h = same-IsLater file after (ap (λ p. p.1) (ok-injective h))
named-IsLater (id ∷ ids) n file after h =
    let (s, read, rest) = >>=-eq-ok (load file) (λ s. ok (remove (id ∷ ids) file s)) h in
    removed-IsLater (id ∷ ids) n file after s read (ok-injective rest)

Call-IsLater : (file after : QueueFile) → Call file after → IsLater file after
unfolding acknowledge
Call-IsLater file after (acknowledges ids n h) =
    named-IsLater (select (λ id. not (id == 0)) ids) n file after h
Call-IsLater file after (commits cik cursor es n h) =
    let (named, done) = commit_filing-IsCommit cik cursor es n file after h in
    IsCommit-IsLater cik cursor file after named done
  where
    IsCommit-IsLater :
        (cik : Identity) (cursor : FilingCursor) (file after : QueueFile)
        → check_cursor cursor ≡ ok tt
        → IsCommit cik cursor file after
        → IsLater file after
    IsCommit-IsLater cik cursor file after named (ignored s previous read found reached same) =
        same-IsLater file after same
    IsCommit-IsLater cik cursor file after named (advanced s added read new q saved) =
        subst (IsLater file) saved (stepped-IsLater cik cursor file s added read new named q)

Calls-IsTaken :
    (cik : Identity) (cursor : FilingCursor) (file after : QueueFile)
    → Calls file after
    → IsTaken cik cursor file
    → IsTaken cik cursor after
Calls-IsTaken cik cursor file after stop t = t
Calls-IsTaken cik cursor file after (call {mid} before last) t =
    (Call-IsLater mid after last).keeps cik cursor (Calls-IsTaken cik cursor file mid before t)

IsCommit-IsTaken :
    (cik : Identity) (cursor : FilingCursor) (file after : QueueFile)
    → check_cursor cursor ≡ ok tt
    → IsCommit cik cursor file after
    → IsTaken cik cursor after
IsCommit-IsTaken cik cursor file after named (ignored s previous read found reached same) =
    subst (IsTaken cik cursor) same
      (record { state = s; mark = previous; loaded = read; found = found; reached = reached })
IsCommit-IsTaken cik cursor file after named (advanced s added read new q saved) =
    let mark : Watermark = record { cik = cik; cursor = cursor } in
    subst (IsTaken cik cursor) saved (
      stepped-IsTaken cik cik cursor cursor s added mark named (load-IsSound file s read) q
        (rw (==_refl cik)) (is_reached_refl cursor))

taken_again :
    (cik : Identity) (cursor : FilingCursor) (es : List FilingEvent) (file : QueueFile)
    → check_cursor cursor ≡ ok tt
    → IsTaken cik cursor file
    → commit_filing cik cursor es file ≡ ok (0, file)
unfolding commit_filing
taken_again cik cursor es file named t = rw (named, t.loaded, t.found, t.reached) refl

-- Once a filing has been committed, committing it again is refused as old, whatever its events are and
-- whatever commits and acknowledgements have returned in between: the answer is 0 and the file stays.
pub commit_filing_replay :
    (cik : Identity) (cursor : FilingCursor) (es again : List FilingEvent) (n : ℕ)
    (file committed_file later : QueueFile)
    → commit_filing cik cursor es file ≡ ok (n, committed_file)
    → Calls committed_file later
    → commit_filing cik cursor again later ≡ ok (0, later)
commit_filing_replay cik cursor es again n file committed_file later h calls =
    let (named, done) = commit_filing-IsCommit cik cursor es n file committed_file h in
    taken_again cik cursor again later named (
      Calls-IsTaken cik cursor committed_file later calls
        (IsCommit-IsTaken cik cursor file committed_file named done))
