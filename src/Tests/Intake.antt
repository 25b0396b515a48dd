-- ===== src/Tests/Intake.antt =====
-- Runs of the event queue and of the disposal of stale triggers (src/stock_trading/live).
use stock_traiding.Base.{ℕ, ◌≡◌, refl, none, some, List, [], ◌∷◌, Result, ok, Datetime}
use stock_traiding.Live.Queue.{
  FilingCursor, PendingTrigger, Watermark, IntakeState, FilingEvent, QueueFile, load, commit_filing,
  acknowledge,
}
use stock_traiding.Live.Queue.Replay.{
  Calls.stop, Calls.call, Call.acknowledges, commit_filing_replay,
}
use stock_traiding.Live.Disposition.{
  StaleTriggerDisposition, PendingBatchSelection, Files, dispose_stale_selection,
}
use stock_traiding.Live.Disposition.Audited.{IsAccounted, dispose_stale_selection-IsAccounted}

abbrev moment : ℕ → Datetime
moment day = record { date = day; timetz = 15 }

abbrev cursor : FilingCursor
cursor = record { accepted_at = moment 20; accession_number = 500 }

abbrev filing : List FilingEvent
filing =
    record { event_id = 61; company_id = some 7; public_time = moment 20 }
    ∷ record { event_id = 62; company_id = some 8; public_time = moment 20 }
    ∷ record { event_id = 63; company_id = none; public_time = moment 19 }
    ∷ []

abbrev trigger : ℕ → ℕ → PendingTrigger
trigger id company = record {
  event_id = id;
  company_id = company;
  public_time = moment 20;
  cik = 900;
  accession_number = 500;
}

abbrev queued : IntakeState
queued = record {
  watermarks = record { cik = 900; cursor = cursor } ∷ [];
  pending = trigger 61 7 ∷ trigger 62 8 ∷ [];
}

abbrev emptied : IntakeState
emptied = record queued { pending = trigger 62 8 ∷ [] }

commit_ok : commit_filing 900 cursor filing none ≡ ok (2, some queued)
unfolding commit_filing stock_traiding.Live.Queue.add_named
commit_ok = refl

acknowledge_ok : acknowledge (61 ∷ []) (some queued) ≡ ok (1, some emptied)
unfolding acknowledge
acknowledge_ok = refl

commit_filing_replay_example : commit_filing 900 cursor filing (some emptied) ≡ ok (0, some emptied)
commit_filing_replay_example =
    commit_filing_replay 900 cursor filing filing 2 none (some queued) (some emptied) commit_ok
      (call stop (acknowledges (61 ∷ []) 1 acknowledge_ok))

abbrev selection : PendingBatchSelection
selection = record {
  target_execution_date = 25;
  selected_event_ids = [];
  stale_event_ids = 61 ∷ [];
  future_event_ids = [];
}

abbrev files : Files
files = record { queue = some queued; store = none }

abbrev next_day : Datetime → Result ℕ
next_day t = ok 21

abbrev audited : StaleTriggerDisposition
audited = record {
  event_id = 61;
  company_id = 7;
  cik = 900;
  accession_number = 500;
  public_time = moment 20;
  intended_execution_date = 21;
  observed_target_execution_date = 25;
  disposed_at = moment 25;
  reason = 77;
}

disposed :
    (dispose_stale_selection next_day 77 selection (moment 25) files).1
    ≡ record { queue = some emptied; store = some (audited ∷ []) }
unfolding dispose_stale_selection
disposed = refl

queued_loads : load (some queued) ≡ ok queued
unfolding load
queued_loads = refl

dispose_stale_selection-IsAccounted_example :
    IsAccounted 61 (dispose_stale_selection next_day 77 selection (moment 25) files).1
dispose_stale_selection-IsAccounted_example =
    dispose_stale_selection-IsAccounted next_day 77 selection (moment 25) files 61
      (record { state = queued; loaded = queued_loads; found = refl })
