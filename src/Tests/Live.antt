-- ===== src/Tests/Live.antt =====
-- Runs of the session resolver and of the order recovery (src/stock_trading/live) on an exchange that
-- is closed on two days of seven.
use stock_traiding.Base.{
  ℕ, ◌%◌, ◌≡◌, refl, none, some, List, [], ◌∷◌, ok, Datetime, ltb, arith, ◌↔◌,
}
use stock_traiding.Engine.Contracts.{OrderIntent, str, buy, sell}
use stock_traiding.Live.Sessions.{
  Exchange, execution_date, cycle_execution_date, last_completed_session, decision_market_date,
}
use stock_traiding.Live.Sessions.Resolved.{
  IsNextSession, execution_date_iff, IsTarget, cycle_execution_date-IsTarget, IsCompleted,
  last_completed_session-IsCompleted,
}
use stock_traiding.Live.Recovery.{receipt_champion_entry_order_ids}
use stock_traiding.Live.Recovery.Receipt.{
  IsReceipt, receipt_champion_entry_order_ids-IsReceipt, receipt_retry,
}
use stock_traiding.Tests.Samples.{Fixed, fixed_point, order}

abbrev moment : ℕ → ℕ → Datetime
moment day time = record { date = day; timetz = time }

abbrev exchange : Exchange
exchange = record {
  is_session = λ day. ltb (day % 7) 5;
  open_of = λ day. moment day 14;
  close_of = λ day. moment day 21;
  eastern_date = λ t. t.date;
  regular_open = λ day. moment day 14;
}

after_weekend : execution_date exchange (moment 704 20) ≡ ok 707
unfolding execution_date
after_weekend = refl

execution_date_iff_example :
    (execution_date exchange (moment 704 20) ≡ ok 707)
    ↔ IsNextSession exchange (decision_market_date exchange (moment 704 20)) 707
execution_date_iff_example = execution_date_iff exchange (moment 704 20) 707

before_open : cycle_execution_date exchange (moment 704 9) ≡ ok 704
unfolding cycle_execution_date
before_open = refl

after_open : cycle_execution_date exchange (moment 704 14) ≡ ok 707
unfolding cycle_execution_date
after_open = refl

cycle_execution_date-IsTarget_example :
    IsTarget exchange (moment 704 14) (decision_market_date exchange (moment 704 14)) 707
cycle_execution_date-IsTarget_example =
    cycle_execution_date-IsTarget exchange (moment 704 14) 707 after_open

in_progress : last_completed_session exchange (moment 707 20) ≡ ok 704
unfolding last_completed_session
in_progress = refl

last_completed_session-IsCompleted_example :
    IsCompleted exchange (moment 707 20) (decision_market_date exchange (moment 707 20)) 704
last_completed_session-IsCompleted_example =
    last_completed_session-IsCompleted exchange (moment 707 20) 704 (omega arith) in_progress

abbrev tagged : ℕ → ℕ → OrderIntent Fixed
tagged id batch = record (order buy id id none) { metadata = ("runtime_batch_id", str batch) ∷ [] }

abbrev journal : List (OrderIntent Fixed)
journal = tagged 43 9 ∷ tagged 41 9 ∷ tagged 42 8 ∷ order sell 44 4 none ∷ []

recovered :
    receipt_champion_entry_order_ids 9 7 (tagged 43 9 ∷ []) (some (ok journal)) ≡ ok (41 ∷ 43 ∷ [])
unfolding receipt_champion_entry_order_ids
recovered = refl

receipt_champion_entry_order_ids-IsReceipt_example :
    IsReceipt 9 7 (tagged 43 9 ∷ []) journal (41 ∷ 43 ∷ [])
receipt_champion_entry_order_ids-IsReceipt_example =
    receipt_champion_entry_order_ids-IsReceipt 9 7 (tagged 43 9 ∷ []) journal (41 ∷ 43 ∷ [])
      recovered

receipt_retry_example :
    receipt_champion_entry_order_ids {F = Fixed} 9 7 [] (some (ok journal)) ≡ ok (41 ∷ 43 ∷ [])
receipt_retry_example =
    receipt_retry 9 7 (tagged 43 9 ∷ []) [] (some (ok journal)) (41 ∷ 43 ∷ []) (λ id m. cc)
      recovered
