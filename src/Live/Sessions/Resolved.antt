-- ===== src/Live/Sessions/Resolved.antt =====
-- Which sessions the resolver of src/stock_trading/live/session_calendar.py answers.
use stock_traiding.Base.{
  ℕ, zero, suc, ◌+◌, ◌-◌, ◌≤◌, ◌<◌, ◌≡◌, ◌⊎◌, ◌↔◌, inl, inr, ap, Bool, true, false, [], ◌∷◌,
  Datetime, datetime_lt, ok, ok-injective, raise, runtime_error, Error, ◌==◌, if◌then◌else◌, select,
  arith, Bool-cases, subst,
}
use stock_traiding.Live.Sessions.{
  Exchange, days_from, first_of, last_from, last_of, sessions_in_range, first_session_after,
  previous_session, execution_date, cycle_execution_date, last_completed_session,
  conservative_first_tradable_time, next_open_timestamp, decision_market_date,
}

-- The first day of a range that passes a test, and the last one
record IsFirst (test : ℕ → Bool) (start stop day : ℕ) : Type 0 where
  pub start_le : start ≤ day
  pub before_stop : day < stop
  pub passes : test day ≡ true
  pub none_before : (x : ℕ) → start ≤ x → x < day → test x ≡ false

record IsLast (test : ℕ → Bool) (start stop day : ℕ) : Type 0 where
  pub start_le : start ≤ day
  pub before_stop : day < stop
  pub passes : test day ≡ true
  pub none_after : (x : ℕ) → day < x → x < stop → test x ≡ false

first_of-IsFirst :
    (test : ℕ → Bool) (e : Error) (start n day : ℕ)
    → first_of (raise e) (select test (days_from start n)) ≡ ok day
    → IsFirst test start (start + n) day
first_of-IsFirst test e start zero day h = cc
first_of-IsFirst test e start (suc n) day h = elim (Bool-cases (test start)) [
  | inl found ↦
      let same : start ≡ day = ok-injective (rw found at h) in
      record {
        start_le = omega arith;
        before_stop = omega arith;
        passes = subst (λ x. test x ≡ true) same found;
        none_before = λ x low high. absurd (omega arith);
      }
  | inr missing ↦
      let rest = first_of-IsFirst test e (start + 1) n day (rw missing at h) in
      record {
        start_le = omega (arith, rest.start_le);
        before_stop = omega (arith, rest.before_stop);
        passes = rest.passes;
        none_before = λ x low high. elim (Bool-cases (x == start)) [
          | inl same ↦ subst (λ y. test y ≡ false) (ground arith) missing
          | inr other ↦ rest.none_before x (ground arith) high
        ];
      }
]

first_of-eq-ok :
    (test : ℕ → Bool) (e : Error) (start n day : ℕ)
    → IsFirst test start (start + n) day
    → first_of (raise e) (select test (days_from start n)) ≡ ok day
first_of-eq-ok test e start zero day h =
    absurd (let a = h.start_le in let b = h.before_stop in omega arith)
first_of-eq-ok test e start (suc n) day h = elim (Bool-cases (test start)) [
  | inl found ↦
      let same : start ≡ day = first_is test start (start + suc n) day h found in
      rw found (ap ok same)
  | inr missing ↦ rw missing (
      first_of-eq-ok test e (start + 1) n day (record {
        start_le = later test start (start + suc n) day h missing;
        before_stop = omega (arith, h.before_stop);
        passes = h.passes;
        none_before = λ x low high. h.none_before x (omega arith) high;
      }))
]
  where
    first_is :
        (test : ℕ → Bool) (start stop day : ℕ)
        → IsFirst test start stop day
        → test start ≡ true
        → start ≡ day
    first_is test start stop day h found = elim (Bool-cases (start == day)) [
      | inl same ↦ ground arith
      | inr other ↦
          let low = h.start_le in let no = h.none_before start (omega arith) (ground arith) in cc
    ]

    later :
        (test : ℕ → Bool) (start stop day : ℕ)
        → IsFirst test start stop day
        → test start ≡ false
        → start + 1 ≤ day
    later test start stop day h missing = elim (Bool-cases (start == day)) [
      | inl same ↦
          let e : day ≡ start = ground arith in
          let yes = subst (λ x. test x ≡ true) e h.passes in cc
      | inr other ↦ let low = h.start_le in ground arith
    ]

longer :
    (test : ℕ → Bool) (start n day : ℕ)
    → IsLast test (start + 1) (start + 1 + n) day
    → IsLast test start (start + suc n) day
longer test start n day rest = record {
  start_le = omega (arith, rest.start_le);
  before_stop = omega (arith, rest.before_stop);
  passes = rest.passes;
  none_after = λ x low high. rest.none_after x low (omega arith);
}

none_in :
    (test : ℕ → Bool) (start n last day : ℕ)
    → last_from last (select test (days_from start n)) ≡ day
    → (((last ≡ day) × ((x : ℕ) → start ≤ x → x < start + n → test x ≡ false))
        ⊎ IsLast test start (start + n) day)
none_in test start zero last day h = inl (h, λ x low high. absurd (omega arith))
none_in test start (suc n) last day h = elim (Bool-cases (test start)) [
  | inl found ↦ elim (none_in test (start + 1) n start day (rw found at h)) [
    | inl rest ↦ inr (record {
      start_le = omega (arith, rest.0);
      before_stop = omega (arith, rest.0);
      passes = subst (λ x. test x ≡ true) rest.0 found;
      none_after = λ x low high. rest.1 x (omega (arith, rest.0)) (omega arith);
    })
    | inr rest ↦ inr (longer test start n day rest)
  ]
  | inr missing ↦ elim (none_in test (start + 1) n last day (rw missing at h)) [
    | inl rest ↦ inl (
      rest.0,
      λ x low high. elim (Bool-cases (x == start)) [
        | inl same ↦ subst (λ y. test y ≡ false) (ground arith) missing
        | inr other ↦ rest.1 x (ground arith) (omega arith)
      ],
    )
    | inr rest ↦ inr (longer test start n day rest)
  ]
]

last_of-IsLast :
    (test : ℕ → Bool) (e : Error) (start n day : ℕ)
    → last_of (raise e) (select test (days_from start n)) ≡ ok day
    → IsLast test start (start + n) day
last_of-IsLast test e start zero day h = cc
last_of-IsLast test e start (suc n) day h = elim (Bool-cases (test start)) [
  | inl found ↦ elim (none_in test (start + 1) n start day (ok-injective (rw found at h))) [
    | inl rest ↦ record {
      start_le = omega (arith, rest.0);
      before_stop = omega (arith, rest.0);
      passes = subst (λ x. test x ≡ true) rest.0 found;
      none_after = λ x low high. rest.1 x (omega (arith, rest.0)) (omega arith);
    }
    | inr rest ↦ longer test start n day rest
  ]
  | inr missing ↦
      longer test start n day (last_of-IsLast test e (start + 1) n day (rw missing at h))
]

module _ (exchange : Exchange) where
  -- The first session after a day, at most two weeks later
  pub record IsNextSession (day session : ℕ) : Type 0 where
    pub later : day < session
    pub near : session ≤ day + 14
    pub is_open : exchange.is_session session ≡ true
    pub none_between : (x : ℕ) → day < x → x < session → exchange.is_session x ≡ false

  range_of_length :
      (first last n : ℕ)
      → last + 1 - first ≡ n
      → sessions_in_range exchange first last ≡ select exchange.is_session (days_from first n)
  range_of_length first last n e =
      ap (λ count. select exchange.is_session (days_from first count)) e

  next_session :
      (day session : ℕ)
      → (first_session_after exchange day ≡ ok session) ↔ IsNextSession day session
  next_session day session =
      let range = range_of_length (day + 1) (day + 14) 14 (omega arith) in
      let missing = runtime_error "XNYS calendar has no session" in
      (
        λ h.
            let found =
              first_of-IsFirst exchange.is_session missing (day + 1) 14 session (rw range at h) in
            record {
              later = omega (arith, found.start_le);
              near = omega (arith, found.before_stop);
              is_open = found.passes;
              none_between = λ x low high. found.none_before x (omega arith) high;
            },
        λ n. rw range (
            first_of-eq-ok exchange.is_session missing (day + 1) 14 session (record {
              start_le = omega (arith, n.later);
              before_stop = omega (arith, n.near);
              passes = n.is_open;
              none_before = λ x low high. n.none_between x (omega arith) high;
            })),
      )

  -- The execution date of a publication is the first session after its New York date, when one lies
  -- within two weeks; without one there is none.
  pub execution_date_iff :
      (publication_time : Datetime) (session : ℕ)
      → (execution_date exchange publication_time ≡ ok session)
        ↔ IsNextSession (decision_market_date exchange publication_time) session
  unfolding execution_date
  execution_date_iff publication_time session =
      next_session (decision_market_date exchange publication_time) session

  -- A session that execution picks is accepted as the first tradable day of the publication.
  pub execution_date_tradable :
      (publication_time : Datetime) (session : ℕ)
      → execution_date exchange publication_time ≡ ok session
      → conservative_first_tradable_time exchange publication_time session
        ≡ ok (next_open_timestamp exchange session)
  unfolding conservative_first_tradable_time
  execution_date_tradable publication_time session h =
      let later = ((execution_date_iff publication_time session).0 h).later in ground arith

  one_day :
      (day : ℕ)
      → sessions_in_range exchange day day ≡ (if exchange.is_session day then day ∷ [] else [])
  one_day day = range_of_length day day 1 (omega arith)

  -- The first session that is still to open: at once the day itself, when it is a session that has not
  -- opened yet, and otherwise the next session
  pub record IsTarget (cutoff : Datetime) (today session : ℕ) : Type 0 where
    pub not_before : today ≤ session
    pub is_open : exchange.is_session session ≡ true
    pub to_open : session ≡ today → datetime_lt cutoff (exchange.open_of today) ≡ true
    pub none_between : (x : ℕ) → today < x → x < session → exchange.is_session x ≡ false
    pub today_over :
        today < session
        → exchange.is_session today ≡ true
        → datetime_lt cutoff (exchange.open_of today) ≡ false

  next-IsTarget :
      (cutoff : Datetime) (today session : ℕ)
      → (exchange.is_session today ≡ true → datetime_lt cutoff (exchange.open_of today) ≡ false)
      → first_session_after exchange today ≡ ok session
      → IsTarget cutoff today session
  next-IsTarget cutoff today session over h =
      let next = (next_session today session).0 h in
      let later = next.later in
      record {
        not_before = omega arith;
        is_open = next.is_open;
        to_open = λ same. absurd (omega arith);
        none_between = next.none_between;
        today_over = λ _. over;
      }

  -- A PAPER cycle that is given an execution date targets the first session that can still open for
  -- it: today's, before its opening, and else the next one.
  pub cycle_execution_date-IsTarget :
      (as_of : Datetime) (session : ℕ)
      → cycle_execution_date exchange as_of ≡ ok session
      → IsTarget as_of (decision_market_date exchange as_of) session
  unfolding cycle_execution_date
  cycle_execution_date-IsTarget as_of session h =
      let today = decision_market_date exchange as_of in
      let given = rw (one_day today) at h in
      elim (Bool-cases (exchange.is_session today)) [
        | inr closed ↦ next-IsTarget as_of today session (λ yes. cc) (rw closed at given)
        | inl meets ↦
            let timed = rw meets at given in
            elim (Bool-cases (datetime_lt as_of (exchange.open_of today))) [
              | inr over ↦ next-IsTarget as_of today session (λ _. over) (rw over at timed)
              | inl early ↦
                  let same : today ≡ session = ok-injective (rw early at timed) in
                  record {
                    not_before = omega arith;
                    is_open = subst (λ x. exchange.is_session x ≡ true) same meets;
                    to_open = λ _. early;
                    none_between = λ x low high. absurd (omega arith);
                    today_over = λ late. absurd (omega arith);
                  }
            ]
      ]

  -- The last session that has closed
  pub record IsCompleted (cutoff : Datetime) (today session : ℕ) : Type 0 where
    pub not_after : session ≤ today
    pub is_open : exchange.is_session session ≡ true
    pub closed : session ≡ today → datetime_lt cutoff (exchange.close_of today) ≡ false
    pub none_between : (x : ℕ) → session < x → x < today → exchange.is_session x ≡ false
    pub today_open :
        session < today
        → exchange.is_session today ≡ true
        → datetime_lt cutoff (exchange.close_of today) ≡ true

  previous-IsCompleted :
      (cutoff : Datetime) (today session : ℕ)
      → 14 < today
      → (exchange.is_session today ≡ true → datetime_lt cutoff (exchange.close_of today) ≡ true)
      → previous_session exchange today ≡ ok session
      → IsCompleted cutoff today session
  previous-IsCompleted cutoff today session late going h =
      let range = range_of_length (today - 14) (today - 1) 14 (omega arith) in
      let missing = runtime_error "XNYS calendar has no completed session" in
      let found =
        last_of-IsLast exchange.is_session missing (today - 14) 14 session (rw range at h) in
      let before = found.before_stop in
      record {
        not_after = omega arith;
        is_open = found.passes;
        closed = λ same. absurd (omega arith);
        none_between = λ x low high. found.none_after x low (omega arith);
        today_open = λ _. going;
      }

  -- The watermark of the market data, on a day that is later than the first two weeks of the
  -- calendar, is the last session that has closed: never one in progress, and none lies between.
  pub last_completed_session-IsCompleted :
      (as_of : Datetime) (session : ℕ)
      → 14 < decision_market_date exchange as_of
      → last_completed_session exchange as_of ≡ ok session
      → IsCompleted as_of (decision_market_date exchange as_of) session
  unfolding last_completed_session
  last_completed_session-IsCompleted as_of session late h =
      let today = decision_market_date exchange as_of in
      let given = rw (one_day today) at h in
      elim (Bool-cases (exchange.is_session today)) [
        | inr shut ↦ previous-IsCompleted as_of today session late (λ yes. cc) (rw shut at given)
        | inl meets ↦
            let timed = rw meets at given in
            elim (Bool-cases (datetime_lt as_of (exchange.close_of today))) [
              | inl going ↦
                  previous-IsCompleted as_of today session late (λ _. going) (rw going at timed)
              | inr over ↦
                  let same : today ≡ session = ok-injective (rw over at timed) in
                  record {
                    not_after = omega arith;
                    is_open = subst (λ x. exchange.is_session x ≡ true) same meets;
                    closed = λ _. over;
                    none_between = λ x low high. absurd (omega arith);
                    today_open = λ early. absurd (omega arith);
                  }
            ]
      ]
