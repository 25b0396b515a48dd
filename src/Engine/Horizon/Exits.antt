-- ===== src/Engine/Horizon/Exits.antt =====
-- The orders of the fixed-horizon manager of src/stock_trading/positions/horizon.py.
use stock_traiding.Base.{
  ℕ, zero, suc, ◌≡◌, refl, ap, true, false, not, pos, negsuc, combine, ◌++◌, raise_if-eq-ok, Option,
  none, some, List, [], ◌∷◌, Float, Result, ok, raise, raise_if, >>=-eq-ok, >>-eq-ok, ok-injective,
  All, Datetime, ℤ, int_le, leb, ltb, select, length, subst, arith, Bool-cases, inl, inr,
}
use stock_traiding.Base.Sort.{sorted, All-sorted}
use stock_traiding.Base.Every.{All-Memᴰ}
use mathlib.Core.List.{Memᴰ}
use stock_traiding.Engine.Contracts.{
  FeatureValue, float, int, str, bool, null, metadata_get, PortfolioPosition, PortfolioSnapshot,
  OrderIntent, sell, check_order,
}
use stock_traiding.Engine.Naming.{Naming}
use stock_traiding.Engine.Horizon.{
  HorizonSources, nth, exit_order, exit_at, exit_after, exit_of, add_exit, exits_of, exit_orders,
  observed, horizon_of,
}

some_injective : {A : Type 0} {a b : A} → (some a ≡ some b) → a ≡ b
some_injective h = cc

-- The day is the one of the days with `n` of the days up to the limit before it, and it is one up to
-- the limit itself.
pub record IsNthUpTo (limit n : ℕ) (days : List ℕ) (day : ℕ) : Type 0 where
  pub earlier : List ℕ
  pub later : List ℕ
  pub split : days ≡ earlier ++ day ∷ later
  pub counted : length (select (λ d. leb d limit) earlier) ≡ n
  pub seen : leb day limit ≡ true

after_seen :
    (limit n : ℕ) (d : ℕ) (days : List ℕ) (day : ℕ)
    → leb d limit ≡ true
    → IsNthUpTo limit n days day
    → IsNthUpTo limit (suc n) (d ∷ days) day
after_seen limit n d days day e i = record {
  earlier = d ∷ i.earlier;
  later = i.later;
  split = ap (◌∷◌ d) i.split;
  counted = rw e (ap suc i.counted);
  seen = i.seen;
}

after_unseen :
    (limit n : ℕ) (d : ℕ) (days : List ℕ) (day : ℕ)
    → leb d limit ≡ false
    → IsNthUpTo limit n days day
    → IsNthUpTo limit n (d ∷ days) day
after_unseen limit n d days day e i = record {
  earlier = d ∷ i.earlier;
  later = i.later;
  split = ap (◌∷◌ d) i.split;
  counted = rw e i.counted;
  seen = i.seen;
}

nth-select :
    (limit n : ℕ) (days : List ℕ) (day : ℕ)
    → nth n (select (λ d. leb d limit) days) ≡ some day
    → IsNthUpTo limit n days day
nth-select limit n [] day h = cc
nth-select limit zero (d ∷ days) day h = elim (Bool-cases (leb d limit)) [
  | inl e ↦
      let same = some_injective (rw e at h) in
      subst (IsNthUpTo limit zero (d ∷ days)) same
        (record { earlier = []; later = days; split = refl; counted = refl; seen = e })
  | inr e ↦ after_unseen limit zero d days day e (nth-select limit zero days day (rw e at h))
]
nth-select limit (suc n) (d ∷ days) day h = elim (Bool-cases (leb d limit)) [
  | inl e ↦ after_seen limit n d days day e (nth-select limit n days day (rw e at h))
  | inr e ↦ after_unseen limit (suc n) d days day e (nth-select limit (suc n) days day (rw e at h))
]

module _ {F : Type 0} ⦃fl : Float F⦄ (naming : Naming) (sources : HorizonSources F)
    (max_session_lookback : ℤ) where
  -- A checked sale of an open position, dated to the session of its security that completes the
  -- horizon of the position, among the sessions that the cycle can see.
  pub record IsExit (portfolio : PortfolioSnapshot F) (as_of : Datetime) (o : OrderIntent F)
      : Type 0 where
    pub position : PortfolioPosition F
    pub held : Memᴰ position portfolio.positions
    pub of_strategy : o.strategy_id ≡ position.strategy_id
    pub of_company : o.company_id ≡ position.company_id
    pub of_security : o.security_id ≡ position.security_id
    pub sells : o.side ≡ sell
    pub before_last : ℕ
    pub horizon :
        horizon_of naming sources max_session_lookback
          (metadata_get "horizon_sessions" position.metadata)
        ≡ ok (pos (suc before_last))
    pub within : int_le (pos (suc before_last)) max_session_lookback ≡ true
    pub day : ℕ
    pub completes :
        IsNthUpTo as_of.date before_last
          (sources.bars_from position.security_id position.opened_on (pos (suc before_last)))
          day
    pub dated : o.created_at ≡ combine day as_of.timetz
    pub due : o.execute_on ≡ some day
    pub checked : check_order o ≡ ok tt

  abbrev IsExitIfAny : PortfolioSnapshot F → Datetime → Option (OrderIntent F) → Type 0
  IsExitIfAny portfolio as_of none = Unit
  IsExitIfAny portfolio as_of (some o) = IsExit portfolio as_of o

  exit_at-IsExit :
      (portfolio : PortfolioSnapshot F) (p : PortfolioPosition F) (as_of : Datetime) (n : ℕ)
      (day : Option ℕ) (count : ℕ) (r : Option (OrderIntent F))
      → Memᴰ p portfolio.positions
      → horizon_of naming sources max_session_lookback (metadata_get "horizon_sessions" p.metadata)
        ≡ ok (pos (suc n))
      → int_le (pos (suc n)) max_session_lookback ≡ true
      → ((d : ℕ)
          → day ≡ some d
          → IsNthUpTo as_of.date n (sources.bars_from p.security_id p.opened_on (pos (suc n))) d)
      → exit_at naming sources max_session_lookback p as_of (pos (suc n)) day count ≡ ok r
      → IsExitIfAny portfolio as_of r
  unfolding exit_at
  exit_at-IsExit portfolio p as_of n none count r there wanted fits f h =
      subst (IsExitIfAny portfolio as_of) (ok-injective h) tt
  exit_at-IsExit portfolio p as_of n (some d) count r there wanted fits f h =
      let made = exit_order naming sources max_session_lookback p as_of (pos (suc n)) count d in
      let (checked, k) = >>-eq-ok (check_order made) _ h in
      subst (IsExitIfAny portfolio as_of) (ok-injective k) (record {
        position = p;
        held = there;
        of_strategy = refl;
        of_company = refl;
        of_security = refl;
        sells = refl;
        before_last = n;
        horizon = wanted;
        within = fits;
        day = d;
        completes = f d refl;
        dated = refl;
        due = refl;
        checked = checked;
      })

  exit_after-IsExit :
      (portfolio : PortfolioSnapshot F) (p : PortfolioPosition F) (as_of : Datetime)
      (horizon : Result ℤ) (r : Option (OrderIntent F))
      → Memᴰ p portfolio.positions
      → horizon_of naming sources max_session_lookback (metadata_get "horizon_sessions" p.metadata)
        ≡ horizon
      → exit_after naming sources max_session_lookback p as_of horizon ≡ ok r
      → IsExitIfAny portfolio as_of r
  unfolding exit_after
  exit_after-IsExit portfolio p as_of (raise e) r there wanted h = cc
  exit_after-IsExit portfolio p as_of (ok (pos zero)) r there wanted h = cc
  exit_after-IsExit portfolio p as_of (ok (negsuc n)) r there wanted h = cc
  exit_after-IsExit portfolio p as_of (ok (pos (suc n))) r there wanted h =
      let horizon = pos (suc n) in
      let (fits, h2) = >>-eq-ok (raise_if (not (int_le horizon max_session_lookback)) _) _ h in
      let seen = observed naming sources max_session_lookback p as_of horizon in
      exit_at-IsExit portfolio p as_of n (nth n seen) (length seen) r there wanted
        (let e = raise_if-eq-ok _ _ fits in ground arith)
        (nth-select as_of.date n (sources.bars_from p.security_id p.opened_on horizon)) h2

  exit_of-IsExit :
      (portfolio : PortfolioSnapshot F) (p : PortfolioPosition F) (as_of : Datetime)
      (raw : FeatureValue F) (r : Option (OrderIntent F))
      → Memᴰ p portfolio.positions
      → metadata_get "horizon_sessions" p.metadata ≡ raw
      → exit_of naming sources max_session_lookback p as_of raw ≡ ok r
      → IsExitIfAny portfolio as_of r
  unfolding exit_of
  exit_of-IsExit portfolio p as_of null r there e h =
      subst (IsExitIfAny portfolio as_of) (ok-injective h) tt
  exit_of-IsExit portfolio p as_of (int n) r there e h =
      exit_after-IsExit portfolio p as_of (horizon_of naming sources max_session_lookback (int n)) r
        there (ap (horizon_of naming sources max_session_lookback) e) h
  exit_of-IsExit portfolio p as_of (bool b) r there e h =
      exit_after-IsExit portfolio p as_of (horizon_of naming sources max_session_lookback (bool b))
        r there (ap (horizon_of naming sources max_session_lookback) e) h
  exit_of-IsExit portfolio p as_of (float x) r there e h =
      exit_after-IsExit portfolio p as_of (horizon_of naming sources max_session_lookback (float x))
        r there (ap (horizon_of naming sources max_session_lookback) e) h
  exit_of-IsExit portfolio p as_of (str s) r there e h =
      exit_after-IsExit portfolio p as_of (horizon_of naming sources max_session_lookback (str s)) r
        there (ap (horizon_of naming sources max_session_lookback) e) h

  All-add_exit :
      (portfolio : PortfolioSnapshot F) (as_of : Datetime) (first : Option (OrderIntent F))
      (rest : List (OrderIntent F))
      → IsExitIfAny portfolio as_of first
      → All (IsExit portfolio as_of) rest
      → All (IsExit portfolio as_of) (add_exit naming sources max_session_lookback first rest)
  All-add_exit portfolio as_of none rest f a = a
  All-add_exit portfolio as_of (some o) rest f a = (f, a)

  exits_of-IsExit :
      (portfolio : PortfolioSnapshot F) (as_of : Datetime) (ps : List (PortfolioPosition F))
      (os : List (OrderIntent F))
      → All (λ p. Memᴰ p portfolio.positions) ps
      → exits_of naming sources max_session_lookback as_of ps ≡ ok os
      → All (IsExit portfolio as_of) os
  unfolding exits_of
  exits_of-IsExit portfolio as_of [] os there h =
      subst (All (IsExit portfolio as_of)) (ok-injective h) tt
  exits_of-IsExit portfolio as_of (p ∷ ps) os there h =
      let raw = metadata_get "horizon_sessions" p.metadata in
      let (first, e, h1) =
        >>=-eq-ok (exit_of naming sources max_session_lookback p as_of raw) _ h in
      let (rest, e1, h2) = >>=-eq-ok (exits_of naming sources max_session_lookback as_of ps) _ h1 in
      subst (All (IsExit portfolio as_of)) (ok-injective h2) (
        All-add_exit portfolio as_of first rest
          (exit_of-IsExit portfolio p as_of raw first there.0 refl e)
          (exits_of-IsExit portfolio as_of ps rest there.1 e1))

  -- Whatever the market database answers, each exit order of the fixed-horizon manager is a checked
  -- sale of a position of the portfolio, of its strategy, company and security. The position's
  -- horizon is a positive number of sessions within the lookback. The order is dated to, and to be
  -- executed on, a session that the database lists from the opening of the position on and that is
  -- not after the cycle, with just one session fewer than the horizon listed before it and not after
  -- the cycle.
  pub exit_orders-IsExit :
      (portfolio : PortfolioSnapshot F) (as_of : Datetime) (os : List (OrderIntent F))
      → exit_orders naming sources max_session_lookback portfolio as_of ≡ ok os
      → All (IsExit portfolio as_of) os
  unfolding exit_orders
  exit_orders-IsExit portfolio as_of os h =
      let before = λ (a b : PortfolioPosition F). ltb a.position_id b.position_id in
      exits_of-IsExit portfolio as_of (sorted before portfolio.positions) os
        (All-sorted before (λ p. Memᴰ p portfolio.positions) portfolio.positions
          (All-Memᴰ portfolio.positions))
        h
