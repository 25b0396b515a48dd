-- ===== src/Backtest/Dates.antt =====
-- The sorted dates that the loops of src/stock_trading/backtest visit.
use stock_traiding.Base.{
  ℕ, ◌+◌, ◌<◌, ◌≡◌, refl, sym, ◌∙◌, ◌⊎◌, subst, true, false, ◌||◌, List, [], ◌∷◌, ltb, ◌==◌, elem,
  Nodup, All, to_set, length, select, Bool-cases, inl, inr, arith, if◌then◌else◌,
}
use stock_traiding.Base.Sort.{insert, sorted}

-- Each date is before all the later ones.
abbrev pub Ascending : List ℕ → Type 0
Ascending [] = Unit
Ascending (d ∷ ds) = All (λ x. d < x) ds × Ascending ds

elem-to_set : (x : ℕ) (xs : List ℕ) → elem x (to_set xs) ≡ elem x xs
unfolding to_set
elem-to_set x [] = refl
elem-to_set x (y ∷ xs) = ground (arith, elem-to_set x xs)

Nodup-to_set : (xs : List ℕ) → Nodup (to_set xs)
unfolding to_set
Nodup-to_set [] = tt
Nodup-to_set (y ∷ xs) = ground (arith, Nodup-to_set xs, elem-to_set y xs)

elem-insert : (k x : ℕ) (xs : List ℕ) → elem k (insert ltb x xs) ≡ (k == x || elem k xs)
elem-insert k x [] = refl
elem-insert k x (y ∷ ys) = ground (arith, elem-insert k x ys)

elem-sorted : (k : ℕ) (xs : List ℕ) → elem k (sorted ltb xs) ≡ elem k xs
elem-sorted k [] = refl
elem-sorted k (x ∷ xs) = ground (arith, elem-insert k x (sorted ltb xs), elem-sorted k xs)

All-insert :
    (d x : ℕ) (ys : List ℕ) → d < x → All (λ y. d < y) ys → All (λ y. d < y) (insert ltb x ys)
All-insert d x [] p h = (p, tt)
All-insert d x (y ∷ ys) p h = elim (Bool-cases (ltb y x)) [
  | inl e ↦ rw e (h.0, All-insert d x ys p h.1)
  | inr e ↦ rw e (p, h)
]

All_below : (d x : ℕ) (ys : List ℕ) → d < x → All (λ y. x < y) ys → All (λ y. d < y) ys
All_below d x [] p h = tt
All_below d x (y ∷ ys) p h = (let q = h.0 in omega arith, All_below d x ys p h.1)

Ascending-insert :
    (x : ℕ) (ys : List ℕ) → elem x ys ≡ false → Ascending ys → Ascending (insert ltb x ys)
Ascending-insert x [] e h = (tt, tt)
Ascending-insert x (y ∷ ys) e h = elim (Bool-cases (ltb y x)) [
  | inl b ↦ rw b (All-insert y x ys (ground arith) h.0, Ascending-insert x ys (ground arith) h.1)
  | inr b ↦ let less : x < y = ground arith in rw b ((less, All_below x y ys less h.0), h)
]

sorted-Ascending : (xs : List ℕ) → Nodup xs → Ascending (sorted ltb xs)
sorted-Ascending [] h = tt
sorted-Ascending (x ∷ xs) h =
    Ascending-insert x (sorted ltb xs) (elem-sorted x xs ∙ h.0) (sorted-Ascending xs h.1)

-- `sorted(set(…))` ascends, and holds just the given dates.
pub sorted_set-Ascending : (xs : List ℕ) → Ascending (sorted ltb (to_set xs))
sorted_set-Ascending xs = sorted-Ascending (to_set xs) (Nodup-to_set xs)

pub elem-sorted_set : (x : ℕ) (xs : List ℕ) → elem x (sorted ltb (to_set xs)) ≡ elem x xs
elem-sorted_set x xs = elem-sorted x (to_set xs) ∙ elem-to_set x xs

absent_later : (d : ℕ) (ds : List ℕ) → All (λ x. d < x) ds → elem d ds ≡ false
absent_later d [] h = refl
absent_later d (x ∷ ds) h = ground (arith, h.0, absent_later d ds h.1)

pub Ascending-Nodup : (ds : List ℕ) → Ascending ds → Nodup ds
Ascending-Nodup [] h = tt
Ascending-Nodup (d ∷ ds) h = (absent_later d ds h.0, Ascending-Nodup ds h.1)

-- The day is one of the days to come, or before all of them.
abbrev pub IsAhead : List ℕ → ℕ → Type 0
IsAhead days x = (elem x days ≡ true) ⊎ All (λ d. x < d) days

pub IsAhead-later :
    (day : ℕ) (days : List ℕ) (x : ℕ)
    → All (λ d. day < d) days
    → IsAhead (day ∷ days) x
    → IsAhead days x
IsAhead-later day days x up (inr before) = inr before.1
IsAhead-later day days x up (inl m) = elim (Bool-cases (x == day)) [
  | inl e ↦
      let same : x ≡ day = ground arith in inr (subst (λ y. All (λ d. y < d) days) (sym same) up)
  | inr e ↦ inl (ground arith)
]

-- A day to come that is after the first is one of the rest.
pub still_ahead :
    (day : ℕ) (days : List ℕ) (x : ℕ) → day < x → IsAhead (day ∷ days) x → elem x days ≡ true
still_ahead day days x less (inl m) = ground arith
still_ahead day days x less (inr before) = absurd (let p = before.0 in omega arith)

module _ {A : Type 0} (day_of : A → ℕ) where
  -- How many items the rounds of a loop over the days visit
  abbrev pub visited : List ℕ → List A → ℕ
  visited [] xs = 0
  visited (d ∷ ds) xs = length (select (λ x. day_of x == d) xs) + visited ds xs

  visited_nil : (ds : List ℕ) → visited ds [] ≡ 0
  visited_nil [] = refl
  visited_nil (d ∷ ds) = omega (arith, visited_nil ds)

  visited_cons :
      (ds : List ℕ) (x : A) (xs : List A)
      → Nodup ds
      → visited ds (x ∷ xs) ≡ (if elem (day_of x) ds then 1 else 0) + visited ds xs
  visited_cons [] x xs h = refl
  visited_cons (d ∷ ds) x xs h = ground (arith, visited_cons ds x xs h.1, h.0)

  -- A loop over different days that hold the day of every item visits each item once.
  pub visited-eq-length :
      (ds : List ℕ) (xs : List A)
      → Nodup ds
      → All (λ x. elem (day_of x) ds ≡ true) xs
      → visited ds xs ≡ length xs
  visited-eq-length ds [] n h = visited_nil ds
  visited-eq-length ds (x ∷ xs) n h =
      ground (arith, visited_cons ds x xs n, visited-eq-length ds xs n h.1, h.0)
