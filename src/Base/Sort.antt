-- ===== src/Base/Sort.antt =====
-- Python's `sorted`, which is stable, as insertion sort by the strict order of the sort key.
use Prim.Native.Nat.{ℕ, suc}
use mathlib.Core.Path.{◌≡◌, refl}
use mathlib.Core.Logic.{inl, inr}
use mathlib.Core.Bool.{Bool, true, false, ◌||◌}
use mathlib.Core.Option.{some}
use mathlib.Core.List.{List, [], ◌∷◌}
use native.Mathlib.Omega.{arith}
use stock_traiding.Base.Tests.{◌==◌, if◌then◌else◌, Bool-cases}
use stock_traiding.Base.Lists.{elem, Nodup, All, length}
use stock_traiding.Base.Dict.{keys, lookup}

module _ {V : Type 0} (before : V → V → Bool) where
  abbrev pub insert : V → List V → List V
  insert x [] = x ∷ []
  insert x (y ∷ ys) = if before y x then y ∷ insert x ys else x ∷ y ∷ ys

  abbrev pub sorted : List V → List V
  sorted [] = []
  sorted (x ∷ xs) = insert x (sorted xs)

  -- No item is followed at once by one that belongs before it.
  abbrev pub IsSorted : List V → Type 0
  IsSorted [] = Unit
  IsSorted (x ∷ []) = Unit
  IsSorted (x ∷ y ∷ ys) = (before y x ≡ false) × IsSorted (y ∷ ys)

  pub length-insert : (x : V) (xs : List V) → length (insert x xs) ≡ suc (length xs)
  length-insert x [] = refl
  length-insert x (y ∷ ys) = ground (arith, length-insert x ys)

  pub length-sorted : (xs : List V) → length (sorted xs) ≡ length xs
  length-sorted [] = refl
  length-sorted (x ∷ xs) = omega (arith, length-insert x (sorted xs), length-sorted xs)

  pub All-insert {κ} : (P : V → Type κ) (x : V) (xs : List V) → P x → All P xs → All P (insert x xs)
  All-insert P x [] p h = (p, tt)
  All-insert P x (y ∷ ys) p h = elim (Bool-cases (before y x)) [
    | inl e ↦ rw e (h.0, All-insert P x ys p h.1)
    | inr e ↦ rw e (p, h)
  ]

  insert-All {κ} : (P : V → Type κ) (x : V) (xs : List V) → All P (insert x xs) → P x × All P xs
  insert-All P x [] h = h
  insert-All P x (y ∷ ys) h = elim (Bool-cases (before y x)) [
    | inl e ↦
        let whole : P y × All P (insert x ys) = rw e at h in
        let (first, rest) = insert-All P x ys whole.1 in (first, (whole.0, rest))
    | inr e ↦ rw e at h
  ]

  pub sorted-All {κ} : (P : V → Type κ) (xs : List V) → All P (sorted xs) → All P xs
  sorted-All P [] h = tt
  sorted-All P (x ∷ xs) h =
      let (first, rest) = insert-All P x (sorted xs) h in (first, sorted-All P xs rest)

  pub All-sorted {κ} : (P : V → Type κ) (xs : List V) → All P xs → All P (sorted xs)
  All-sorted P [] h = tt
  All-sorted P (x ∷ xs) h = All-insert P x (sorted xs) h.0 (All-sorted P xs h.1)

  insert_first : (x : V) (xs : List V) → IsSorted (x ∷ xs) → insert x xs ≡ x ∷ xs
  insert_first x [] h = refl
  insert_first x (y ∷ ys) h = rw h.0

  -- Sorting a sorted sequence changes nothing.
  pub sorted_self : (xs : List V) → IsSorted xs → sorted xs ≡ xs
  sorted_self [] h = refl
  sorted_self (x ∷ []) h = refl
  sorted_self (x ∷ y ∷ ys) h = rw (sorted_self (y ∷ ys) h.1) (insert_first x (y ∷ ys) h)

  module _ (asym : (x y : V) → before x y ≡ true → before y x ≡ false) where
    insert-IsSorted_cons :
        (x z : V) (ys : List V)
        → before x z ≡ false
        → IsSorted (z ∷ ys)
        → IsSorted (z ∷ insert x ys)
    insert-IsSorted_cons x z [] p h = ground arith
    insert-IsSorted_cons x z (y ∷ ys) p h = elim (Bool-cases (before y x)) [
      | inl e ↦ rw e (h.0, insert-IsSorted_cons x y ys (asym y x e) h.1)
      | inr e ↦ rw e (p, (e, h.1))
    ]

    pub insert-IsSorted : (x : V) (xs : List V) → IsSorted xs → IsSorted (insert x xs)
    insert-IsSorted x [] h = tt
    insert-IsSorted x (y ∷ ys) h = elim (Bool-cases (before y x)) [
      | inl e ↦ rw e (insert-IsSorted_cons x y ys (asym y x e) h)
      | inr e ↦ rw e (e, h)
    ]

    pub sorted-IsSorted : (xs : List V) → IsSorted (sorted xs)
    sorted-IsSorted [] = tt
    sorted-IsSorted (x ∷ xs) = insert-IsSorted x (sorted xs) (sorted-IsSorted xs)

  module _ (key : V → ℕ) where
    elem-insert :
        (k : ℕ) (x : V) (xs : List V)
        → elem k (keys key (insert x xs)) ≡ (k == key x || elem k (keys key xs))
    elem-insert k x [] = refl
    elem-insert k x (y ∷ ys) = ground (arith, elem-insert k x ys)

    -- Sorting keeps the identities.
    pub elem-sorted : (k : ℕ) (xs : List V) → elem k (keys key (sorted xs)) ≡ elem k (keys key xs)
    elem-sorted k [] = refl
    elem-sorted k (x ∷ xs) = ground (arith, elem-insert k x (sorted xs), elem-sorted k xs)

    Nodup-insert :
        (x : V) (xs : List V)
        → elem (key x) (keys key xs) ≡ false
        → Nodup (keys key xs)
        → Nodup (keys key (insert x xs))
    Nodup-insert x [] e h = (refl, tt)
    Nodup-insert x (y ∷ ys) e h = ground (arith, Nodup-insert x ys, elem-insert (key y) x ys)

    pub Nodup-sorted : (xs : List V) → Nodup (keys key xs) → Nodup (keys key (sorted xs))
    Nodup-sorted [] h = tt
    Nodup-sorted (x ∷ xs) h =
        Nodup-insert x (sorted xs) (rw (elem-sorted (key x) xs) h.0) (Nodup-sorted xs h.1)

    lookup-insert :
        (k : ℕ) (x : V) (xs : List V)
        → elem (key x) (keys key xs) ≡ false
        → lookup key k (insert x xs) ≡ (if k == key x then some x else lookup key k xs)
    lookup-insert k x [] e = refl
    lookup-insert k x (y ∷ ys) e = ground (arith, lookup-insert k x ys)

    -- Sorting keeps what each identity stands for.
    pub lookup-sorted :
        (k : ℕ) (xs : List V) → Nodup (keys key xs) → lookup key k (sorted xs) ≡ lookup key k xs
    lookup-sorted k [] h = refl
    lookup-sorted k (x ∷ xs) h =
        rw (lookup-insert k x (sorted xs) (rw (elem-sorted (key x) xs) h.0), lookup-sorted k xs h.1)
