-- ===== src/Base/Removal.antt =====
-- Removing from a dict, one by one, the items that a comprehension has found.
use Prim.Native.Nat.{ℕ, ◌+◌}
use mathlib.Core.Path.{◌≡◌, refl, sym, ap, ◌∙◌}
use mathlib.Core.Logic.{inl, inr}
use mathlib.Core.Bool.{Bool, true, false, not}
use mathlib.Core.List.{List, [], ◌∷◌}
use native.Mathlib.Omega.{arith}
use stock_traiding.Base.Tests.{◌==◌, if◌then◌else◌, Bool-cases}
use stock_traiding.Base.Lists.{elem, Nodup, All, select, length}
use stock_traiding.Base.Dict.{keys, pop}
use stock_traiding.Base.Sort.{sorted, elem-sorted}

module _ {V : Type 0} where
  pub All-select {κ} :
      (P : V → Type κ) (p : V → Bool) (xs : List V) → All P xs → All P (select p xs)
  All-select P p [] h = tt
  All-select P p (x ∷ xs) h = elim (Bool-cases (p x)) [
    | inl e ↦ rw e (h.0, All-select P p xs h.1)
    | inr e ↦ rw e (All-select P p xs h.1)
  ]

  -- What a comprehension keeps passes its test.
  pub select-All : (p : V → Bool) (xs : List V) → All (λ x. p x ≡ true) (select p xs)
  select-All p [] = tt
  select-All p (x ∷ xs) = elim (Bool-cases (p x)) [
    | inl e ↦ rw e (e, select-All p xs)
    | inr e ↦ rw e (select-All p xs)
  ]

  -- A test and its negation share out a list.
  pub length-select :
      (p : V → Bool) (xs : List V)
      → length (select p xs) + length (select (λ x. not (p x)) xs) ≡ length xs
  length-select p [] = refl
  length-select p (x ∷ xs) = ground (arith, length-select p xs)

  select_cong : (p q : V → Bool) (xs : List V) → All (λ x. p x ≡ q x) xs → select p xs ≡ select q xs
  select_cong p q [] h = refl
  select_cong p q (x ∷ xs) h = ground (arith, h.0, select_cong p q xs h.1)

  select_twice :
      (p q : V → Bool) (xs : List V)
      → select p (select q xs) ≡ select (λ x. if q x then p x else false) xs
  select_twice p q [] = refl
  select_twice p q (x ∷ xs) = elim (Bool-cases (q x)) [
    | inl e ↦ rw e (ground (arith, select_twice p q xs))
    | inr e ↦ rw e (select_twice p q xs)
  ]

  select_all : (p : V → Bool) (xs : List V) → All (λ x. p x ≡ true) xs → select p xs ≡ xs
  select_all p [] h = refl
  select_all p (x ∷ xs) h = ground (arith, h.0, select_all p xs h.1)

module _ {V : Type 0} (key : V → ℕ) where
  -- `for k in ks: del d[k]`
  abbrev pub pop_all : List ℕ → List V → List V
  pop_all [] d = d
  pop_all (k ∷ ks) d = pop_all ks (pop key k d)

  elem-keys-select :
      (k : ℕ) (p : V → Bool) (d : List V)
      → elem k (keys key d) ≡ false
      → elem k (keys key (select p d)) ≡ false
  elem-keys-select k p [] h = refl
  elem-keys-select k p (x ∷ d) h = ground (arith, elem-keys-select k p d)

  pub Nodup-select :
      (p : V → Bool) (d : List V) → Nodup (keys key d) → Nodup (keys key (select p d))
  Nodup-select p [] h = tt
  Nodup-select p (x ∷ d) h = ground (arith, Nodup-select p d h.1, elem-keys-select (key x) p d h.0)

  other_keys : (k : ℕ) (d : List V) → elem k (keys key d) ≡ false → All (λ x. k == key x ≡ false) d
  other_keys k [] h = tt
  other_keys k (x ∷ d) h = (ground arith, other_keys k d (ground arith))

  All-not : (p : V → Bool) (d : List V) → All (λ x. p x ≡ false) d → All (λ x. not (p x) ≡ true) d
  All-not p [] h = tt
  All-not p (x ∷ d) h = (ground (arith, h.0), All-not p d h.1)

  pop-eq-select :
      (k : ℕ) (d : List V) → Nodup (keys key d) → pop key k d ≡ select (λ x. not (k == key x)) d
  pop-eq-select k [] h = refl
  pop-eq-select k (x ∷ d) h = elim (Bool-cases (k == key x)) [
    | inl e ↦
        let rest =
          select_all (λ y. not (k == key y)) d
            (All-not (λ y. k == key y) d (other_keys k d (ground (arith, h.0, e)))) in
        rw e (sym rest)
    | inr e ↦ rw e (ap (◌∷◌ x) (pop-eq-select k d h.1))
  ]

  not_or :
      (k : ℕ) (ks : List ℕ) (d : List V)
      → All
          (λ x.
            (if not (k == key x) then not (elem (key x) ks) else false)
            ≡ not (elem (key x) (k ∷ ks)))
          d
  not_or k ks [] = tt
  not_or k ks (x ∷ d) = (ground arith, not_or k ks d)

  all_true : (d : List V) → All (λ x. true ≡ true) d
  all_true [] = tt
  all_true (x ∷ d) = (refl, all_true d)

  pub pop_all-eq-select :
      (ks : List ℕ) (d : List V)
      → Nodup (keys key d)
      → pop_all ks d ≡ select (λ x. not (elem (key x) ks)) d
  pop_all-eq-select [] d h = sym (select_all (λ x. true) d (all_true d))
  pop_all-eq-select (k ∷ ks) d h =
      let others = λ (x : V). not (k == key x) in
      rw (pop-eq-select k d h) (
        pop_all-eq-select ks (select others d) (Nodup-select others d h)
        ∙ select_twice (λ x. not (elem (key x) ks)) others d
        ∙ select_cong _ _ d (not_or k ks d))

  widen :
      (p : V → Bool) (x : V) (d ds : List V)
      → All (λ y. elem (key y) (keys key (select p d)) ≡ p y) ds
      → All (λ y. key x == key y ≡ false) ds
      → All (λ y. elem (key y) (keys key (select p (x ∷ d))) ≡ p y) ds
  widen p x d [] h o = tt
  widen p x d (y ∷ ds) h o = (ground (arith, h.0, o.0), widen p x d ds h.1 o.1)

  unfound :
      (before : V → V → Bool) (p : V → Bool) (d ds : List V)
      → All (λ x. elem (key x) (keys key (select p d)) ≡ p x) ds
      → All (λ x. not (elem (key x) (keys key (sorted before (select p d)))) ≡ not (p x)) ds
  unfound before p d [] h = tt
  unfound before p d (x ∷ ds) h =
      (ap not (elem-sorted before key (key x) (select p d) ∙ h.0), unfound before p d ds h.1)

  found_keys :
      (p : V → Bool) (d : List V)
      → Nodup (keys key d)
      → All (λ x. elem (key x) (keys key (select p d)) ≡ p x) d
  found_keys p [] h = tt
  found_keys p (x ∷ d) h = (
    elim (Bool-cases (p x)) [
      | inl e ↦ ground (arith, e)
      | inr e ↦ rw e (elem-keys-select (key x) p d h.0)
    ],
    widen p x d d (found_keys p d h.1) (other_keys (key x) d h.0),
  )

  -- To remove what a test finds, in any order, is to keep what it does not find.
  pub pop_all_found :
      (before : V → V → Bool) (p : V → Bool) (d : List V)
      → Nodup (keys key d)
      → pop_all (keys key (sorted before (select p d))) d ≡ select (λ x. not (p x)) d
  pop_all_found before p d h =
      pop_all-eq-select (keys key (sorted before (select p d))) d h
      ∙ select_cong _ _ d (unfound before p d d (found_keys p d h))
