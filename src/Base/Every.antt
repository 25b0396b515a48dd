-- ===== src/Base/Every.antt =====
-- Predicates that hold of every item of a list, and the items of a comprehension.
use Prim.Native.Nat.{ℕ}
use mathlib.Core.Path.{◌≡◌, refl, sym, ap}
use mathlib.Core.Logic.{inl, inr}
use mathlib.Core.Bool.{Bool, true}
use mathlib.Core.List.{List, [], ◌∷◌, map, Memᴰ}
use mathlib.Core.List.Memᴰ
use native.Mathlib.Omega.{arith}
use stock_traiding.Base.Tests.{◌==◌, Bool-cases, eq_of_==}
use stock_traiding.Base.Lists.{All, select, elem}

module _ {V : Type 0} where
  pub All-map : {P Q : V → Type 0} (xs : List V) → ((x : V) → P x → Q x) → All P xs → All Q xs
  All-map [] f h = tt
  All-map (x ∷ xs) f h = (f x h.0, All-map xs f h.1)

  pub All_both : (P Q : V → Type 0) (xs : List V) → All P xs → All Q xs → All (λ x. P x × Q x) xs
  All_both P Q [] p q = tt
  All_both P Q (x ∷ xs) p q = ((p.0, q.0), All_both P Q xs p.1 q.1)

  -- What holds of the items that pass a test holds of every item that a comprehension keeps.
  pub All_selected :
      (P Q : V → Type 0) (test : V → Bool) (xs : List V)
      → ((x : V) → test x ≡ true → P x → Q x)
      → All P xs
      → All Q (select test xs)
  All_selected P Q test [] f h = tt
  All_selected P Q test (x ∷ xs) f h = elim (Bool-cases (test x)) [
    | inl e ↦ rw e (f x e h.0, All_selected P Q test xs f h.1)
    | inr e ↦ rw e (All_selected P Q test xs f h.1)
  ]

  pub All-Memᴰ : (xs : List V) → All (λ x. Memᴰ x xs) xs
  All-Memᴰ [] = tt
  All-Memᴰ (x ∷ xs) = (Memᴰ.head refl, All-map xs (λ y m. Memᴰ.tail m) (All-Memᴰ xs))

  one_further :
      (key : V → ℕ) (test : V → Bool) (k : ℕ) (x : V) (xs : List V)
      → ((y : V) × Memᴰ y xs × (key y ≡ k) × (test y ≡ true))
      → (y : V) × Memᴰ y (x ∷ xs) × (key y ≡ k) × (test y ≡ true)
  one_further key test k x xs (y, there, same, passes) = (y, Memᴰ.tail there, same, passes)

  -- A key among those of the items that pass a test is the key of such an item.
  pub item_of_key :
      (key : V → ℕ) (test : V → Bool) (k : ℕ) (xs : List V)
      → elem k (map key (select test xs)) ≡ true
      → (x : V) × Memᴰ x xs × (key x ≡ k) × (test x ≡ true)
  item_of_key key test k [] h = cc
  item_of_key key test k (x ∷ xs) h =
      let later = λ (m : elem k (map key (select test xs)) ≡ true).
        one_further key test k x xs (item_of_key key test k xs m) in
      elim (Bool-cases (test x)) [
        | inr e ↦ later (rw e at h)
        | inl e ↦ elim (Bool-cases (k == key x)) [
          | inl same ↦ (x, Memᴰ.head refl, sym (eq_of_== k (key x) same), e)
          | inr other ↦ later (rw (e, other) at h)
        ]
      ]

  pub key_of_item :
      (key : V → ℕ) (test : V → Bool) (x : V) (xs : List V)
      → Memᴰ x xs
      → test x ≡ true
      → elem (key x) (map key (select test xs)) ≡ true
  key_of_item key test x [] m h = absurd (Memᴰ.not-nil m)
  key_of_item key test x (y ∷ ys) m h = elim (Memᴰ.cases_cons m) [
    | inl e ↦ ground (arith, ap key e, ap test e, h)
    | inr there ↦ ground (arith, key_of_item key test x ys there h)
  ]

-- The items of the one list are items of the other, in the same order.
pub data IsSublist {V : Type 0} : List V → List V → Type 0 where
  nothing : IsSublist [] []
  keep_one : {xs ys : List V} (x : V) → IsSublist xs ys → IsSublist (x ∷ xs) (x ∷ ys)
  leave_out : {xs ys : List V} (y : V) → IsSublist xs ys → IsSublist xs (y ∷ ys)

-- The relation holds of the items of the two lists, taken in order.
abbrev pub AllPairs : {A B : Type 0} → (A → B → Type 0) → List A → List B → Type 0
AllPairs R [] [] = Unit
AllPairs R (x ∷ xs) (y ∷ ys) = R x y × AllPairs R xs ys
AllPairs R [] (y ∷ ys) = ⊥
AllPairs R (x ∷ xs) [] = ⊥
