-- ===== src/Base/Lists.antt =====
-- Lists over the native numbers, identities as sets, and the duplicate test of the source.
use Prim.Native.Nat.{ℕ, suc, ◌+◌, ◌≤◌}
use mathlib.Core.Path.{◌≡◌, refl}
use mathlib.Core.Logic.{◌↔◌, ◌⊎◌, inl, inr}
use mathlib.Core.Bool.{Bool, true, false, not, ◌||◌}
use mathlib.Core.List.{List, [], ◌∷◌, ◌++◌}
use native.Mathlib.Omega.{arith}
use stock_traiding.Base.Tests.{◌==◌, if◌then◌else◌}

module _ {ℓ} {A : Type ℓ} where
  abbrev pub length : List A → ℕ
  length [] = 0
  length (_ ∷ xs) = suc (length xs)

  pub length-append : (xs ys : List A) → length (xs ++ ys) ≡ length xs + length ys
  length-append [] ys = omega arith
  length-append (x ∷ xs) ys = omega (arith, length-append xs ys)

  abbrev pub All {κ} : (A → Type κ) → List A → Type κ
  All P [] = Unit
  All P (x ∷ xs) = P x × All P xs

  pub All-append {κ} : (P : A → Type κ) (xs ys : List A) → All P xs → All P ys → All P (xs ++ ys)
  All-append P [] ys _ q = q
  All-append P (x ∷ xs) ys (p, ps) q = (p, All-append P xs ys ps q)

  pub List-cases : (xs : List A) → (xs ≡ []) ⊎ ((x : A) × (rest : List A) × (xs ≡ x ∷ rest))
  List-cases [] = inl refl
  List-cases (x ∷ xs) = inr (x, xs, refl)

  -- A comprehension `[x for x in xs if test(x)]`.
  abbrev pub select : (A → Bool) → List A → List A
  select p [] = []
  select p (x ∷ xs) = if p x then x ∷ select p xs else select p xs

  abbrev pub any : (A → Bool) → List A → Bool
  any p [] = false
  any p (x ∷ xs) = p x || any p xs

-- `x in xs`, for identities.
abbrev pub elem : ℕ → List ℕ → Bool
elem x [] = false
elem x (y ∷ ys) = x == y || elem x ys

-- No identity stands twice.
abbrev pub Nodup : List ℕ → Type 0
Nodup [] = Unit
Nodup (x ∷ xs) = (elem x xs ≡ false) × Nodup xs

-- `set(xs)`: each identity once.
unfoldable pub to_set : List ℕ → List ℕ
to_set [] = []
to_set (x ∷ xs) = let rest = to_set xs in if elem x xs then rest else x ∷ rest

-- `len(xs) != len(set(xs))`
unfoldable pub has_duplicates : List ℕ → Bool
unfolding to_set
has_duplicates xs = not (length xs == length (to_set xs))

length-to_set-le : (xs : List ℕ) → length (to_set xs) ≤ length xs
unfolding to_set
length-to_set-le [] = omega arith
length-to_set-le (x ∷ xs) = ground (arith, length-to_set-le xs)

pub length-to_set_of_Nodup : (xs : List ℕ) → Nodup xs → length (to_set xs) ≡ length xs
unfolding to_set
length-to_set_of_Nodup [] h = refl
length-to_set_of_Nodup (x ∷ xs) h = ground (arith, length-to_set_of_Nodup xs h.1)

Nodup-of_length : (xs : List ℕ) → length (to_set xs) ≡ length xs → Nodup xs
unfolding to_set
Nodup-of_length [] h = tt
Nodup-of_length (x ∷ xs) h = ground (arith, Nodup-of_length xs, length-to_set-le xs)

-- The length test finds a repeated identity exactly when there is one.
pub has_duplicates_iff : (xs : List ℕ) → (has_duplicates xs ≡ false) ↔ Nodup xs
unfolding has_duplicates
has_duplicates_iff xs =
    (λ h. Nodup-of_length xs (ground arith), λ h. ground (arith, length-to_set_of_Nodup xs h))

pub elem-append : (x : ℕ) (xs ys : List ℕ) → elem x (xs ++ ys) ≡ (elem x xs || elem x ys)
elem-append x [] ys = refl
elem-append x (y ∷ xs) ys = ground (arith, elem-append x xs ys)

-- The identities of a loop that keeps the set `seen` and refuses what is in it.
abbrev pub NodupFrom : List ℕ → List ℕ → Type 0
NodupFrom seen [] = Unit
NodupFrom seen (x ∷ xs) = (elem x seen ≡ false) × NodupFrom (x ∷ seen) xs

abbrev pub Avoids : List ℕ → List ℕ → Type 0
Avoids seen [] = Unit
Avoids seen (x ∷ xs) = (elem x seen ≡ false) × Avoids seen xs

pub Avoids-cons :
    (y : ℕ) (seen xs : List ℕ) → Avoids (y ∷ seen) xs ↔ ((elem y xs ≡ false) × Avoids seen xs)
Avoids-cons y seen [] = (λ _. (refl, tt), λ _. tt)
Avoids-cons y seen (x ∷ xs) = (
  λ h. ground (arith, (Avoids-cons y seen xs).0 h.1),
  λ h. ground (arith, (Avoids-cons y seen xs).1),
)

pub Avoids-nil : (xs : List ℕ) → Avoids [] xs
Avoids-nil [] = tt
Avoids-nil (x ∷ xs) = (refl, Avoids-nil xs)

pub NodupFrom-split : (seen xs : List ℕ) → NodupFrom seen xs → Nodup xs × Avoids seen xs
NodupFrom-split seen [] h = (tt, tt)
NodupFrom-split seen (x ∷ xs) h =
    let (distinct, apart) = NodupFrom-split (x ∷ seen) xs h.1 in
    let (fresh, rest) = (Avoids-cons x seen xs).0 apart in ((fresh, distinct), (h.0, rest))

pub NodupFrom-join : (seen xs : List ℕ) → Nodup xs → Avoids seen xs → NodupFrom seen xs
NodupFrom-join seen [] h a = tt
NodupFrom-join seen (x ∷ xs) h a =
    (a.0, NodupFrom-join (x ∷ seen) xs h.1 ((Avoids-cons x seen xs).1 (h.0, a.1)))

-- Such a loop, begun with the empty set, accepts just the sequences without a repetition.
pub NodupFrom-iff : (xs : List ℕ) → NodupFrom [] xs ↔ Nodup xs
NodupFrom-iff xs = (λ h. (NodupFrom-split [] xs h).0, λ h. NodupFrom-join [] xs h (Avoids-nil xs))

-- `any(x not in ys for x in xs)` fails just when every identity of `xs` is in `ys`.
pub subset_iff :
    (xs ys : List ℕ)
    → (any (λ x. not (elem x ys)) xs ≡ false) ↔ ((x : ℕ) → elem x xs ≡ true → elem x ys ≡ true)
subset_iff [] ys = (λ _ x h. cc, λ _. refl)
subset_iff (y ∷ xs) ys = (
  λ h x m. ground (arith, (subset_iff xs ys).0, (subset_iff xs ys).0 (ground arith) x),
  λ h. let rest = (subset_iff xs ys).1 (λ x m. h x (ground arith)) in ground (arith, h y, rest),
)

-- No identity stands in both lists.
abbrev pub Apart : List ℕ → List ℕ → Type 0
Apart xs ys = (x : ℕ) → elem x xs ≡ true → elem x ys ≡ false

-- `set(xs) & set(ys)` is empty just when the lists are apart.
pub Apart-iff : (xs ys : List ℕ) → (any (λ x. elem x ys) xs ≡ false) ↔ Apart xs ys
Apart-iff [] ys = (λ _ x h. cc, λ _. refl)
Apart-iff (y ∷ xs) ys = (
  λ h x m. ground (arith, (Apart-iff xs ys).0 (ground arith) x),
  λ h. let rest = (Apart-iff xs ys).1 (λ x m. h x (ground arith)) in ground (arith, h y, rest),
)
