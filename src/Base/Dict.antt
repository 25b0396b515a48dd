-- ===== src/Base/Dict.antt =====
-- A Python dict that maps the identity of each item to the item, `{item.id: item for item in …}`:
-- the list of its values in insertion order, with the function that gives an item's identity.
use Prim.Native.Nat.{ℕ}
use mathlib.Core.Path.{◌≡◌, refl, sym, ◌∙◌, subst}
use mathlib.Core.Logic.{inl, inr}
use mathlib.Core.Bool.{Bool, false, ◌||◌, ◌&&◌, not}
use mathlib.Core.Option.{Option, none, some}
use mathlib.Core.List.{List, [], ◌∷◌, ◌++◌, map, append_assoc, append-nil}
use native.Mathlib.Omega.{arith}
use stock_traiding.Base.Tests.{◌==◌, if◌then◌else◌, is_some, Bool-cases}
use stock_traiding.Base.Lists.{elem, Nodup, All}

module _ {V : Type 0} (key : V → ℕ) where
  abbrev pub keys : List V → List ℕ
  keys = map key

  -- `d.get(k)`
  abbrev pub lookup : ℕ → List V → Option V
  lookup k [] = none
  lookup k (x ∷ d) = if k == key x then some x else lookup k d

  -- `k in d`
  abbrev pub has : ℕ → List V → Bool
  has k d = is_some (lookup k d)

  -- `d[item.id] = item`: a known identity keeps its place.
  abbrev pub put : V → List V → List V
  put x [] = x ∷ []
  put x (y ∷ d) = if key x == key y then x ∷ d else y ∷ put x d

  -- `d.setdefault(item.id, item)`
  abbrev pub set_default : V → List V → List V
  set_default x d = if has (key x) d then d else d ++ x ∷ []

  -- `d.pop(k, None)`
  abbrev pub pop : ℕ → List V → List V
  pop k [] = []
  pop k (x ∷ d) = if k == key x then d else x ∷ pop k d

  -- `for item in items: d[item.id] = item`
  abbrev pub put_all : List V → List V → List V
  put_all [] d = d
  put_all (x ∷ xs) d = put_all xs (put x d)

  -- `{item.id: item for item in items}`
  abbrev pub dict_of : List V → List V
  dict_of xs = put_all xs []

  pub has-eq-elem : (k : ℕ) (d : List V) → has k d ≡ elem k (keys d)
  has-eq-elem k [] = refl
  has-eq-elem k (x ∷ d) = ground (arith, has-eq-elem k d)

  pub lookup-put :
      (k : ℕ) (x : V) (d : List V)
      → lookup k (put x d) ≡ (if k == key x then some x else lookup k d)
  lookup-put k x [] = refl
  lookup-put k x (y ∷ d) = ground (arith, lookup-put k x d)

  pub elem-put :
      (k : ℕ) (x : V) (d : List V) → elem k (keys (put x d)) ≡ (k == key x || elem k (keys d))
  elem-put k x [] = refl
  elem-put k x (y ∷ d) = ground (arith, elem-put k x d)

  pub Nodup-put : (x : V) (d : List V) → Nodup (keys d) → Nodup (keys (put x d))
  Nodup-put x [] h = (refl, tt)
  Nodup-put x (y ∷ d) h = ground (arith, Nodup-put x d h.1, elem-put (key y) x d)

  pub All-put {κ} : (P : V → Type κ) (x : V) (d : List V) → P x → All P d → All P (put x d)
  All-put P x [] p h = (p, tt)
  All-put P x (y ∷ d) p h = elim (Bool-cases (key x == key y)) [
    | inl e ↦ rw e (p, h.1)
    | inr e ↦ rw e (h.0, All-put P x d p h.1)
  ]

  pub elem-pop :
      (k j : ℕ) (d : List V)
      → Nodup (keys d)
      → elem k (keys (pop j d)) ≡ (not (k == j) && elem k (keys d))
  elem-pop k j [] h = ground arith
  elem-pop k j (y ∷ d) h = ground (arith, elem-pop k j d h.1)

  pub Nodup-pop : (j : ℕ) (d : List V) → Nodup (keys d) → Nodup (keys (pop j d))
  Nodup-pop j [] h = tt
  Nodup-pop j (y ∷ d) h = ground (arith, Nodup-pop j d h.1, elem-pop (key y) j d h.1)

  pub All-pop {κ} : (P : V → Type κ) (j : ℕ) (d : List V) → All P d → All P (pop j d)
  All-pop P j [] h = tt
  All-pop P j (y ∷ d) h = elim (Bool-cases (j == key y)) [
    | inl e ↦ rw e h.1
    | inr e ↦ rw e (h.0, All-pop P j d h.1)
  ]

  pub key_of_lookup : (k : ℕ) (d : List V) {x : V} → lookup k d ≡ some x → key x ≡ k
  key_of_lookup k [] h = cc
  key_of_lookup k (y ∷ d) {x} h = grind (arith, key_of_lookup k d {x = x})

  pub All-lookup {κ} :
      (P : V → Type κ) (k : ℕ) (d : List V) {x : V} → All P d → lookup k d ≡ some x → P x
  All-lookup P k [] a h = cc
  All-lookup P k (y ∷ d) a h = elim (Bool-cases (k == key y)) [
    | inl e ↦ subst P (ground arith) a.0
    | inr e ↦ All-lookup P k d a.1 (rw e at h)
  ]

  pub elem-keys-append :
      (k : ℕ) (d ys : List V) → elem k (keys (d ++ ys)) ≡ (elem k (keys d) || elem k (keys ys))
  elem-keys-append k [] ys = refl
  elem-keys-append k (x ∷ d) ys = ground (arith, elem-keys-append k d ys)

  pub elem_front :
      (x : V) (d xs : List V) → Nodup (keys (d ++ x ∷ xs)) → elem (key x) (keys d) ≡ false
  elem_front x [] xs h = refl
  elem_front x (y ∷ d) xs h =
      ground (arith, elem_front x d xs h.1, elem-keys-append (key y) d (x ∷ xs))

  pub put_new : (x : V) (d : List V) → elem (key x) (keys d) ≡ false → put x d ≡ d ++ x ∷ []
  put_new x [] h = refl
  put_new x (y ∷ d) h = ground (arith, put_new x d)

  -- Items with distinct identities are their own dict.
  put_all_new : (xs d : List V) → Nodup (keys (d ++ xs)) → put_all xs d ≡ d ++ xs
  put_all_new [] d h = sym (append-nil d)
  put_all_new (x ∷ xs) d h = rw (put_new x d (elem_front x d xs h)) (
      put_all_new xs (d ++ x ∷ []) (rw (append_assoc d (x ∷ []) xs) h) ∙ append_assoc d (x ∷ []) xs)

  pub dict_of-Nodup : (xs : List V) → Nodup (keys xs) → dict_of xs ≡ xs
  dict_of-Nodup xs h = put_all_new xs [] h

  pub Nodup-put_all : (xs d : List V) → Nodup (keys d) → Nodup (keys (put_all xs d))
  Nodup-put_all [] d h = h
  Nodup-put_all (x ∷ xs) d h = Nodup-put_all xs (put x d) (Nodup-put x d h)

  -- An item with a new identity at the end
  pub Nodup-append_one :
      (x : V) (d : List V)
      → elem (key x) (keys d) ≡ false
      → Nodup (keys d)
      → Nodup (keys (d ++ x ∷ []))
  Nodup-append_one x d e h = rw (← put_new x d e) (Nodup-put x d h)
