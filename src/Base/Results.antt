-- ===== src/Base/Results.antt =====
-- Python exceptions as values: the class of the exception and the constant part of its message.
use Prim.Native.String.{String}
use mathlib.Core.Path.{◌≡◌, refl}
use mathlib.Core.Logic.{◌↔◌}
use mathlib.Core.Bool.{Bool, true, false}
use stock_traiding.Base.Lists.{All}
use mathlib.Core.List.{List, [], ◌∷◌}

pub data Error : Type 0 where
  value_error key_error runtime_error type_error : String → Error
  zero_division_error overflow_error : Error

pub data Result (A : Type 0) : Type 0 where
  ok : A → Result A
  raise : Error → Result A

infixl 5 ◌>>=◌ ◌>>◌
abbrev pub ◌>>=◌ : {A B : Type 0} → Result A → (A → Result B) → Result B
raise error >>= rest = raise error
ok value >>= rest = rest value

-- A statement, then the rest of the block
abbrev pub ◌>>◌ : {B : Type 0} → Result (Unit {0}) → Result B → Result B
check >> rest = check >>= λ _. rest

-- `if test: raise error`
abbrev pub raise_if : Bool → Error → Result (Unit {0})
raise_if true e = raise e
raise_if false e = ok tt

-- `try: …; except …: raise error`, for a handler that catches all that the body can raise.
abbrev pub rethrow : {A : Type 0} → Error → Result A → Result A
rethrow e (ok a) = ok a
rethrow e (raise _) = raise e

-- A check of every item of a sequence, in order, up to the first that raises.
abbrev pub check_each : {A : Type 0} → (A → Result (Unit {0})) → List A → Result (Unit {0})
check_each f [] = ok tt
check_each f (x ∷ xs) = f x >> check_each f xs

-- A chain that returns has run its first call to the end, and the rest on its value.
pub >>=-eq-ok :
    {A B : Type 0} (call : Result A) (rest : A → Result B) {value : B}
    → (call >>= rest) ≡ ok value
    → (mid : A) × (call ≡ ok mid) × (rest mid ≡ ok value)
>>=-eq-ok (raise error) rest chain = cc
>>=-eq-ok (ok mid) rest chain = (mid, refl, chain)

pub >>-eq-ok :
    {B : Type 0} (m : Result (Unit {0})) (k : Result B) {b : B}
    → (m >> k) ≡ ok b
    → (m ≡ ok tt) × (k ≡ ok b)
>>-eq-ok (ok tt) k h = (refl, h)
>>-eq-ok (raise e) k h = cc

pub raise_if-eq-ok : (t : Bool) (e : Error) {u : Unit {0}} → raise_if t e ≡ ok u → t ≡ false
raise_if-eq-ok true e h = cc
raise_if-eq-ok false e h = refl

pub ok-injective : {A : Type 0} {a b : A} → ok a ≡ ok b → a ≡ b
ok-injective h = cc

pub rethrow-eq-ok : {A : Type 0} (e : Error) (m : Result A) {a : A} → rethrow e m ≡ ok a → m ≡ ok a
rethrow-eq-ok e (ok a) h = h
rethrow-eq-ok e (raise x) h = cc

pub check_each_iff :
    {A : Type 0} (f : A → Result (Unit {0})) (xs : List A)
    → (check_each f xs ≡ ok tt) ↔ All (λ x. f x ≡ ok tt) xs
check_each_iff f [] = (λ _. tt, λ _. refl)
check_each_iff f (x ∷ xs) = (
  λ h.
      let (now, later) = >>-eq-ok (f x) (check_each f xs) h in (now, (check_each_iff f xs).0 later),
  λ h. rw h.0 ((check_each_iff f xs).1 h.1),
)
