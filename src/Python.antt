-- ===== src/Python.antt =====
-- What running a Python statement yields: a value or a fault, and the loops over lists.
pub mod Access
pub mod Yields
use jenkins_to_actions_migra.Prelude.{
  Bool, true, false, if◌then◌else◌, List, [], ◌∷◌, ◌++◌, Option, none, some, ◌≡◌, refl,
}

-- `raises` is an exception and `exits` a SystemExit. `too_deep` is a recursion that has used its fuel,
-- and `unmodelled` a step that leaves the model, where nothing is said of the program.
pub data Fault : Type 0 where
  raises exits too_deep unmodelled : Fault

pub data Result {ℓ} (Value : Type ℓ) : Type ℓ where
  err : Fault → Result Value
  ok : Value → Result Value

-- The statements after one that ends in a fault are not run.
infixl 5 ◌>>=◌
abbrev pub ◌>>=◌ {ℓ κ} :
    {First : Type ℓ} {Then : Type κ} → Result First → (First → Result Then) → Result Then
err fault >>= next = err fault
ok value >>= next = next value

-- A missing value raises.
abbrev pub or_raise {ℓ} : {A : Type ℓ} → Option A → Result A
or_raise none = err raises
or_raise (some a) = ok a

-- Inversion of a step that went well.
pub >>=-eq-ok {ℓ κ} :
    {First : Type ℓ} {Then : Type κ} (step : Result First) (next : First → Result Then)
    {last : Then}
    → (step >>= next) ≡ ok last
    → (value : First) × (step ≡ ok value) × (next value ≡ ok last)
>>=-eq-ok (err fault) next h = cc
>>=-eq-ok (ok value) next h = (value, refl, h)

pub or_raise-eq-ok {ℓ} : {A : Type ℓ} {a : A} (o : Option A) → or_raise o ≡ ok a → o ≡ some a
or_raise-eq-ok none h = cc
or_raise-eq-ok (some b) h = cc

-- A guard that was passed.
pub if-eq-ok {ℓ} :
    {A : Type ℓ} {a : A} (e : Fault) (b : Bool) (m : Result A)
    → (if b then err e else m) ≡ ok a
    → m ≡ ok a
if-eq-ok e true m h = cc
if-eq-ok e false m h = h

pub ok_inj {ℓ} : {A : Type ℓ} {x y : A} → ok x ≡ ok y → x ≡ y
ok_inj {x} {y} h = cc

-- `for x in xs:` with a state that the body changes.
unfoldable pub each {ℓ κ} : {A : Type ℓ} {S : Type κ} → (A → S → Result S) → List A → S → Result S
each body [] s = ok s
each body (x ∷ xs) s = body x s >>= each body xs

-- `[f(x) for x in xs]`
unfoldable pub traverse {ℓ κ} :
    {A : Type ℓ} {B : Type κ} → (A → Result B) → List A → Result (List B)
traverse f [] = ok []
traverse f (x ∷ xs) = do y ← f x; ys ← traverse f xs; ok (y ∷ ys)
