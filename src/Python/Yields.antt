-- ===== src/Python/Yields.antt =====
-- Postconditions: what holds of the value that a step yields, and of the fault that it ends in.
use jenkins_to_actions_migra.Prelude.{
  Bool, true, false, List, [], ◌∷◌, ◌≡◌, refl, Option, none, some, All, if◌then◌else◌,
}
use jenkins_to_actions_migra.Python.{
  Fault, raises, too_deep, Result, ok, err, ◌>>=◌, or_raise, each, traverse,
}

abbrev pub Post {ℓ κ} : {A : Type ℓ} → (A → Type κ) → (Fault → Type κ) → Result A → Type κ
Post Q E (ok a) = Q a
Post Q E (err e) = E e

-- A record, so that a goal shows its parts while the result is not known.
pub record Yields {ℓ κ} {A : Type ℓ} (Q : A → Type κ) (E : Fault → Type κ) (m : Result A)
    : Type κ where
  pub holds : Post Q E m

module _ {ℓ κ} {A : Type ℓ} {Q : A → Type κ} {E : Fault → Type κ} where
  pub ok-Yields : (a : A) → Q a → Yields Q E (ok a)
  ok-Yields a q = record { holds = q }

  pub err-Yields : (e : Fault) → E e → Yields Q E (err e)
  err-Yields e q = record { holds = q }

  pub if-Yields :
      (b : Bool) (m n : Result A) → Yields Q E m → Yields Q E n → Yields Q E (if b then m else n)
  if-Yields true m n p q = p
  if-Yields false m n p q = q

  pub or_raise-Yields :
      (o : Option A) → ((a : A) → o ≡ some a → Q a) → E raises → Yields Q E (or_raise o)
  or_raise-Yields none p q = record { holds = q }
  or_raise-Yields (some a) p q = record { holds = p a refl }

  pub Yields-ok : (m : Result A) (a : A) → Yields Q E m → m ≡ ok a → Q a
  Yields-ok m a y h = rw h at y.holds

  pub Yields-err : (m : Result A) (e : Fault) → Yields Q E m → m ≡ err e → E e
  Yields-err m e y h = rw h at y.holds

  pub Yields-of :
      (m : Result A) → ((a : A) → m ≡ ok a → Q a) → ((e : Fault) → m ≡ err e → E e) → Yields Q E m
  Yields-of (ok a) p q = record { holds = p a refl }
  Yields-of (err e) p q = record { holds = q e refl }

module _ {ℓ κ μ} {A : Type ℓ} {B : Type κ} {Q : B → Type μ} {E : Fault → Type μ} where
  -- The first step's faults are allowed, and the rest is right after each of its values.
  pub >>=-Yields :
      (m : Result A) (f : A → Result B)
      → ((e : Fault) → m ≡ err e → E e)
      → ((a : A) → m ≡ ok a → Yields Q E (f a))
      → Yields Q E (m >>= f)
  >>=-Yields (ok a) f p q = q a refl
  >>=-Yields (err e) f p q = record { holds = p e refl }

module _ {ℓ κ μ} {A : Type ℓ} {S : Type κ} (I : S → Type μ) (E : Fault → Type μ)
    (body : A → S → Result S) where
  -- An invariant of a loop.
  pub each-Yields :
      (xs : List A) (s : S)
      → All (λ x. (t : S) → I t → Yields I E (body x t)) xs
      → I s
      → Yields I E (each body xs s)
  unfolding each
  each-Yields [] s h i = ok-Yields s i
  each-Yields (x ∷ xs) s h i =
      >>=-Yields (body x s) (each body xs) (λ e. Yields-err (body x s) e (h.0 s i))
        (λ t k. each-Yields xs t h.1 (Yields-ok (body x s) t (h.0 s i) k))

-- The faults of a step that makes no recursive call.
abbrev pub Quick : Fault → Type 0
Quick too_deep = ⊥
Quick _ = Unit

abbrev pub Always {ℓ} : {A : Type ℓ} → A → Type 0
Always a = Unit

-- A step that does not use up any fuel.
abbrev pub Ends {ℓ} : {A : Type ℓ} → Result A → Type 0
Ends m = Yields Always Quick m

module _ {ℓ κ} {A : Type ℓ} {B : Type κ} where
  pub >>=-Ends :
      (m : Result A) (f : A → Result B) → Ends m → ((a : A) → Ends (f a)) → Ends (m >>= f)
  >>=-Ends m f p q = >>=-Yields m f (λ e. Yields-err m e p) (λ a _. q a)

  pub traverse-Ends :
      (f : A → Result B) (xs : List A) → ((a : A) → Ends (f a)) → Ends (traverse f xs)
  unfolding traverse
  traverse-Ends f [] h = ok-Yields [] tt
  traverse-Ends f (x ∷ xs) h =
      >>=-Yields (f x) _ (λ e. Yields-err (f x) e (h x))
        (λ y _.
          >>=-Yields (traverse f xs) _ (λ e. Yields-err (traverse f xs) e (traverse-Ends f xs h))
            (λ ys _. ok-Yields (y ∷ ys) tt))

module _ {ℓ} {A : Type ℓ} where
  pub ok-Ends : (a : A) → Ends (ok a)
  ok-Ends a = ok-Yields a tt

  pub or_raise-Ends : (o : Option A) → Ends (or_raise o)
  or_raise-Ends o = or_raise-Yields o (λ a _. tt) tt

-- Of the faults nothing is said.
abbrev pub Any : Fault → Type 0
Any e = Unit

pub >>=-Any {ℓ κ} :
    {A : Type ℓ} {B : Type κ} {Q : B → Type 0} (m : Result A) (f : A → Result B)
    → ((a : A) → m ≡ ok a → Yields Q Any (f a))
    → Yields Q Any (m >>= f)
>>=-Any m f q = >>=-Yields m f (λ e _. tt) q
