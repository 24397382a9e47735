-- ===== src/Prelude/Maybe.antt =====
-- `none` as a raised exception: sequencing, indexing and lookup.
use Prim.Native.Nat.{ℕ, zero, suc, ◌<◌}
use mathlib.Core.Path.{◌≡◌, refl, sym, ap, ◌∙◌}
use mathlib.Core.Bool.{Bool, true, false}
use mathlib.Core.List.{List, [], ◌∷◌}
use mathlib.Core.Option.{Option, none, some, some-injective}
use native.Mathlib.Omega.{arith}
use jenkins_to_actions_migra.Prelude.Tests.{if◌then◌else◌}
use jenkins_to_actions_migra.Prelude.Lists.{All, length, get_elem?, filter}

infixl 5 ◌>>=◌
abbrev pub ◌>>=◌ {ℓ κ} : {A : Type ℓ} {B : Type κ} → Option A → (A → Option B) → Option B
none >>= f = none
some a >>= f = f a

module _ {ℓ κ} {A : Type ℓ} {B : Type κ} where
  -- A loop that appends one result for each element and may raise.
  abbrev pub traverse : (A → Option B) → List A → Option (List B)
  traverse f [] = some []
  traverse f (x ∷ xs) = do y ← f x; ys ← traverse f xs; some (y ∷ ys)

  pub traverse-total :
      (f : A → Option B) (xs : List A)
      → All (λ x. (y : B) × (f x ≡ some y)) xs
      → (ys : List B) × (traverse f xs ≡ some ys)
  traverse-total f [] h = ([], refl)
  traverse-total f (x ∷ xs) h =
      let (y, e) = h.0 in let (ys, e') = traverse-total f xs h.1 in (y ∷ ys, rw (e, e'))

module _ {ℓ} {A : Type ℓ} where
  -- A comprehension whose test may raise.
  abbrev pub keep : Bool → A → List A → List A
  keep b x xs = if b then x ∷ xs else xs

  abbrev pub filter_some : (A → Option Bool) → List A → Option (List A)
  filter_some p [] = some []
  filter_some p (x ∷ xs) = do b ← p x; ys ← filter_some p xs; some (keep b x ys)

pub some_inj {ℓ} : {A : Type ℓ} {x y : A} → some x ≡ some y → x ≡ y
some_inj {x} {y} p = some-injective x y p

-- Inversion of a step that did not raise.
pub >>=-eq-some {ℓ κ} :
    {A : Type ℓ} {B : Type κ} (m : Option A) (f : A → Option B) {b : B}
    → (m >>= f) ≡ some b
    → (a : A) × (m ≡ some a) × (f a ≡ some b)
>>=-eq-some none f h = cc
>>=-eq-some (some a) f h = (a, refl, h)

module _ {ℓ} {A : Type ℓ} where
  pub get_elem?-total : (xs : List A) (i : ℕ) → i < length xs → (a : A) × (get_elem? xs i ≡ some a)
  get_elem?-total [] i h = elim h [ ]
  get_elem?-total (x ∷ xs) zero h = (x, refl)
  get_elem?-total (x ∷ xs) (suc i) h = get_elem?-total xs i (omega arith)

  pub filter_some-total :
      (p : A → Option Bool) (xs : List A)
      → All (λ x. (b : Bool) × (p x ≡ some b)) xs
      → (ys : List A) × (filter_some p xs ≡ some ys)
  filter_some-total p [] h = ([], refl)
  filter_some-total p (x ∷ xs) h =
      let (b, e) = h.0 in let (ys, e') = filter_some-total p xs h.1 in (keep b x ys, rw (e, e'))

  pub filter_some-All {κ} :
      (Q : A → Type κ) (p : A → Option Bool) (xs ys : List A)
      → All Q xs
      → filter_some p xs ≡ some ys
      → All Q ys
  filter_some-All Q p [] ys h e = rw (← some_inj e) tt
  filter_some-All Q p (x ∷ xs) ys h e =
      let (b, eb, e') = >>=-eq-some (p x) _ e in
      let (zs, ez, e'') = >>=-eq-some (filter_some p xs) _ e' in
      rw (← some_inj e'') (keep-All b zs (filter_some-All Q p xs zs h.1 ez))
    where
      keep-All : (b : Bool) (zs : List A) → All Q zs → All Q (keep b x zs)
      keep-All true zs k = (h.0, k)
      keep-All false zs k = k

-- What every result of a loop that raised nothing satisfies.
pub traverse-All {ℓ κ μ} :
    {A : Type ℓ} {B : Type κ} (Q : B → Type μ) (f : A → Option B)
    → ((x : A) (y : B) → f x ≡ some y → Q y)
    → (xs : List A) (ys : List B) → traverse f xs ≡ some ys
    → All Q ys
traverse-All Q f h [] ys e = rw (← some_inj e) tt
traverse-All Q f h (x ∷ xs) ys e =
    let (z, ez, e') = >>=-eq-some (f x) _ e in
    let (zs, ezs, e'') = >>=-eq-some (traverse f xs) _ e' in
    rw (← some_inj e'') (h x z ez, traverse-All Q f h xs zs ezs)

-- A comprehension that raised nothing kept what passes the test.
pub filter_some-filter {ℓ} :
    {A : Type ℓ} (p : A → Option Bool) (q : A → Bool)
    → ((x : A) (b : Bool) → p x ≡ some b → b ≡ q x)
    → (xs ys : List A) → filter_some p xs ≡ some ys
    → ys ≡ filter q xs
filter_some-filter p q h [] ys e = sym (some_inj e)
filter_some-filter p q h (x ∷ xs) ys e =
    let (b, eb, e') = >>=-eq-some (p x) _ e in
    let (zs, ez, e'') = >>=-eq-some (filter_some p xs) _ e' in
    sym (some_inj e'')
    ∙ ap (λ c. keep c x zs) (h x b eb)
    ∙ ap (keep (q x) x) (filter_some-filter p q h xs zs ez)
