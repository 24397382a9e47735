-- ===== src/Prelude/Texts.antt =====
-- Texts as lists of code points, and the operations of Python's `str` that the program uses.
use Prim.Native.Nat.{ℕ, zero, suc, ◌+◌, ◌/◌, ◌%◌}
use Prim.Native.Char.{code}
use Prim.Native.String.{String}
use mathlib.Core.Path.{◌≡◌, refl, ap}
use mathlib.Core.Logic.{◌↔◌}
use mathlib.Core.Bool.{Bool, true, false, not, ◌&&◌, ◌||◌}
use mathlib.Core.List.{List, [], ◌∷◌, ◌++◌}
use native.Mathlib.Omega.{arith}
use jenkins_to_actions_migra.Prelude.Tests.{◌==◌, ltb, if◌then◌else◌, ==_iff, &&-eq_true}
use jenkins_to_actions_migra.Prelude.Lists.{All, All-weaken}

abbrev pub Text : Type 0
Text = List ℕ

-- The code points of a literal.
abbrev pub codes : String → Text
codes String.[] = []
codes (String.◌∷◌ c s) = code c ∷ codes s

abbrev pub newline : ℕ
newline = 10

-- `a == b` on texts.
unfoldable pub equal : Text → Text → Bool
equal [] [] = true
equal [] (y ∷ ys) = false
equal (x ∷ xs) [] = false
equal (x ∷ xs) (y ∷ ys) = x == y && equal xs ys

-- `a <= b` on texts: by code points, a prefix first.
unfoldable pub text_le : Text → Text → Bool
text_le [] ys = true
text_le (x ∷ xs) [] = false
text_le (x ∷ xs) (y ∷ ys) = ltb x y || x == y && text_le xs ys

-- `t.startswith(p)`
unfoldable pub starts_with : Text → Text → Bool
starts_with [] t = true
starts_with (c ∷ p) [] = false
starts_with (c ∷ p) (d ∷ t) = c == d && starts_with p t

-- `t in ts` on a list or a set of texts.
unfoldable pub contains : Text → List Text → Bool
unfolding equal
contains t [] = false
contains t (u ∷ us) = equal t u || contains t us

-- `"".join(ts)`
abbrev pub concat : List Text → Text
concat [] = []
concat (t ∷ ts) = t ++ concat ts

-- `sep.join(ts)`
unfoldable pub join : Text → List Text → Text
join sep [] = []
join sep (t ∷ []) = t
join sep (t ∷ u ∷ ts) = t ++ (sep ++ join sep (u ∷ ts))

-- A line in front of which the character `c` is put.
abbrev pub cons_head : ℕ → List Text → List Text
cons_head c [] = (c ∷ []) ∷ []
cons_head c (l ∷ ls) = (c ∷ l) ∷ ls

-- `t.split("\n")`
unfoldable pub split_lines : Text → List Text
split_lines [] = [] ∷ []
split_lines (c ∷ t) =
    let rest = split_lines t in if c == newline then [] ∷ rest else cons_head c rest

-- `t.count(c)` for one character.
unfoldable pub count : ℕ → Text → ℕ
count c [] = 0
count c (x ∷ t) = let rest = count c t in if x == c then suc rest else rest

-- Digits by repeated division; `fuel` bounds their number.
digits : ℕ → ℕ → Text → Text
digits zero n acc = acc
digits (suc f) n acc =
    let d = 48 + n % 10 in
    let more = digits f (n / 10) (d ∷ acc) in if ltb n 10 then d ∷ acc else more

-- `str(n)` for a number that is not negative.
unfoldable pub show : ℕ → Text
unfolding digits
show n = digits (suc n) n []

pub equal_sound : (a b : Text) → equal a b ≡ true → a ≡ b
unfolding equal
equal_sound [] [] h = refl
equal_sound [] (y ∷ ys) h = cc
equal_sound (x ∷ xs) [] h = cc
equal_sound (x ∷ xs) (y ∷ ys) h =
    let (p, q) = &&-eq_true (x == y) (equal xs ys) h in cc ((==_iff x y).0 p, equal_sound xs ys q)

pub equal_refl : (a : Text) → equal a a ≡ true
unfolding equal
equal_refl [] = refl
equal_refl (x ∷ xs) = rw ((==_iff x x).1 refl, equal_refl xs)

pub equal_iff : (a b : Text) → (equal a b ≡ true) ↔ (a ≡ b)
equal_iff a b = (equal_sound a b, λ e. rw e (equal_refl b))

-- No text occurs twice.
abbrev pub Distinct : List Text → Type 0
Distinct [] = Unit
Distinct (t ∷ ts) = (contains t ts ≡ false) × Distinct ts

-- Equality tests against equal texts agree.
pub equal_cong : (a b c : Text) → equal a b ≡ true → equal a c ≡ equal b c
equal_cong a b c h = ap (λ x. equal x c) (equal_sound a b h)

-- The order of texts is total and transitive.
pub text_le_total : (a b : Text) → text_le a b ≡ false → text_le b a ≡ true
unfolding text_le
text_le_total [] b h = cc
text_le_total (x ∷ xs) [] h = refl
text_le_total (x ∷ xs) (y ∷ ys) h = ground (arith, text_le_total xs ys)

pub text_le_trans : (a b c : Text) → text_le a b ≡ true → text_le b c ≡ true → text_le a c ≡ true
unfolding text_le
text_le_trans [] b c h k = refl
text_le_trans (x ∷ xs) [] c h k = cc
text_le_trans (x ∷ xs) (y ∷ ys) [] h k = cc
text_le_trans (x ∷ xs) (y ∷ ys) (z ∷ zs) h k = ground (arith, text_le_trans xs ys zs)

pub text_le_refl : (a : Text) → text_le a a ≡ true
unfolding text_le
text_le_refl [] = refl
text_le_refl (x ∷ xs) = ground (arith, text_le_refl xs)

-- Every text of a list is in it.
pub contains_self : (ts : List Text) → All (λ t. contains t ts ≡ true) ts
unfolding contains
contains_self [] = tt
contains_self (u ∷ us) = (
  rw (equal_refl u) refl,
  All-weaken (λ t. contains t us ≡ true) (λ t. contains t (u ∷ us) ≡ true) us (λ t h. ground arith)
      (contains_self us),
)

pub equal_sym : (a b : Text) → equal a b ≡ equal b a
unfolding equal
equal_sym [] [] = refl
equal_sym [] (y ∷ ys) = refl
equal_sym (x ∷ xs) [] = refl
equal_sym (x ∷ xs) (y ∷ ys) = ground (arith, equal_sym xs ys)

-- The test for `Distinct`.
unfoldable pub all_distinct : List Text → Bool
unfolding contains
all_distinct [] = true
all_distinct (t ∷ ts) = not (contains t ts) && all_distinct ts

pub all_distinct_sound : (ts : List Text) → all_distinct ts ≡ true → Distinct ts
unfolding all_distinct
all_distinct_sound [] h = tt
all_distinct_sound (t ∷ ts) h =
    let (p, q) = &&-eq_true (not (contains t ts)) (all_distinct ts) h in
    (ground arith, all_distinct_sound ts q)

pub contains-cong : (a b : Text) (ts : List Text) → equal a b ≡ true → contains a ts ≡ contains b ts
contains-cong a b ts h = ap (λ x. contains x ts) (equal_sound a b h)
