-- ===== src/Prelude/TextSets.antt =====
-- Membership and distinctness of texts under filtering and sorting.
use mathlib.Core.Path.{◌≡◌, refl, ap, ◌∙◌}
use mathlib.Core.Bool.{Bool, true, false, ◌&&◌, ◌||◌}
use mathlib.Core.Logic.{inl, inr}
use mathlib.Core.List.{List, [], ◌∷◌}
use native.Mathlib.Omega.{arith}
use jenkins_to_actions_migra.Prelude.Tests.{Bool-cases}
use jenkins_to_actions_migra.Prelude.Lists.{filter}
use jenkins_to_actions_migra.Prelude.Texts.{Text, equal, equal_sound, equal_sym, contains, Distinct}
use jenkins_to_actions_migra.Prelude.Sorting.{insert, sort}

-- A test has one value on equal texts.
test_cong : (p : Text → Bool) (t u : Text) → equal t u ≡ true → p t ≡ p u
test_cong p t u h = ap p (equal_sound t u h)

pub contains-filter :
    (p : Text → Bool) (t : Text) (ts : List Text)
    → contains t (filter p ts) ≡ (contains t ts && p t)
unfolding contains
contains-filter p t [] = refl
contains-filter p t (u ∷ ts) = elim (Bool-cases (p u)) [
  | inl e ↦ rw e (ground (arith, contains-filter p t ts, test_cong p t u))
  | inr e ↦ rw e (ground (arith, contains-filter p t ts, test_cong p t u))
]

module _ (le : Text → Text → Bool) where
  contains-insert :
      (t u : Text) (ts : List Text) → contains t (insert le u ts) ≡ (equal t u || contains t ts)
  unfolding contains insert
  contains-insert t u [] = refl
  contains-insert t u (v ∷ ts) = ground (arith, contains-insert t u ts)

  -- Sorting keeps the members.
  pub contains-sort : (t : Text) (ts : List Text) → contains t (sort le ts) ≡ contains t ts
  unfolding contains sort
  contains-sort t [] = refl
  contains-sort t (u ∷ ts) =
      contains-insert t u (sort le ts) ∙ ap (λ b. equal t u || b) (contains-sort t ts)

  Distinct-insert :
      (u : Text) (ts : List Text) → contains u ts ≡ false → Distinct ts → Distinct (insert le u ts)
  unfolding contains insert
  Distinct-insert u [] h d = (refl, tt)
  Distinct-insert u (v ∷ ts) h d = elim (Bool-cases (le u v)) [
    | inl e ↦ rw e (h, d)
    | inr e ↦ rw e (
      ground (arith, contains-insert v u ts, equal_sym u v, d.0),
      Distinct-insert u ts (ground arith) d.1,
    )
  ]

  -- Sorting keeps distinct texts distinct.
  pub Distinct-sort : (ts : List Text) → Distinct ts → Distinct (sort le ts)
  unfolding sort
  Distinct-sort [] d = tt
  Distinct-sort (u ∷ ts) d =
      Distinct-insert u (sort le ts) (contains-sort u ts ∙ d.0) (Distinct-sort ts d.1)

pub Distinct-filter : (p : Text → Bool) (ts : List Text) → Distinct ts → Distinct (filter p ts)
Distinct-filter p [] d = tt
Distinct-filter p (u ∷ ts) d = elim (Bool-cases (p u)) [
  | inl e ↦ rw e (contains-filter p u ts ∙ ap (λ b. b && p u) d.0, Distinct-filter p ts d.1)
  | inr e ↦ rw e (Distinct-filter p ts d.1)
]
