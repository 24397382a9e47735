-- ===== src/Analyzer/Kebab.antt =====
-- `_kebab` of tools/migration-analyzer/src/migration_analyzer/analyzer.py.
use jenkins_to_actions_migra.Prelude.{
  ℕ, ◌+◌, ◌<◌, Bool, false, [], ◌∷◌, ◌++◌, ◌≡◌, refl, ap, ◌∙◌, inl, inr, Bool-cases, map, Text,
  concat, All, All-append, arith, ◌==◌, if◌then◌else◌,
}
use jenkins_to_actions_migra.Unicode.{Unicode, is_upper, to_lower, ascii_upper, drop_while}
use jenkins_to_actions_migra.Analyzer.{kebab_letter, kebab}

-- An ASCII character that is no upper-case letter.
abbrev pub IsLow : ℕ → Type 0
IsLow c = (c < 128) × (ascii_upper c ≡ false)

-- The text does not begin with a dash.
abbrev pub NoDash : Text → Type 0
NoDash [] = Unit
NoDash (c ∷ t) = (c == b'-') ≡ false

drop_while-All : (P : ℕ → Type 0) (p : ℕ → Bool) (t : Text) → All P t → All P (drop_while p t)
drop_while-All P p [] h = tt
drop_while-All P p (c ∷ t) h = elim (Bool-cases (p c)) [
  | inl e ↦ rw e (drop_while-All P p t h.1)
  | inr e ↦ rw e h
]

drop_while-NoDash : (t : Text) → NoDash (drop_while (λ c. c == b'-') t)
drop_while-NoDash [] = tt
drop_while-NoDash (c ∷ t) = elim (Bool-cases (c == b'-')) [
  | inl e ↦ rw e (drop_while-NoDash t)
  | inr e ↦ rw e e
]

drop_while-eq_self : (t : Text) → NoDash t → drop_while (λ c. c == b'-') t ≡ t
drop_while-eq_self [] h = refl
drop_while-eq_self (c ∷ t) h = rw h refl

module _ ⦃u : Unicode⦄ where
  kebab_letter_lem :
      (c : ℕ) → c < 128 → kebab_letter c ≡ (if ascii_upper c then b'-' ∷ (c + 32) ∷ [] else c ∷ [])
  unfolding kebab_letter is_upper to_lower
  kebab_letter_lem c h = ground arith

  kebab_letter-IsLow : (c : ℕ) → c < 128 → All IsLow (kebab_letter c)
  kebab_letter-IsLow c h = elim (Bool-cases (ascii_upper c)) [
    | inl e ↦ rw (kebab_letter_lem c h, e) ((omega arith, refl), ((ground arith, ground arith), tt))
    | inr e ↦ rw (kebab_letter_lem c h, e) ((h, e), tt)
  ]

  letters-IsLow : (t : Text) → All (λ c. c < 128) t → All IsLow (concat (map kebab_letter t))
  letters-IsLow [] h = tt
  letters-IsLow (c ∷ t) h =
      All-append IsLow (kebab_letter c) (concat (map kebab_letter t)) (kebab_letter-IsLow c h.0)
        (letters-IsLow t h.1)

  letters-eq_self : (t : Text) → All IsLow t → concat (map kebab_letter t) ≡ t
  letters-eq_self [] h = refl
  letters-eq_self (c ∷ t) h =
      ap (λ x. x ++ concat (map kebab_letter t)) (same c h.0)
      ∙ ap (λ x. c ∷ x) (letters-eq_self t h.1)
    where
      same : (c : ℕ) → IsLow c → kebab_letter c ≡ c ∷ []
      same c h = unfold kebab_letter is_upper to_lower in ground arith

  -- For an ASCII name, the name of the composite action has no upper-case letter and no leading dash,
  -- and is its own action name.
  pub kebab_lem :
      (name : Text)
      → All (λ c. c < 128) name
      → All IsLow (kebab name) × NoDash (kebab name) × (kebab (kebab name) ≡ kebab name)
  unfolding kebab
  kebab_lem name h =
      let low =
        drop_while-All IsLow (λ c. c == b'-') (concat (map kebab_letter name))
          (letters-IsLow name h) in
      let clear = drop_while-NoDash (concat (map kebab_letter name)) in
      (
        low,
        clear,
        ap (drop_while (λ c. c == b'-'))
              (letters-eq_self (drop_while (λ c. c == b'-') (concat (map kebab_letter name))) low)
            ∙ drop_while-eq_self (drop_while (λ c. c == b'-') (concat (map kebab_letter name)))
                clear,
      )
