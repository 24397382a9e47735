-- ===== src/Composition/Format/Escape.antt =====
-- hack/render-composition.py: `go_format` on text without verbs, and on percent signs.
use jenkins_to_actions_migra.Prelude.{
  false, Bool-cases, Text, List, [], ◌∷◌, ◌≡◌, refl, ap, inl, inr, ◌==◌, ==_iff, if◌then◌else◌,
  arith,
}
use jenkins_to_actions_migra.Unicode.{Unicode}
use jenkins_to_actions_migra.Regex.Starts.{Without, all_matches-none}
use jenkins_to_actions_migra.Python.{ok}
use jenkins_to_actions_migra.Value.{Value}
use jenkins_to_actions_migra.Composition.Format.{verb, hide_percents, show_percents, go_format}

-- A text as a format that stands for it: each percent sign is doubled.
unfoldable pub escaped : Text → Text
escaped [] = []
escaped (c ∷ t) = let rest = escaped t in if c == b'%' then c ∷ c ∷ rest else c ∷ rest

-- The doubled percent signs become NUL characters.
hidden : Text → Text
hidden [] = []
hidden (c ∷ t) = (if c == b'%' then 0 else c) ∷ hidden t

hide_percents-escaped : (t : Text) → hide_percents false (escaped t) ≡ hidden t
unfolding hide_percents escaped hidden
hide_percents-escaped [] = refl
hide_percents-escaped (c ∷ t) = elim (Bool-cases (c == b'%')) [
  | inl h ↦ rw (h, h, h) (ap (λ r. 0 ∷ r) (hide_percents-escaped t))
  | inr h ↦ rw (h, h) (ap (λ r. c ∷ r) (hide_percents-escaped t))
]

hidden-Without : (t : Text) → Without b'%' (hidden t)
unfolding hidden
hidden-Without [] = tt
hidden-Without (c ∷ t) = elim (Bool-cases (c == b'%')) [
  | inl h ↦ rw h (refl, hidden-Without t)
  | inr h ↦ rw h (h, hidden-Without t)
]

show_percents-hidden : (t : Text) → Without 0 t → show_percents (hidden t) ≡ t
unfolding hidden show_percents
show_percents-hidden [] h = refl
show_percents-hidden (c ∷ t) h = elim (Bool-cases (c == b'%')) [
  | inl e ↦ ground (arith, show_percents-hidden t h.1, (==_iff c b'%').0 e)
  | inr e ↦ rw (e, h.0) (ap (λ r. c ∷ r) (show_percents-hidden t h.1))
]

module _ (repr : Value → Text) ⦃u : Unicode⦄ where
  -- A text without NUL, with its percent signs doubled, is formatted to itself, whatever the values.
  pub go_format-escaped :
      (t : Text) (values : List Value) → Without 0 t → go_format repr (escaped t) values ≡ ok t
  unfolding go_format verb
  go_format-escaped t values h =
      rw (hide_percents-escaped t, all_matches-none b'%' _ (hidden t) (hidden-Without t))
        (ap ok (show_percents-hidden t h))
