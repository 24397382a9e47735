-- ===== src/Skeleton/Quotes.antt =====
-- hack/render-skeleton.py: the quotes in a literal of the template language.
use jenkins_to_actions_migra.Prelude.{
  false, Bool-cases, Text, [], ◌∷◌, ◌≡◌, refl, ap, inl, inr, ◌==◌, if◌then◌else◌,
}
use jenkins_to_actions_migra.Skeleton.{single_quotes}

-- A text as it stands between the quotes of a literal: each quote is doubled.
unfoldable pub doubled : Text → Text
doubled [] = []
doubled (c ∷ t) = let rest = doubled t in if c == b'\'' then c ∷ c ∷ rest else c ∷ rest

-- Reading a literal gives back the text whose quotes were doubled to write it.
pub single_quotes-doubled : (t : Text) → single_quotes false (doubled t) ≡ t
unfolding single_quotes doubled
single_quotes-doubled [] = refl
single_quotes-doubled (c ∷ t) = elim (Bool-cases (c == b'\'')) [
  | inl h ↦ rw (h, h) (ap (λ r. c ∷ r) (single_quotes-doubled t))
  | inr h ↦ rw (h, h) (ap (λ r. c ∷ r) (single_quotes-doubled t))
]
