-- ===== src/Regex/Once.antt =====
-- `sub` where a search finds nothing, or one match that takes the rest of the text.
use mathlib.Core.List.{append-nil}
use jenkins_to_actions_migra.Prelude.{
  ℕ, zero, suc, Text, [], ◌∷◌, ◌++◌, ◌≡◌, refl, ap, ◌∙◌, none, some, length,
}
use jenkins_to_actions_migra.Unicode.{Unicode}
use jenkins_to_actions_migra.Regex.{Regex}
use jenkins_to_actions_migra.Regex.Match.{Match, search_from, matches_from, all_matches, sub}
use jenkins_to_actions_migra.Regex.Sub.{rebuilt, matches_from-none, matches_from-some}

module _ ⦃u : Unicode⦄ (r : Regex) (replacement : Match → Text) (c : ℕ) (s : Text) where
  pub sub-none : search_from r [] (c ∷ s) ≡ none → sub r replacement (c ∷ s) ≡ c ∷ s
  unfolding sub all_matches
  sub-none e = ap (rebuilt r replacement) (matches_from-none r (length s) [] (c ∷ s) e)

  no_more : (f : ℕ) (b : Text) → search_from r b [] ≡ none → matches_from f r b [] ≡ ([], [])
  unfolding matches_from
  no_more zero b e = refl
  no_more (suc f) b e = matches_from-none r f b [] e

  pub sub-once :
      (m : Match)
      → search_from r [] (c ∷ s) ≡ some m
      → m.final.rest ≡ []
      → search_from r m.final.before [] ≡ none
      → sub r replacement (c ∷ s) ≡ m.skipped ++ replacement m
  unfolding sub all_matches
  sub-once m e rest n =
      ap (rebuilt r replacement) (matches_from-some r (length s) [] (c ∷ s) m e)
      ∙ ap (λ p. rebuilt r replacement (m ∷ p.0, p.1)) last
      ∙ append-nil _
      ∙ append-nil _
    where
      last : matches_from (length s) r m.final.before m.final.rest ≡ ([], [])
      last = rw rest (no_more (length s) m.final.before n)
