-- ===== src/Parser/Comments/Search.antt =====
-- tools/migration-analyzer/src/migration_analyzer/parser.py: the search for a line comment, and
-- `strip_line`.
use jenkins_to_actions_migra.Prelude.{
  ℕ, Bool, true, false, not, ◌&&◌, Bool-cases, inl, inr, ◌⊎◌, Text, [], ◌∷◌, ◌++◌, ◌≡◌, refl, sym,
  ap, ◌∙◌, none, some, Option, &&-eq_true,
}
use jenkins_to_actions_migra.Unicode.{Unicode}
use jenkins_to_actions_migra.Regex.Match.{
  Match, run, search_from, matches_from, all_matches, sub, group_text, skip, at_start,
}
use jenkins_to_actions_migra.Regex.Steps.{at}
use jenkins_to_actions_migra.Regex.Once.{sub-none, sub-once}
use jenkins_to_actions_migra.Parser.{strip_line}
use jenkins_to_actions_migra.Parser.Patterns.{line_comment}
use jenkins_to_actions_migra.Parser.Lines.{IsLine}
use jenkins_to_actions_migra.Parser.Comments.{slashes, is_guard, before_comment, without_comment}
use jenkins_to_actions_migra.Parser.Comments.Cuts.{Cuts, later-Cuts, start-Cuts, no_cut, no_cut_end}

not-eq_true : (b : Bool) → not b ≡ true → b ≡ false
not-eq_true true h = sym h
not-eq_true false h = refl

-- What a search leaves of the text: all of it, or the part before the match and the group.
abbrev Leaves : Text → Text → Option Match → Type 0
Leaves s kept found =
    ((found ≡ none) × (kept ≡ s))
    ⊎ ((m : Match) × (found ≡ some m) × (m.final.rest ≡ []) × (m.skipped ++ group_text 1 m ≡ kept))

-- One more character is skipped.
skip-Leaves :
    (c : ℕ) (s kept : Text) (o : Option Match)
    → Leaves s kept o
    → Leaves (c ∷ s) (c ∷ kept) (skip c o)
unfolding group_text
skip-Leaves c s kept o (inl (e, k)) = rw e (inl (refl, ap (λ x. c ∷ x) k))
skip-Leaves c s kept o (inr (m, e, r, k)) =
    rw e (inr (record m { skipped = c ∷ m.skipped }, refl, r, ap (λ x. c ∷ x) k))

module _ ⦃u : Unicode⦄ where
  search_none :
      (b : Text) (c : ℕ) (s : Text)
      → run line_comment (at b (c ∷ s) []) ≡ []
      → search_from line_comment b (c ∷ s) ≡ skip c (search_from line_comment (c ∷ b) s)
  unfolding search_from
  search_none b c s e = rw (search_from, e) refl

  search_end : (b : Text) → search_from line_comment b [] ≡ none
  unfolding search_from
  search_end b = rw (search_from, no_cut_end b) refl

  search-Cuts :
      (k kept b : Text) (c : ℕ) (s : Text)
      → Cuts k (run line_comment (at b (c ∷ s) []))
      → k ≡ kept
      → Leaves (c ∷ s) kept (search_from line_comment b (c ∷ s))
  unfolding search_from group_text
  search-Cuts k kept b c s (b', more, e) same = rw (search_from, e) (inr (_, refl, refl, same))

  -- Behind the start of the line.
  search_later :
      (b s : Text)
      → IsLine s
      → (at_start false b && slashes s) ≡ false
      → Leaves s (before_comment s) (search_from line_comment b s)
  unfolding before_comment at_start
  search_later b [] l n = inl (search_end b, refl)
  search_later b (c ∷ s) l n = elim (Bool-cases (not (is_guard c) && slashes s)) [
    | inl h ↦
        let both = &&-eq_true (not (is_guard c)) (slashes s) h in
        rw h (
          search-Cuts (c ∷ []) _ b c s
            (later-Cuts b c s l n (not-eq_true (is_guard c) both.0) both.1) refl)
    | inr h ↦
        rw (h, search_none b c s (no_cut b c s n h))
          (skip-Leaves c s (before_comment s) _ (search_later (c ∷ b) s l.1 refl))
  ]

  -- At the start of the line.
  search_line :
      (c : ℕ) (s : Text)
      → IsLine (c ∷ s)
      → Leaves (c ∷ s) (without_comment (c ∷ s)) (search_from line_comment [] (c ∷ s))
  unfolding without_comment at_start
  search_line c s l = elim (Bool-cases (slashes (c ∷ s))) [
    | inl h ↦ rw h (search-Cuts [] [] [] c s (start-Cuts c s l h) refl)
    | inr h ↦ rw h (search_later [] (c ∷ s) l h)
  ]

  strips :
      (c : ℕ) (s kept : Text)
      → Leaves (c ∷ s) kept (search_from line_comment [] (c ∷ s))
      → strip_line (c ∷ s) ≡ kept
  unfolding strip_line
  strips c s kept (inl (e, k)) = sub-none line_comment (group_text 1) c s e ∙ sym k
  strips c s kept (inr (m, e, r, k)) =
      sub-once line_comment (group_text 1) c s m e r (search_end m.final.before) ∙ k

  -- In a line without a newline: the line comment pattern cuts it at the first two slashes that stand at its start or behind a
  -- character other than a colon and a quote, and keeps it if it has none.
  pub strip_line_lem : (line : Text) → IsLine line → strip_line line ≡ without_comment line
  unfolding strip_line sub all_matches matches_from without_comment
  strip_line_lem [] l = refl
  strip_line_lem (c ∷ s) l = strips c s (without_comment (c ∷ s)) (search_line c s l)
