-- ===== src/Regex/Starts.antt =====
-- An expression that begins with one fixed character finds nothing in a text without it.
use jenkins_to_actions_migra.Prelude.{
  ℕ, zero, suc, false, Text, All, [], ◌∷◌, ◌≡◌, refl, ap, ◌==◌, none, length, arith,
}
use jenkins_to_actions_migra.Unicode.{Unicode}
use jenkins_to_actions_migra.Regex.{Regex, char, seq, one_of, span, accepts}
use jenkins_to_actions_migra.Regex.Match.{
  Match, search_from, matches_from, all_matches, start_at, sub, run, eat,
}
use jenkins_to_actions_migra.Regex.Sub.{rebuilt, matches_from-none}

abbrev pub Without : ℕ → Text → Type 0
Without d t = All (λ c. (c == d) ≡ false) t

abbrev pub begins : ℕ → Regex → Regex
begins d r = seq (char (one_of (span d d ∷ []))) r

accepts-other : (d c : ℕ) → (c == d) ≡ false → accepts (one_of (span d d ∷ [])) c ≡ false
unfolding accepts
accepts-other d c h = ground arith

module _ ⦃u : Unicode⦄ (d : ℕ) (r : Regex) where
  run-none :
      (b : Text) (c : ℕ) (s : Text) → (c == d) ≡ false → run (begins d r) (start_at b (c ∷ s)) ≡ []
  unfolding run eat
  run-none b c s h = rw (accepts-other d c h) refl

  search_from-none : (b s : Text) → Without d s → search_from (begins d r) b s ≡ none
  unfolding search_from run eat
  search_from-none b [] h = refl
  search_from-none b (c ∷ s) h =
      rw (search_from, run-none b c s h.0, search_from-none (c ∷ b) s h.1) refl

  no_matches : (f : ℕ) (s : Text) → Without d s → matches_from f (begins d r) [] s ≡ ([], s)
  unfolding matches_from
  no_matches zero s h = refl
  no_matches (suc f) s h = matches_from-none (begins d r) f [] s (search_from-none [] s h)

  pub all_matches-none : (s : Text) → Without d s → all_matches (begins d r) s ≡ ([], s)
  unfolding all_matches
  all_matches-none s h = no_matches (length s) s h

  -- It replaces nothing in such a text.
  pub sub-none :
      (replacement : Match → Text) (s : Text) → Without d s → sub (begins d r) replacement s ≡ s
  unfolding sub
  sub-none replacement s h = ap (rebuilt (begins d r) replacement) (all_matches-none s h)
