-- ===== src/Parser/Comments/Whole.antt =====
-- tools/migration-analyzer/src/migration_analyzer/parser.py: `strip_comments` on a text without block
-- comments and without a `#!` line.
use jenkins_to_actions_migra.Prelude.{
  ℕ, Bool, false, ◌&&◌, Bool-cases, inl, inr, Text, [], ◌∷◌, List, All, map, ◌≡◌, refl, ap, ◌∙◌,
  ◌==◌, none, split_lines, arith,
}
use jenkins_to_actions_migra.Unicode.{Unicode}
use jenkins_to_actions_migra.Regex.{Regex, char, seq, line_start, one_of, span, accepts}
use jenkins_to_actions_migra.Regex.Match.{Match, run, eat, search_from, start_at, sub, at_start}
use jenkins_to_actions_migra.Regex.Once.{sub-none}
use jenkins_to_actions_migra.Parser.{strip_line, strip_blocks, strip_comments, blank_keep_newlines}
use jenkins_to_actions_migra.Parser.Patterns.{shebang, block_comment}
use jenkins_to_actions_migra.Parser.Lines.{IsLine, split_lines-IsLine, split_lines-strip_comments}
use jenkins_to_actions_migra.Parser.Comments.{without_comment}
use jenkins_to_actions_migra.Parser.Comments.Search.{strip_line_lem}

-- The characters `x` and `y` never stand next to each other.
abbrev begins_pair : ℕ → ℕ → Text → Bool
begins_pair x y (a ∷ b ∷ t) = a == x && b == y
begins_pair x y _ = false

abbrev pub NoPair : ℕ → ℕ → Text → Type 0
NoPair x y [] = Unit
NoPair x y (c ∷ t) = (begins_pair x y (c ∷ t) ≡ false) × NoPair x y t

abbrev pair : ℕ → ℕ → Regex → Regex
pair x y r = seq (char (one_of (span x x ∷ []))) (seq (char (one_of (span y y ∷ []))) r)

accepts-one : (x c : ℕ) → accepts (one_of (span x x ∷ [])) c ≡ (c == x)
unfolding accepts
accepts-one x c = ground arith

module _ ⦃u : Unicode⦄ (x y : ℕ) (r : Regex) where
  run-none : (b s : Text) → begins_pair x y s ≡ false → run (pair x y r) (start_at b s) ≡ []
  unfolding run eat
  run-none b [] h = refl
  run-none b (c ∷ []) h = elim (Bool-cases (c == x)) [
    | inl e ↦ rw (accepts-one x c, e) refl
    | inr e ↦ rw (accepts-one x c, e) refl
  ]
  run-none b (c ∷ d ∷ s) h = elim (Bool-cases (c == x)) [
    | inl e ↦
        let k : (d == y) ≡ false = rw e at h in rw (accepts-one x c, e, accepts-one y d, k) refl
    | inr e ↦ rw (accepts-one x c, e) refl
  ]

  start-none :
      (m : Bool) (b s : Text)
      → begins_pair x y s ≡ false
      → run (seq (line_start m) (pair x y r)) (start_at b s) ≡ []
  unfolding run at_start
  start-none m b s h = elim (Bool-cases (at_start m b)) [
    | inl e ↦ rw e (rw (run-none b s h) refl)
    | inr e ↦ rw e refl
  ]

module _ ⦃u : Unicode⦄ (r : Regex) (x y : ℕ)
    (fails : (b s : Text) → begins_pair x y s ≡ false → run r (start_at b s) ≡ []) where
  search-none : (b s : Text) → NoPair x y s → search_from r b s ≡ none
  unfolding search_from
  search-none b [] h = rw (search_from, fails b [] refl) refl
  search-none b (c ∷ s) h = rw (search_from, fails b (c ∷ s) h.0, search-none (c ∷ b) s h.1) refl

  sub-none_pair : (replacement : Match → Text) (s : Text) → NoPair x y s → sub r replacement s ≡ s
  unfolding sub
  sub-none_pair replacement [] h = refl
  sub-none_pair replacement (c ∷ s) h = sub-none r replacement c s (search-none [] (c ∷ s) h)

module _ ⦃u : Unicode⦄ (x y : ℕ) (r : Regex) (replacement : Match → Text) (s : Text)
    (h : NoPair x y s) where
  sub-pair : sub (pair x y r) replacement s ≡ s
  sub-pair = sub-none_pair (pair x y r) x y (run-none x y r) replacement s h

  sub-start_pair : (m : Bool) → sub (seq (line_start m) (pair x y r)) replacement s ≡ s
  sub-start_pair m =
      sub-none_pair (seq (line_start m) (pair x y r)) x y (start-none x y r m) replacement s h

module _ ⦃u : Unicode⦄ where
  strip_blocks-none : (t : Text) → NoPair b'/' b'*' t → NoPair b'#' b'!' t → strip_blocks t ≡ t
  unfolding strip_blocks shebang block_comment
  strip_blocks-none t blocks bangs =
      ap (sub block_comment blank_keep_newlines) (sub-start_pair b'#' b'!' _ _ t bangs _)
      ∙ sub-pair b'/' b'*' _ _ t blocks

  strip_lines : (ls : List Text) → All IsLine ls → map strip_line ls ≡ map without_comment ls
  strip_lines [] h = refl
  strip_lines (l ∷ ls) h = rw (strip_line_lem l h.0, strip_lines ls h.1) refl

  -- For a text in which /* and #! do not occur, the lines of the stripped text are the lines of the
  -- text, each cut at its first comment as a scan from the left finds it.
  pub strip_comments_lem :
      (t : Text)
      → NoPair b'/' b'*' t
      → NoPair b'#' b'!' t
      → split_lines (strip_comments t) ≡ map without_comment (split_lines t)
  strip_comments_lem t blocks bangs =
      split_lines-strip_comments t
      ∙ ap (λ s. map strip_line (split_lines s)) (strip_blocks-none t blocks bangs)
      ∙ strip_lines (split_lines t) (split_lines-IsLine t)
