-- ===== src/Parser/Lines.antt =====
-- Stripping comments keeps the lines in place: the assertion in `scan` of
-- tools/migration-analyzer/src/migration_analyzer/parser.py never fails.
use jenkins_to_actions_migra.Prelude.{
  ℕ, zero, suc, false, List, [], ◌∷◌, ◌++◌, ◌≡◌, refl, sym, ap, ◌∙◌, inl, inr, some, map, Text, All,
  All-map, All-weaken, length, length-map, replicate, newline, join, split_lines, cons_head, count,
  Bool-cases, arith, ◌==◌, ==_iff,
}
use jenkins_to_actions_migra.Unicode.{Unicode}
use jenkins_to_actions_migra.Regex.Match.{sub, group_text}
use jenkins_to_actions_migra.Regex.Sub.{count-sub, sub-All}
use jenkins_to_actions_migra.Regex.Avoids.{avoids, avoids-match, group_text-All}
use jenkins_to_actions_migra.Parser.Patterns.{shebang, block_comment, line_comment}
use jenkins_to_actions_migra.Parser.{
  blank_keep_newlines, strip_line, strip_blocks, strip_comments, extract, scan,
}

-- A character that is no newline, and a text without one.
abbrev pub Inner : ℕ → Type 0
Inner c = (c == newline) ≡ false

abbrev pub IsLine : Text → Type 0
IsLine = All Inner

length-cons_head : (c n : ℕ) (ls : List Text) → length ls ≡ suc n → length (cons_head c ls) ≡ suc n
length-cons_head c n [] h = absurd (omega arith)
length-cons_head c n (l ∷ ls) h = h

pub length-split_lines : (t : Text) → length (split_lines t) ≡ suc (count newline t)
unfolding split_lines count
length-split_lines [] = refl
length-split_lines (c ∷ t) = ground (
  arith,
  length-split_lines t,
  length-cons_head c (count newline t) (split_lines t) (length-split_lines t),
)

cons_head-IsLine : (c : ℕ) (ls : List Text) → Inner c → All IsLine ls → All IsLine (cons_head c ls)
cons_head-IsLine c [] h k = ((h, tt), tt)
cons_head-IsLine c (l ∷ ls) h k = ((h, k.0), k.1)

pub split_lines-IsLine : (t : Text) → All IsLine (split_lines t)
unfolding split_lines
split_lines-IsLine [] = (tt, tt)
split_lines-IsLine (c ∷ t) = elim (Bool-cases (c == newline)) [
  | inl e ↦ rw e (tt, split_lines-IsLine t)
  | inr e ↦ rw e (cons_head-IsLine c (split_lines t) e (split_lines-IsLine t))
]

split_lines-last : (l : Text) → IsLine l → split_lines l ≡ l ∷ []
unfolding split_lines
split_lines-last [] h = refl
split_lines-last (c ∷ l) h = rw (h.0, split_lines-last l h.1) refl

split_lines-line : (l t : Text) → IsLine l → split_lines (l ++ newline ∷ t) ≡ l ∷ split_lines t
unfolding split_lines
split_lines-line [] t h = refl
split_lines-line (c ∷ l) t h = rw (h.0, split_lines-line l t h.1) refl

-- Lines that are joined are split into the same lines.
pub split_lines-join :
    (l : Text) (ls : List Text)
    → All IsLine (l ∷ ls)
    → split_lines (join (newline ∷ []) (l ∷ ls)) ≡ l ∷ ls
unfolding join
split_lines-join l [] h = split_lines-last l h.0
split_lines-join l (k ∷ ls) h =
    split_lines-line l (join (newline ∷ []) (k ∷ ls)) h.0
    ∙ ap (λ x. l ∷ x) (split_lines-join k ls h.1)

split_lines-join-map :
    (f : Text → Text) (ls : List Text) (n : ℕ)
    → length ls ≡ suc n
    → All (λ l. IsLine (f l)) ls
    → split_lines (join (newline ∷ []) (map f ls)) ≡ map f ls
split_lines-join-map f [] n e h = absurd (omega arith)
split_lines-join-map f (l ∷ ls) n e h =
    split_lines-join (f l) (map f ls) (h.0, All-map IsLine f ls h.1)

count-replicate : (n : ℕ) → count newline (replicate n newline) ≡ n
unfolding count
count-replicate zero = refl
count-replicate (suc n) = ap suc (count-replicate n)

module _ ⦃u : Unicode⦄ where
  strip_line-IsLine : (l : Text) → IsLine l → IsLine (strip_line l)
  unfolding strip_line
  strip_line-IsLine l h =
      sub-All line_comment Inner (group_text 1)
        (λ b s m e k. group_text-All Inner line_comment 1 b s m e k) l h

  -- Neither substitution on the whole text changes the number of newlines.
  pub count-strip_blocks : (t : Text) → count newline (strip_blocks t) ≡ count newline t
  unfolding strip_blocks avoids shebang blank_keep_newlines
  count-strip_blocks t =
      count-sub block_comment newline blank_keep_newlines
        (λ b s m e. count-replicate (count newline m.text)) (sub shebang (λ m. []) t)
      ∙ count-sub shebang newline (λ m. [])
          (λ b s m e. sym (avoids-match newline shebang b s m refl e)) t

  -- The lines of the stripped text are the stripped lines of the text without block comments.
  pub split_lines-strip_comments :
      (t : Text) → split_lines (strip_comments t) ≡ map strip_line (split_lines (strip_blocks t))
  unfolding strip_comments
  split_lines-strip_comments t =
      split_lines-join-map strip_line (split_lines (strip_blocks t))
        (count newline (strip_blocks t)) (length-split_lines (strip_blocks t))
        (All-weaken IsLine (λ l. IsLine (strip_line l)) (split_lines (strip_blocks t))
          strip_line-IsLine (split_lines-IsLine (strip_blocks t)))

  -- For every text, stripping the comments keeps the number of lines.
  pub length-strip_comments :
      (t : Text) → length (split_lines (strip_comments t)) ≡ length (split_lines t)
  length-strip_comments t =
      ap length (split_lines-strip_comments t)
      ∙ length-map strip_line (split_lines (strip_blocks t))
      ∙ length-split_lines (strip_blocks t)
      ∙ ap suc (count-strip_blocks t)
      ∙ sym (length-split_lines t)

  -- For every text, `scan` passes its assertion and returns what is extracted from the lines of the
  -- text and the lines of the stripped text.
  pub scan-total :
      (t : Text) → scan t ≡ some (extract (split_lines t) (split_lines (strip_comments t)))
  unfolding scan
  scan-total t = rw ((==_iff _ _).1 (length-strip_comments t)) refl
