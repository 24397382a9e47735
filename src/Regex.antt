-- ===== src/Regex.antt =====
-- The part of Python's `re` that the patterns of the program use: expressions as data.
-- Regex/Match.antt matches them, Regex/Compile.antt reads them from pattern text.
pub mod Match
pub mod Compile
pub mod Steps
pub mod Spans
pub mod Sub
pub mod Avoids
pub mod Captures
pub mod Starts
pub mod Once
use jenkins_to_actions_migra.Prelude.{
  ℕ, zero, suc, ◌+◌, Bool, true, false, not, ◌&&◌, ◌||◌, List, [], ◌∷◌, any, ◌==◌, newline, Text,
}
use jenkins_to_actions_migra.Unicode.Digits.{is_decimal}
use jenkins_to_actions_migra.Unicode.{Unicode, within, is_space, is_word}

-- An item of a character class.
pub data Item : Type 0 where
  span : ℕ → ℕ → Item
  space digit : Item

-- A test of one character: `[…]`, `[^…]`, `.`, and `.` under DOTALL.
pub data Test : Type 0 where
  one_of none_of : List Item → Test
  not_newline anything : Test

-- `line_start true` is `^` under MULTILINE; `star true` is greedy, `star false` is `*?`.
pub data Regex : Type 0 where
  empty : Regex
  char : Test → Regex
  seq alt : Regex → Regex → Regex
  star : Bool → Regex → Regex
  group : ℕ → Regex → Regex
  boundary : Regex
  line_start line_end : Bool → Regex
  never : Regex

in_item : Item → ℕ → Bool
in_item (span lo hi) c = within lo hi c
in_item space c = is_space c
in_item digit c = is_decimal c

unfoldable pub accepts : Test → ℕ → Bool
unfolding in_item is_space is_decimal
accepts (one_of items) c = any (λ i. in_item i c) items
accepts (none_of items) c = not (any (λ i. in_item i c) items)
accepts not_newline c = not (c == newline)
accepts anything c = true

-- Whether a word character comes next.
module _ ⦃u : Unicode⦄ where
  unfoldable pub next_is_word : Text → Bool
  unfolding is_word
  next_is_word [] = false
  next_is_word (c ∷ t) = is_word c

-- `len(pattern.groups)`: the number of capturing groups.
unfoldable pub group_count : Regex → ℕ
group_count (seq a b) = group_count a + group_count b
group_count (alt a b) = group_count a + group_count b
group_count (star g a) = group_count a
group_count (group n a) = suc (group_count a)
group_count _ = zero
