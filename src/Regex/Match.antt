-- ===== src/Regex/Match.antt =====
-- Backtracking search: all ways to match, in the order in which Python tries them. The first is the
-- match. A repetition takes only rounds that consume a character, as all patterns here do.
use jenkins_to_actions_migra.Prelude.{
  ℕ, zero, suc, ◌-◌, Bool, true, ◌&&◌, List, [], ◌∷◌, ◌++◌, Option, none, some, map, length, take,
  filter, flat_map, concat, ltb, ◌==◌, if◌then◌else◌, newline, Text,
}
use mathlib.Core.Bool.{xor}
use jenkins_to_actions_migra.Unicode.{Unicode}
use jenkins_to_actions_migra.Regex.{
  Test, Regex, empty, char, seq, alt, star, group, boundary, line_start, line_end, never, accepts,
  next_is_word,
}

abbrev pub Groups : Type 0
Groups = List (ℕ × Text)

-- A position: the text before it in reverse, the text after it, and the groups matched so far.
pub record State : Type 0 where
  pub before : Text
  pub rest : Text
  pub groups : Groups

unfoldable pub eat : Test → Text → Text → Groups → List State
unfolding accepts
eat t b [] g = []
eat t b (c ∷ s) g =
    if accepts t c then (record { before = c ∷ b; rest = s; groups = g }) ∷ [] else []

-- The text between two positions.
abbrev pub between : State → State → Text
between s t = take (length s.rest - length t.rest) s.rest

abbrev pub capture : ℕ → State → State → State
capture n s t = record t { groups = (n, between s t) ∷ t.groups }

abbrev pub progress : State → State → Bool
progress s t = ltb (length t.rest) (length s.rest)

-- The rounds of a repetition, at most as many as there are characters left.
unfoldable pub rounds : Bool → (State → List State) → ℕ → State → List State
rounds greedy step zero s = s ∷ []
rounds greedy step (suc f) s =
    let more = flat_map (rounds greedy step f) (filter (progress s) (step s)) in
    if greedy then more ++ s ∷ [] else s ∷ more

abbrev pub when : Bool → State → List State
when b s = if b then s ∷ [] else []

-- `^`: at the start of the text, under MULTILINE after each newline too.
unfoldable pub at_start : Bool → Text → Bool
at_start multiline [] = true
at_start multiline (c ∷ b) = multiline && c == newline

-- `$`: at the end or before a last newline, under MULTILINE before each newline too.
unfoldable pub at_end : Bool → Text → Bool
at_end multiline [] = true
at_end multiline (c ∷ []) = c == newline
at_end multiline (c ∷ d ∷ s) = multiline && c == newline

module _ ⦃u : Unicode⦄ where
  unfoldable pub run : Regex → State → List State
  unfolding eat rounds at_start at_end next_is_word xor
  run empty s = s ∷ []
  run (char t) s = eat t s.before s.rest s.groups
  run (seq a b) s = flat_map (run b) (run a s)
  run (alt a b) s = run a s ++ run b s
  run (star greedy a) s = rounds greedy (run a) (length s.rest) s
  run (group n a) s = map (capture n s) (run a s)
  run boundary s = when (xor (next_is_word s.before) (next_is_word s.rest)) s
  run (line_start m) s = when (at_start m s.before) s
  run (line_end m) s = when (at_end m s.rest) s
  run never s = []

-- A match: the text skipped before it, its own text, and the position behind it.
pub record Match : Type 0 where
  pub skipped : Text
  pub text : Text
  pub final : State

abbrev pub first_match : State → List State → Option Match
first_match s [] = none
first_match s (t ∷ ts) = some (record { skipped = []; text = between s t; final = t })

abbrev pub skip : ℕ → Option Match → Option Match
skip c none = none
skip c (some m) = some (record m { skipped = c ∷ m.skipped })

abbrev pub start_at : Text → Text → State
start_at b s = record { before = b; rest = s; groups = [] }

module _ ⦃u : Unicode⦄ where
  -- `pattern.match` at one position
  abbrev pub match_at : Regex → Text → Text → Option Match
  match_at r b s = first_match (start_at b s) (run r (start_at b s))

  -- The leftmost match.
  unfoldable pub search_from : Regex → Text → Text → Option Match
  unfolding run
  search_from r b [] = match_at r b []
  search_from r b (c ∷ s) = elim (match_at r b (c ∷ s)) [
    | some m ↦ some m
    | none ↦ skip c (search_from r (c ∷ b) s)
  ]

  -- `pattern.search(text)`
  abbrev pub search : Regex → Text → Option Match
  search r = search_from r []

  -- The matches one after the other, and the text behind the last one. A match consumes a character,
  -- so the length of the text is enough fuel.
  unfoldable pub matches_from : ℕ → Regex → Text → Text → List Match × Text
  unfolding search_from
  matches_from zero r b s = ([], s)
  matches_from (suc f) r b s = elim (search_from r b s) [
    | none ↦ ([], s)
    | some m ↦ let (ms, tail) = matches_from f r m.final.before m.final.rest in (m ∷ ms, tail)
  ]

  unfoldable pub all_matches : Regex → Text → List Match × Text
  unfolding matches_from
  all_matches r s = matches_from (length s) r [] s

  -- `pattern.finditer(text)`
  unfoldable pub find_iter : Regex → Text → List Match
  unfolding all_matches
  find_iter r s = (all_matches r s).0

  -- `pattern.sub(replacement, text)`
  unfoldable pub sub : Regex → (Match → Text) → Text → Text
  unfolding all_matches
  sub r replacement s =
      let (ms, tail) = all_matches r s in concat (map (λ m. m.skipped ++ replacement m) ms) ++ tail

-- `m.group(n)`; `none` is Python's None for a group that took no part.
unfoldable pub find_group : ℕ → Groups → Option Text
find_group n [] = none
find_group n ((k, t) ∷ gs) = if k == n then some t else find_group n gs

abbrev pub text_or_empty : Option Text → Text
text_or_empty none = []
text_or_empty (some t) = t

-- `m.group(n)`, with the empty text where the group took no part, as `\1` and `findall` have it.
unfoldable pub group_text : ℕ → Match → Text
unfolding find_group
group_text n m = text_or_empty (find_group n m.final.groups)
