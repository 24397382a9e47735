-- ===== src/Unicode.antt =====
-- Character classes of Python's `str`: exact on ASCII, and for white space everywhere. For the other
-- code points the tables of the Unicode database are a parameter, which no theorem restricts.
pub mod Digits
pub mod Strip
use jenkins_to_actions_migra.Prelude.{
  ℕ, ◌+◌, ◌-◌, Bool, ◌&&◌, ◌||◌, [], ◌∷◌, ltb, leb, ◌==◌, if◌then◌else◌, Text, any, map,
}

-- What the database says of a code point above 127, and of a text with one.
pub record Unicode : Type 0 where
  pub alphanumeric : ℕ → Bool
  pub uppercase : ℕ → Bool
  pub lower : ℕ → Text
  pub upper : ℕ → Text
  pub lower_text : Text → Text

abbrev pub within : ℕ → ℕ → ℕ → Bool
within lo hi c = leb lo c && leb c hi

-- `\s` in a pattern, and what `str.strip` removes.
unfoldable pub is_space : ℕ → Bool
is_space c =
    within 9 13 c
    || within 28 32 c
    || c == 0x85
    || c == 0xa0
    || c == 0x1680
    || within 0x2000 0x200a c
    || within 0x2028 0x2029 c
    || c == 0x202f
    || c == 0x205f
    || c == 0x3000

abbrev pub ascii_upper : ℕ → Bool
ascii_upper = within b'A' b'Z'

abbrev pub ascii_lower : ℕ → Bool
ascii_lower = within b'a' b'z'

abbrev pub ascii_digit : ℕ → Bool
ascii_digit = within b'0' b'9'

module _ ⦃u : Unicode⦄ where
  -- `ch.isalnum()`
  unfoldable pub is_alnum : ℕ → Bool
  is_alnum c =
      if ltb c 128 then ascii_upper c || ascii_lower c || ascii_digit c else u.alphanumeric c

  -- `\w` in a pattern
  unfoldable pub is_word : ℕ → Bool
  unfolding is_alnum
  is_word c = is_alnum c || c == b'_'

  -- `ch.isupper()`
  unfoldable pub is_upper : ℕ → Bool
  is_upper c = if ltb c 128 then ascii_upper c else u.uppercase c

-- Without the leading characters that pass `p`.
abbrev pub drop_while : (ℕ → Bool) → Text → Text
drop_while p [] = []
drop_while p (c ∷ s) = let rest = drop_while p s in if p c then rest else c ∷ s

-- `c` in front of a text whose end is stripped.
abbrev pub end_with : ℕ → Text → Text
end_with c [] = if is_space c then [] else c ∷ []
end_with c (d ∷ t) = c ∷ d ∷ t

-- `t.rstrip()`
unfoldable pub rstrip : Text → Text
unfolding is_space
rstrip [] = []
rstrip (c ∷ s) = end_with c (rstrip s)

-- `t.strip()`
unfoldable pub strip : Text → Text
unfolding is_space rstrip
strip t = rstrip (drop_while is_space t)

module _ ⦃u : Unicode⦄ where
  -- `ch.lower()`
  unfoldable pub to_lower : ℕ → Text
  to_lower c = if ltb c 128 then (if ascii_upper c then c + 32 else c) ∷ [] else u.lower c

  -- `ch.upper()`
  unfoldable pub to_upper : ℕ → Text
  to_upper c = if ltb c 128 then (if ascii_lower c then c - 32 else c) ∷ [] else u.upper c

abbrev pub ascii_to_lower : ℕ → ℕ
ascii_to_lower c = if ascii_upper c then c + 32 else c

-- `t.lower()`
unfoldable pub lower : ⦃u : Unicode⦄ → Text → Text
lower ⦃u⦄ t = if any (λ c. leb 128 c) t then u.lower_text t else map ascii_to_lower t
