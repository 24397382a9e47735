-- ===== src/Value/Dump.antt =====
-- `json.dumps(value, indent=2)` of Python's standard library, which escapes all but printable ASCII.
use jenkins_to_actions_migra.Prelude.{
  ℕ, suc, ◌+◌, ◌-◌, ◌/◌, ◌%◌, true, false, [], ◌∷◌, ◌++◌, map, Text, codes, concat, show, replicate,
  ltb, ◌==◌, if◌then◌else◌,
}
use jenkins_to_actions_migra.Unicode.{within}
use jenkins_to_actions_migra.Value.{
  Value, boolean, integer, other, string, list, dict, Items, nil, cons, Fields, end, field,
}

hex_digit : ℕ → ℕ
hex_digit d = if ltb d 10 then 48 + d else 87 + d

hex4 : ℕ → Text
unfolding hex_digit
hex4 n =
    b'\\'
    ∷ b'u'
    ∷ hex_digit (n / 4096)
    ∷ hex_digit (n / 256 % 16)
    ∷ hex_digit (n / 16 % 16)
    ∷ hex_digit (n % 16)
    ∷ []

-- Above the basic plane, two surrogates.
unicode_escape : ℕ → Text
unfolding hex4
unicode_escape c =
    if ltb c 0x10000
    then hex4 c
    else hex4 (0xd800 + (c - 0x10000) / 1024) ++ hex4 (0xdc00 + (c - 0x10000) % 1024)

unfoldable pub escape_char : ℕ → Text
unfolding unicode_escape
escape_char c =
    if c == b'"'
    then codes "\\\""
    else if c == b'\\'
    then codes "\\\\"
    else if c == 10
    then codes "\\n"
    else if c == 13
    then codes "\\r"
    else if c == 9
    then codes "\\t"
    else if c == 12
    then codes "\\f"
    else if c == 8
    then codes "\\b"
    else if within 32 126 c
    then c ∷ []
    else unicode_escape c

unfoldable pub quoted : Text → Text
unfolding escape_char
quoted t = b'"' ∷ concat (map escape_char t) ++ b'"' ∷ []

indent : ℕ → Text
indent level = 10 ∷ replicate (level + level) 32

scalar : Value → Text
unfolding quoted
scalar (boolean true) = codes "true"
scalar (boolean false) = codes "false"
scalar (integer true n) = b'-' ∷ show n
scalar (integer false n) = show n
scalar (other _ t) = t
scalar (string t) = quoted t
scalar _ = codes "null"

-- `dump_items level` writes the items of a list whose own lines stand at `level`.
unfoldable mutual
  unfolding scalar indent quoted show

  pub dump : ℕ → Value → Text
  dump level (list nil) = codes "[]"
  dump level (list (cons v vs)) =
      b'[' ∷ indent (suc level)
      ++ dump (suc level) v
      ++ dump_items (suc level) vs
      ++ indent level
      ++ codes "]"
  dump level (dict end) = codes "{}"
  dump level (dict (field k v fs)) =
      b'{' ∷ indent (suc level)
      ++ quoted k
      ++ codes ": "
      ++ dump (suc level) v
      ++ dump_fields (suc level) fs
      ++ indent level
      ++ codes "}"
  dump level v = scalar v

  pub dump_items : ℕ → Items → Text
  dump_items level nil = []
  dump_items level (cons v vs) = b',' ∷ indent level ++ dump level v ++ dump_items level vs

  pub dump_fields : ℕ → Fields → Text
  dump_fields level end = []
  dump_fields level (field k v fs) =
      b',' ∷ indent level ++ quoted k ++ codes ": " ++ dump level v ++ dump_fields level fs
