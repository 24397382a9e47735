-- ===== src/Regex/Compile.antt =====
-- `re.compile`: pattern text to an expression, for the syntax that the patterns of the program use.
-- A scanner with modes reads tokens, one character at a time; a parser with a stack of open groups
-- builds the expression. `none` is `re.error`, and stands for syntax outside the subset too.
use jenkins_to_actions_migra.Prelude.{
  ℕ, suc, Bool, true, false, ◌||◌, List, [], ◌∷◌, ◌++◌, Option, none, some, ◌==◌, if◌then◌else◌,
  Text,
}
use jenkins_to_actions_migra.Unicode.{ascii_upper, ascii_lower, ascii_digit}
use jenkins_to_actions_migra.Regex.{
  Item, span, space, digit, one_of, none_of, not_newline, anything, Regex, empty, char, seq, alt,
  star, group, boundary, line_start, line_end, never,
}

-- The flags of `re.compile`.
pub record Flags : Type 0 where
  pub multiline : Bool
  pub dotall : Bool

abbrev pub plain : Flags
plain = record { multiline = false; dotall = false }

pub data Token : Type 0 where
  atom : Regex → Token
  open_group : Bool → Token
  close_group bar plus question : Token
  repeat : Bool → Token

pub data Mode : Type 0 where
  normal escape after_star after_open after_open_question class_start : Mode
  in_class class_escape : Bool → List Item → Mode
  class_range : Bool → List Item → ℕ → Mode

abbrev Emit : Type 0
Emit = Option (List Token × Mode)

abbrev emit : Token → Emit
emit t = some (t ∷ [], normal)

abbrev to : Mode → Emit
to m = some ([], m)

abbrev prepend : Token → Emit → Emit
prepend t none = none
prepend t (some (ts, m)) = some (t ∷ ts, m)

abbrev one : ℕ → Regex
one c = char (one_of (span c c ∷ []))

abbrev class : Bool → List Item → Regex
class true items = char (none_of items)
class false items = char (one_of items)

step_normal : Flags → ℕ → Emit
step_normal fl c =
    if c == b'\\'
    then to escape
    else if c == b'('
    then to after_open
    else if c == b')'
    then emit close_group
    else if c == b'|'
    then emit bar
    else if c == b'*'
    then to after_star
    else if c == b'+'
    then emit plus
    else if c == b'?'
    then emit question
    else if c == b'['
    then to class_start
    else if c == b'.'
    then emit (atom (char (if fl.dotall then anything else not_newline)))
    else if c == b'^'
    then emit (atom (line_start fl.multiline))
    else if c == b'$'
    then emit (atom (line_end fl.multiline))
    else emit (atom (one c))

is_name_character : ℕ → Bool
is_name_character c = ascii_upper c || ascii_lower c || ascii_digit c

step_escape : ℕ → Emit
step_escape c =
    if c == b'b'
    then emit (atom boundary)
    else if c == b's'
    then emit (atom (char (one_of (space ∷ []))))
    else if c == b'd'
    then emit (atom (char (one_of (digit ∷ []))))
    else if is_name_character c
    then none
    else emit (atom (one c))

-- `lo-` was read of a range: the last item becomes its lower end.
start_range : Bool → List Item → Emit
start_range neg (span lo _ ∷ items) = to (class_range neg items lo)
start_range neg _ = none

step_class : Bool → List Item → ℕ → Emit
step_class neg items c =
    if c == b']'
    then emit (atom (class neg items))
    else if c == b'\\'
    then to (class_escape neg items)
    else if c == b'-'
    then start_range neg items
    else to (in_class neg (span c c ∷ items))

step_class_escape : Bool → List Item → ℕ → Emit
step_class_escape neg items c =
    if c == b's'
    then to (in_class neg (space ∷ items))
    else if is_name_character c
    then none
    else to (in_class neg (span c c ∷ items))

step : Flags → Mode → ℕ → Emit
unfolding step_normal step_escape step_class step_class_escape start_range is_name_character
step fl normal c = step_normal fl c
step fl escape c = step_escape c
step fl after_star c =
    if c == b'?' then emit (repeat false) else prepend (repeat true) (step_normal fl c)
step fl after_open c =
    if c == b'?' then to after_open_question else prepend (open_group true) (step_normal fl c)
step fl after_open_question c = if c == b':' then emit (open_group false) else none
step fl class_start c = if c == b'^' then to (in_class true []) else step_class false [] c
step fl (in_class neg items) c = step_class neg items c
step fl (class_escape neg items) c = step_class_escape neg items c
step fl (class_range neg items lo) c = to (in_class neg (span lo c ∷ items))

scan : Flags → Mode → Text → Option (List Token)
unfolding step
scan fl normal [] = some []
scan fl after_star [] = some (repeat true ∷ [])
scan fl _ [] = none
scan fl m (c ∷ s) = elim (step fl m c) [
  | none ↦ none
  | some (ts, m') ↦ elim (scan fl m' s) [ none ↦ none | some rest ↦ some (ts ++ rest) ]
]

-- An open group: its number if it captures, its finished branches and the parts of the last one,
-- both in reverse.
pub record Frame : Type 0 where
  pub number : Option ℕ
  pub branches : List Regex
  pub parts : List Regex

abbrev seq_onto : List Regex → Regex → Regex
seq_onto [] r = r
seq_onto (p ∷ ps) r = seq_onto ps (seq p r)

abbrev sequence : List Regex → Regex
sequence [] = empty
sequence (p ∷ ps) = seq_onto ps p

abbrev alternatives : List Regex → Regex → Regex
alternatives [] r = r
alternatives (b ∷ bs) r = alternatives bs (alt b r)

abbrev wrap : Option ℕ → Regex → Regex
wrap none r = r
wrap (some n) r = group n r

abbrev finish : Frame → Regex
finish fr = wrap fr.number (alternatives fr.branches (sequence fr.parts))

abbrev add : Regex → Frame → Frame
add r fr = record fr { parts = r ∷ fr.parts }

abbrev enter : Option ℕ → Frame
enter n = record { number = n; branches = []; parts = [] }

abbrev end_branch : Frame → Frame
end_branch fr = record fr { branches = sequence fr.parts ∷ fr.branches; parts = [] }

-- A quantifier applies to the last part.
abbrev quantify : (Regex → Regex) → List Regex → Option (List Regex)
quantify q [] = none
quantify q (p ∷ ps) = some (q p ∷ ps)

parse : List Frame → Frame → ℕ → List Token → Option Regex
parse [] fr n [] = some (finish fr)
parse (_ ∷ _) fr n [] = none
parse ps fr n (atom r ∷ ts) = parse ps (add r fr) n ts
parse ps fr n (open_group true ∷ ts) = parse (fr ∷ ps) (enter (some n)) (suc n) ts
parse ps fr n (open_group false ∷ ts) = parse (fr ∷ ps) (enter none) n ts
parse [] fr n (close_group ∷ ts) = none
parse (p ∷ ps) fr n (close_group ∷ ts) = parse ps (add (finish fr) p) n ts
parse ps fr n (bar ∷ ts) = parse ps (end_branch fr) n ts
parse ps fr n (plus ∷ ts) = elim (quantify (λ r. seq r (star true r)) fr.parts) [
  | none ↦ none
  | some parts ↦ parse ps (record fr { parts = parts }) n ts
]
parse ps fr n (question ∷ ts) = elim (quantify (λ r. alt r empty) fr.parts) [
  | none ↦ none
  | some parts ↦ parse ps (record fr { parts = parts }) n ts
]
parse ps fr n (repeat greedy ∷ ts) = elim (quantify (star greedy) fr.parts) [
  | none ↦ none
  | some parts ↦ parse ps (record fr { parts = parts }) n ts
]

unfoldable pub compile : Flags → Text → Option Regex
unfolding scan parse
compile fl s = elim (scan fl normal s) [ none ↦ none | some ts ↦ parse [] (enter none) 1 ts ]

abbrev pub or_never : Option Regex → Regex
or_never none = never
or_never (some r) = r

-- The expression of a pattern, which matches nothing where `re.compile` would raise.
unfoldable pub compiled : Flags → Text → Regex
unfolding compile
compiled fl s = or_never (compile fl s)
