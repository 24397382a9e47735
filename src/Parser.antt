-- ===== src/Parser.antt =====
-- tools/migration-analyzer/src/migration_analyzer/parser.py: comments are stripped, and stages,
-- library, credential IDs, step calls and local definitions are extracted from what is left.
pub mod Patterns
pub mod Lines
pub mod StepCalls
pub mod Credentials
pub mod Comments
use jenkins_to_actions_migra.Prelude.{
  ℕ, suc, Bool, true, false, List, [], ◌∷◌, ◌++◌, Option, none, some, map, length, replicate,
  newline, Text, equal, contains, join, split_lines, count, ◌==◌, if◌then◌else◌,
}
use jenkins_to_actions_migra.Unicode.{Unicode}
use jenkins_to_actions_migra.Regex.{Regex}
use jenkins_to_actions_migra.Regex.Match.{Match, search, find_iter, sub, group_text}
use Patterns.{
  block_comment, line_comment, shebang, stage, library, credentials, credentials_id, step_call,
  local_def,
}

-- `dict[str, list[int]]`, in the order of insertion.
abbrev pub Calls : Type 0
Calls = List (Text × List ℕ)

pub record Scanned : Type 0 where
  pub original_lines : List Text
  pub lines : List Text
  pub stages : List Text
  pub shared_library : Option Text
  pub credential_ids : List Text
  pub step_calls : Calls
  pub local_defs : List Text

-- `_blank_keep_newlines`
unfoldable pub blank_keep_newlines : Match → Text
unfolding count
blank_keep_newlines m = replicate (count newline m.text) newline

module _ ⦃u : Unicode⦄ where
  -- The last line of `strip_comments`, for one line.
  unfoldable pub strip_line : Text → Text
  unfolding sub line_comment group_text
  strip_line line = sub line_comment (group_text 1) line

  -- The text after the first two substitutions.
  unfoldable pub strip_blocks : Text → Text
  unfolding sub shebang block_comment blank_keep_newlines
  strip_blocks text = sub block_comment blank_keep_newlines (sub shebang (λ m. []) text)

  unfoldable pub strip_comments : Text → Text
  unfolding strip_line strip_blocks join split_lines
  strip_comments text = join (newline ∷ []) (map strip_line (split_lines (strip_blocks text)))

-- `seen.setdefault(name)` on a dict that is used as an ordered set.
unfoldable pub add_seen : List Text → List Text → List Text
unfolding contains
add_seen seen [] = seen
add_seen seen (name ∷ names) =
    add_seen (if contains name seen then seen else seen ++ name ∷ []) names

-- `step_calls.setdefault(name, []).append(i)`
unfoldable pub record_call : Text → ℕ → Calls → Calls
unfolding equal
record_call name i [] = (name, i ∷ []) ∷ []
record_call name i ((n, is) ∷ calls) =
    let later = record_call name i calls in
    if equal n name then (n, is ++ i ∷ []) ∷ calls else (n, is) ∷ later

unfoldable pub record_calls : List Text → ℕ → Calls → Calls
unfolding record_call
record_calls [] i calls = calls
record_calls (name ∷ names) i calls = record_calls names i (record_call name i calls)

-- `step_calls[name]`; `none` is a missing key.
unfoldable pub lookup_calls : Text → Calls → Option (List ℕ)
unfolding equal
lookup_calls name [] = none
lookup_calls name ((n, is) ∷ calls) =
    let later = lookup_calls name calls in if equal n name then some is else later

module _ ⦃u : Unicode⦄ where
  -- `findall` of a pattern with one group.
  unfoldable pub find_all : Regex → Text → List Text
  unfolding find_iter group_text
  find_all r t = map (group_text 1) (find_iter r t)

  -- The loop over the lines, from line number `i`.
  unfoldable pub calls_from : ℕ → List Text → Calls → Calls
  unfolding find_all step_call record_calls
  calls_from i [] calls = calls
  calls_from i (line ∷ lines) calls =
      calls_from (suc i) lines (record_calls (find_all step_call line) i calls)

  abbrev library_name : Option Match → Option Text
  library_name none = none
  library_name (some m) = some (group_text 1 m)

  -- `scan` after the assertion.
  unfoldable pub extract : List Text → List Text → Scanned
  unfolding find_all stage library credentials credentials_id local_def add_seen calls_from
  extract original cleaned =
      let joined = join (newline ∷ []) cleaned in
      record {
        original_lines = original;
        lines = cleaned;
        stages = find_all stage joined;
        shared_library = library_name (search library joined);
        credential_ids =
            add_seen (add_seen [] (find_all credentials joined)) (find_all credentials_id joined);
        step_calls = calls_from 1 cleaned [];
        local_defs = find_all local_def joined;
      }

  -- `none` is a failure of the assertion.
  unfoldable pub scan : Text → Option Scanned
  unfolding strip_comments split_lines extract
  scan text =
      let original = split_lines text in
      let cleaned = split_lines (strip_comments text) in
      if length cleaned == length original then some (extract original cleaned) else none
