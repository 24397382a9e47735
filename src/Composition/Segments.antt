-- ===== src/Composition/Segments.antt =====
-- hack/render-composition.py: `_segments`, and `get_path` and `set_path` from the text of a path on.
use jenkins_to_actions_migra.Prelude.{Text, codes, List, [], ◌∷◌, if◌then◌else◌}
use jenkins_to_actions_migra.Unicode.{Unicode}
use jenkins_to_actions_migra.Unicode.Digits.{isdigit, int}
use jenkins_to_actions_migra.Regex.{Regex}
use jenkins_to_actions_migra.Regex.Compile.{plain, compiled}
use jenkins_to_actions_migra.Regex.Match.{find_iter, group_text}
use jenkins_to_actions_migra.Python.{Result, ok, ◌>>=◌, or_raise, traverse}
use jenkins_to_actions_migra.Python.Access.{text_of}
use jenkins_to_actions_migra.Value.{Value}
use jenkins_to_actions_migra.Composition.{Seg, key, index, get_path, set_path}

-- `_SEG`
unfoldable pub seg_pattern : Regex
unfolding compiled
seg_pattern = compiled plain (codes "([^.\\[\\]]+)|\\[([^\\]]+)\\]")

-- What stands in brackets: an index if it consists of digits.
unfoldable pub bracketed : Text → Result Seg
unfolding isdigit int
bracketed t = if isdigit t then (do n ← or_raise (int t); ok (index n)) else ok (key t)

-- The body of the loop of `_segments`, for the two groups of a match.
unfoldable pub segment : Text → Text → Result Seg
unfolding bracketed
segment [] bracket = bracketed bracket
segment (c ∷ name) bracket = ok (key (c ∷ name))

module _ ⦃u : Unicode⦄ where
  unfoldable pub segments : Text → Result (List Seg)
  unfolding seg_pattern segment find_iter group_text traverse
  segments path =
      traverse (λ m. segment (group_text 1 m) (group_text 2 m)) (find_iter seg_pattern path)

  -- `get_path(obj, path)`
  unfoldable pub read_path : Value → Value → Result Value
  unfolding segments get_path text_of
  read_path obj path = do t ← text_of path; segs ← segments t; ok (get_path obj segs)

  -- `set_path(obj, path, value)`
  unfoldable pub write_path : Value → Value → Value → Result Value
  unfolding segments set_path text_of
  write_path obj path value = do t ← text_of path; segs ← segments t; set_path obj segs value
