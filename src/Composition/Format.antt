-- ===== src/Composition/Format.antt =====
-- hack/render-composition.py: `go_format`.
pub mod Escape
use jenkins_to_actions_migra.Prelude.{
  ℕ, zero, suc, Bool, true, false, Text, codes, Option, none, some, List, [], ◌∷◌, ◌++◌, map,
  get_elem?, ◌==◌, if◌then◌else◌,
}
use jenkins_to_actions_migra.Unicode.{Unicode}
use jenkins_to_actions_migra.Unicode.Digits.{int}
use jenkins_to_actions_migra.Regex.{Regex}
use jenkins_to_actions_migra.Regex.Compile.{plain, compiled}
use jenkins_to_actions_migra.Regex.Match.{Match, all_matches, group_text}
use jenkins_to_actions_migra.Python.{Result, ok, ◌>>=◌, or_raise}
use jenkins_to_actions_migra.Python.Access.{str}
use jenkins_to_actions_migra.Value.{Value}

-- `_VERB`
unfoldable pub verb : Regex
unfolding compiled
verb = compiled plain (codes "%(?:\\[(\\d+)\\])?([sdv])")

-- `fmt.replace("%%", "\x00")`; the flag says that a `%` was read and not yet written.
unfoldable pub hide_percents : Bool → Text → Text
hide_percents false [] = []
hide_percents true [] = b'%' ∷ []
hide_percents false (c ∷ t) =
    let rest = hide_percents (c == b'%') t in if c == b'%' then rest else c ∷ rest
hide_percents true (c ∷ t) =
    let rest = hide_percents false t in if c == b'%' then 0 ∷ rest else b'%' ∷ c ∷ rest

-- `text.replace("\x00", "%")`
unfoldable pub show_percents : Text → Text
show_percents text = map (λ c. if c == 0 then b'%' else c) text

-- `values[-1]`
unfoldable pub last : List Value → Option Value
last [] = none
last (v ∷ []) = some v
last (v ∷ w ∷ vs) = last (w ∷ vs)

-- `values[n - 1]`, where -1 is the last place.
unfoldable pub numbered : List Value → ℕ → Option Value
unfolding last
numbered values zero = last values
numbered values (suc i) = get_elem? values i

-- The value that a verb takes and the next index, given the digits of an explicit index.
unfoldable pub argument : List Value → ℕ → Text → Result (Value × ℕ)
unfolding numbered int
argument values next [] = do v ← or_raise (get_elem? values next); ok (v, suc next)
argument values next (c ∷ t) = do
  n ← or_raise (int (c ∷ t))
  v ← or_raise (numbered values n)
  ok (v, n)

module _ (repr : Value → Text) where
  -- The text up to the last verb, with the verbs replaced from left to right.
  unfoldable pub fill : List Value → ℕ → List Match → Result Text
  unfolding argument str group_text
  fill values next [] = ok []
  fill values next (m ∷ ms) = do
    (v, next') ← argument values next (group_text 1 m)
    rest ← fill values next' ms
    ok (m.skipped ++ str repr v ++ rest)

  unfoldable pub go_format : ⦃u : Unicode⦄ → Text → List Value → Result Text
  unfolding verb fill hide_percents show_percents all_matches
  go_format fmt values =
      let (ms, tail) = all_matches verb (hide_percents false fmt) in
      do filled ← fill values 0 ms; ok (show_percents (filled ++ tail))
