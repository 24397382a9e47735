-- ===== src/Parser/StepCalls.antt =====
-- `step_calls`, as `scan` of tools/migration-analyzer/src/migration_analyzer/parser.py builds it.
use jenkins_to_actions_migra.Prelude.{
  ℕ, suc, ◌+◌, ◌≤◌, Bool, true, false, List, [], ◌∷◌, ◌++◌, ◌≡◌, refl, sym, ap, ◌∙◌, inl, inr,
  Option, none, some, map, Text, All, All-append, All-map, length, length-append, filter, equal,
  equal_sound, equal_cong, contains, Distinct, Bool-cases, arith, if◌then◌else◌,
}
use mathlib.Core.List.{append-nil, append_assoc}
use jenkins_to_actions_migra.Unicode.{Unicode}
use jenkins_to_actions_migra.Regex.Match.{find_iter, group_text}
use jenkins_to_actions_migra.Regex.Sub.{find_iter-All}
use jenkins_to_actions_migra.Regex.Captures.{captures, length-group_text}
use jenkins_to_actions_migra.Parser.Patterns.{step_call}
use jenkins_to_actions_migra.Parser.{
  Calls, record_call, record_calls, lookup_calls, find_all, calls_from,
}

abbrev pub lines_or_none : Option (List ℕ) → List ℕ
lines_or_none none = []
lines_or_none (some is) = is

-- The lines recorded for a name, none if it is no key.
abbrev pub lines_of : Text → Calls → List ℕ
lines_of name calls = lines_or_none (lookup_calls name calls)

-- The line `i`, once for each time that the name is among `names`.
abbrev pub on_line : Text → ℕ → List Text → List ℕ
on_line name i names = map (λ n. i) (filter (λ n. equal n name) names)

module _ ⦃u : Unicode⦄ where
  -- The lines on which the pattern for calls finds the name, in order, once for each call.
  abbrev pub call_lines : Text → ℕ → List Text → List ℕ
  call_lines name i [] = []
  call_lines name i (line ∷ lines) =
      on_line name i (find_all step_call line) ++ call_lines name (suc i) lines

abbrev once_if : Bool → ℕ → List ℕ
once_if b i = if b then i ∷ [] else []

lines_of-record_call :
    (k name : Text) (i : ℕ) (calls : Calls)
    → lines_of k (record_call name i calls) ≡ lines_of k calls ++ once_if (equal name k) i
unfolding record_call lookup_calls
lines_of-record_call k name i [] = ground arith
lines_of-record_call k name i ((n, is) ∷ calls) = elim (Bool-cases (equal n name)) [
  | inl e ↦
      let c = equal_cong n name k e in
      ground (arith, append-nil (lines_or_none (lookup_calls k calls)))
  | inr e ↦
      let ih = lines_of-record_call k name i calls in
      let sound = λ (p : equal n k ≡ true).
        λ (q : equal name k ≡ true). sym e ∙ ap (equal n) (equal_sound name k q) ∙ p in
      ground (arith, append-nil is, sound)
]

lines_of-record_calls :
    (k : Text) (names : List Text) (i : ℕ) (calls : Calls)
    → lines_of k (record_calls names i calls) ≡ lines_of k calls ++ on_line k i names
unfolding record_calls
lines_of-record_calls k [] i calls = sym (append-nil (lines_of k calls))
lines_of-record_calls k (name ∷ names) i calls =
    lines_of-record_calls k names i (record_call name i calls)
    ∙ ap (λ x. x ++ on_line k i names) (lines_of-record_call k name i calls)
    ∙ append_assoc (lines_of k calls) (once_if (equal name k) i) (on_line k i names)
    ∙ ap (λ x. lines_of k calls ++ x) (once_if-on_line (equal name k))
  where
    once_if-on_line :
        (b : Bool)
        → once_if b i ++ on_line k i names
          ≡ map
              (λ n. i)
              (let rest = filter (λ n. equal n k) names in if b then name ∷ rest else rest)
    once_if-on_line true = refl
    once_if-on_line false = refl

-- What holds of every entry when only names of at least one character and the line `i` are recorded.
pub record IsCall (n : ℕ) (call : Text × List ℕ) : Type 0 where
  pub named : 1 ≤ length call.0
  pub called : 1 ≤ length call.1
  pub in_file : All (λ i. (1 ≤ i) × (i ≤ n)) call.1

module _ (n : ℕ) where
  record_call-IsCall :
      (name : Text) (i : ℕ) (calls : Calls)
      → 1 ≤ length name
      → (1 ≤ i) × (i ≤ n)
      → All (IsCall n) calls
      → All (IsCall n) (record_call name i calls)
  unfolding record_call
  record_call-IsCall name i [] h k g =
      (record { named = h; called = omega arith; in_file = (k, tt) }, tt)
  record_call-IsCall name i ((m, is) ∷ calls) h k g = elim (Bool-cases (equal m name)) [
    | inl e ↦ rw e (
      record {
        named = g.0.named;
        called = omega (arith, length-append is (i ∷ []));
        in_file = All-append (λ i. (1 ≤ i) × (i ≤ n)) is (i ∷ []) g.0.in_file (k, tt);
      },
      g.1,
    )
    | inr e ↦ rw e (g.0, record_call-IsCall name i calls h k g.1)
  ]

  record_calls-IsCall :
      (names : List Text) (i : ℕ) (calls : Calls)
      → All (λ name. 1 ≤ length name) names
      → (1 ≤ i) × (i ≤ n)
      → All (IsCall n) calls
      → All (IsCall n) (record_calls names i calls)
  unfolding record_calls
  record_calls-IsCall [] i calls h k g = g
  record_calls-IsCall (name ∷ names) i calls h k g =
      record_calls-IsCall names i (record_call name i calls) h.1 k
        (record_call-IsCall name i calls h.0 k g)

keys : Calls → List Text
keys calls = map (λ c. c.0) calls

contains-record_call :
    (k name : Text) (i : ℕ) (calls : Calls)
    → equal k name ≡ false
    → contains k (keys calls) ≡ false
    → contains k (keys (record_call name i calls)) ≡ false
unfolding record_call contains keys
contains-record_call k name i [] h g = ground arith
contains-record_call k name i ((m, is) ∷ calls) h g = elim (Bool-cases (equal m name)) [
  | inl e ↦ rw e g
  | inr e ↦ rw e (ground (arith, contains-record_call k name i calls h))
]

record_call-Distinct :
    (name : Text) (i : ℕ) (calls : Calls)
    → Distinct (keys calls)
    → Distinct (keys (record_call name i calls))
unfolding record_call keys
record_call-Distinct name i [] h = (unfold contains in refl, tt)
record_call-Distinct name i ((m, is) ∷ calls) h = elim (Bool-cases (equal m name)) [
  | inl e ↦ rw e h
  | inr e ↦ rw e (
      unfold keys in
      (contains-record_call m name i calls e h.0, record_call-Distinct name i calls h.1))
]

record_calls-Distinct :
    (names : List Text) (i : ℕ) (calls : Calls)
    → Distinct (keys calls)
    → Distinct (keys (record_calls names i calls))
unfolding record_calls
record_calls-Distinct [] i calls h = h
record_calls-Distinct (name ∷ names) i calls h =
    record_calls-Distinct names i (record_call name i calls) (record_call-Distinct name i calls h)

module _ ⦃u : Unicode⦄ where
  lines_of-calls_from :
      (k : Text) (i : ℕ) (lines : List Text) (calls : Calls)
      → lines_of k (calls_from i lines calls) ≡ lines_of k calls ++ call_lines k i lines
  unfolding calls_from
  lines_of-calls_from k i [] calls = sym (append-nil (lines_of k calls))
  lines_of-calls_from k i (line ∷ lines) calls =
      let names = find_all step_call line in
      lines_of-calls_from k (suc i) lines (record_calls names i calls)
      ∙ ap (λ x. x ++ call_lines k (suc i) lines) (lines_of-record_calls k names i calls)
      ∙ append_assoc (lines_of k calls) (on_line k i names) (call_lines k (suc i) lines)

  find_all-named : (line : Text) → All (λ name. 1 ≤ length name) (find_all step_call line)
  unfolding find_all captures step_call
  find_all-named line =
      All-map (λ name. 1 ≤ length name) (group_text 1) (find_iter step_call line)
        (find_iter-All step_call (λ m. 1 ≤ length (group_text 1 m))
          (λ b s m e. length-group_text 1 1 step_call b s m refl e) line)

  calls_from-IsCall :
      (n i : ℕ) (lines : List Text) (calls : Calls)
      → 1 ≤ i
      → i + length lines ≤ suc n
      → All (IsCall n) calls
      → All (IsCall n) (calls_from i lines calls)
  unfolding calls_from
  calls_from-IsCall n i [] calls h k g = g
  calls_from-IsCall n i (line ∷ lines) calls h k g =
      calls_from-IsCall n (suc i) lines (record_calls (find_all step_call line) i calls)
        (omega arith) (omega arith)
        (record_calls-IsCall n (find_all step_call line) i calls (find_all-named line)
          (h, omega arith) g)

  calls_from-Distinct :
      (i : ℕ) (lines : List Text) (calls : Calls)
      → Distinct (keys calls)
      → Distinct (keys (calls_from i lines calls))
  unfolding calls_from
  calls_from-Distinct i [] calls h = h
  calls_from-Distinct i (line ∷ lines) calls h =
      calls_from-Distinct (suc i) lines (record_calls (find_all step_call line) i calls)
        (record_calls-Distinct (find_all step_call line) i calls h)

  -- For every name and all lines, the recorded lines of the name are those on which the call pattern
  -- finds it, in order and once for each call; a name that is never called has none.
  pub lines_of-step_calls :
      (name : Text) (lines : List Text)
      → lines_of name (calls_from 1 lines []) ≡ call_lines name 1 lines
  unfolding lookup_calls
  lines_of-step_calls name lines = lines_of-calls_from name 1 lines []

  -- Every entry has a name of at least one character, at least one line, and only lines of the file.
  pub step_calls-IsCall : (lines : List Text) → All (IsCall (length lines)) (calls_from 1 lines [])
  step_calls-IsCall lines =
      calls_from-IsCall (length lines) 1 lines [] (omega arith) (omega arith) tt

  -- No name is recorded twice.
  pub step_calls-Distinct : (lines : List Text) → Distinct (map (λ c. c.0) (calls_from 1 lines []))
  unfolding keys
  step_calls-Distinct lines = calls_from-Distinct 1 lines [] tt
