-- ===== src/Analyzer/Total.antt =====
-- `analyze_text` of tools/migration-analyzer/src/migration_analyzer/analyzer.py raises on no text:
-- no index is out of range, no key is missing, and the scanner's assertion holds.
use jenkins_to_actions_migra.Prelude.{
  ℕ, suc, ◌+◌, ◌-◌, ◌≤◌, Bool, true, false, not, List, [], ◌∷◌, ◌≡◌, refl, sym, inl, inr, Option,
  some, map, Text, All, All-map, All-weaken, length, get_elem?, get_elem?-total, traverse-total,
  filter_some, filter_some-total, filter_some-All, ◌>>=◌, >>=-eq-some, some_inj, Bool-cases,
  Option-cases, equal, equal_sym, contains, contains_self, split_lines, text_le, arith,
  if◌then◌else◌,
}
use jenkins_to_actions_migra.Prelude.Sorting.{sort-All}
use jenkins_to_actions_migra.Unicode.{Unicode, is_upper}
use jenkins_to_actions_migra.Regex.Match.{Match, search}
use jenkins_to_actions_migra.Model.{Finding}
use jenkins_to_actions_migra.Parser.{Calls, Scanned, lookup_calls, strip_comments, extract}
use jenkins_to_actions_migra.Parser.Lines.{length-strip_comments, scan-total}
use jenkins_to_actions_migra.Parser.StepCalls.{IsCall, step_calls-IsCall}
use jenkins_to_actions_migra.Rules.{rules}
use jenkins_to_actions_migra.Rules.Entry.{Rule}
use jenkins_to_actions_migra.Rules.Names.{known_steps}
use jenkins_to_actions_migra.Analyzer.{
  snippet_at, rule_finding, after_match, rule_findings, table_findings, starts_upper,
  is_library_step, library_steps, step_finding, report_of, analyze_text,
}

-- The call returns a value.
abbrev pub Returns {ℓ} : {A : Type ℓ} → Option A → Type ℓ
Returns {A} o = (a : A) × (o ≡ some a)

-- What `scan` guarantees.
pub record IsScanned (s : Scanned) : Type 0 where
  pub same_length : length s.original_lines ≡ length s.lines
  pub calls : All (IsCall (length s.lines)) s.step_calls

pub extract-IsScanned :
    ⦃u : Unicode⦄
    → (t : Text) → IsScanned (extract (split_lines t) (split_lines (strip_comments t)))
unfolding extract
extract-IsScanned t = record {
  same_length = sym (length-strip_comments t);
  calls = step_calls-IsCall (split_lines (strip_comments t));
}

snippet_at-total :
    (originals : List Text) (i : ℕ)
    → 1 ≤ i
    → i ≤ length originals
    → Returns (snippet_at originals i)
unfolding snippet_at
snippet_at-total originals i h k =
    let (line, e) = get_elem?-total originals (i - 1) (omega arith) in rw e (_, refl)

rule_finding-total :
    (rule : Rule) (originals : List Text) (i : ℕ) (m : Match)
    → 1 ≤ i
    → i ≤ length originals
    → Returns (rule_finding rule originals i m)
unfolding rule_finding
rule_finding-total rule originals i m h k =
    let (x, e) = snippet_at-total originals i h k in rw e (_, refl)

after_match-total :
    (once : Bool) (found : Option Finding) (later : Option (List Finding))
    → Returns found
    → Returns later
    → Returns (after_match once found later)
after_match-total true found later (f, e) k = rw e (_, refl)
after_match-total false found later (f, e) (fs, e') = rw (e, e') (_, refl)

module _ ⦃u : Unicode⦄ where
  rule_findings-total :
      (rule : Rule) (originals : List Text) (i : ℕ) (lines : List Text)
      → 1 ≤ i
      → i + length lines ≤ suc (length originals)
      → Returns (rule_findings rule originals i lines)
  unfolding rule_findings
  rule_findings-total rule originals i [] h k = ([], refl)
  rule_findings-total rule originals i (line ∷ lines) h k =
      let later = rule_findings-total rule originals (suc i) lines (omega arith) (omega arith) in
      elim (Option-cases (search rule.pattern line)) [
        | inl e ↦ rw (rule_findings, e) later
        | inr (m, e) ↦
            rw (rule_findings, e)
              (after_match-total rule.once _ _
                (rule_finding-total rule originals i m h (omega arith)) later)
      ]

  table_findings-total :
      (table : List Rule) (s : Scanned) → IsScanned s → Returns (table_findings table s)
  unfolding table_findings
  table_findings-total [] s v = ([], refl)
  table_findings-total (rule ∷ rest) s v =
      let (fs, e) =
        rule_findings-total rule s.original_lines 1 s.lines (omega arith)
          (omega (arith, v.same_length)) in
      let (later, e') = table_findings-total rest s v in rw (e, e') (_, refl)

  is_library_step-total :
      (local_defs : List Text) (name : Text)
      → 1 ≤ length name
      → Returns (is_library_step local_defs name)
  unfolding is_library_step starts_upper
  is_library_step-total local_defs [] h = elim h [ ]
  is_library_step-total local_defs (c ∷ name) h =
      by_tests (contains (c ∷ name) known_steps) (contains (c ∷ name) local_defs)
    where
      by_tests :
          (a b : Bool)
          → Returns (if a then some false else if b then some false else some (not (is_upper c)))
      by_tests true b = (false, refl)
      by_tests false true = (false, refl)
      by_tests false false = (not (is_upper c), refl)

abbrev pub names_of : Scanned → List Text
names_of s = map (λ c. c.0) s.step_calls

lookup_calls-IsCall :
    (n : ℕ) (name : Text) (calls : Calls)
    → All (IsCall n) calls
    → contains name (map (λ c. c.0) calls) ≡ true
    → (is : List ℕ) × (lookup_calls name calls ≡ some is)
      × (1 ≤ length is)
      × All (λ i. (1 ≤ i) × (i ≤ n)) is
unfolding lookup_calls contains
lookup_calls-IsCall n name [] g h = cc
lookup_calls-IsCall n name ((m, is) ∷ calls) g h = elim (Bool-cases (equal m name)) [
  | inl e ↦ rw e (is, refl, g.0.called, g.0.in_file)
  | inr e ↦ rw e (lookup_calls-IsCall n name calls g.1 (ground (arith, equal_sym m name)))
]

module _ ⦃u : Unicode⦄ where
  step_finding-total :
      (s : Scanned) (name : Text)
      → IsScanned s
      → contains name (names_of s) ≡ true
      → Returns (step_finding s name)
  unfolding step_finding
  step_finding-total s name v h =
      let (is, e, called, within) =
        lookup_calls-IsCall (length s.lines) name s.step_calls v.calls h in
      let (first, e', low, high) = first_of_lines (length s.lines) is called within in
      let (x, e'') = snippet_at-total s.original_lines first low (omega (arith, v.same_length)) in
      rw (e, ◌>>=◌, e', ◌>>=◌, e'') (_, refl)
    where
      first_of_lines :
          (n : ℕ) (is : List ℕ)
          → 1 ≤ length is
          → All (λ i. (1 ≤ i) × (i ≤ n)) is
          → (first : ℕ) × (get_elem? is 0 ≡ some first) × (1 ≤ first) × (first ≤ n)
      first_of_lines n [] h k = elim h [ ]
      first_of_lines n (i ∷ is) h k = (i, refl, k.0.0, k.0.1)

  library_steps-total : (s : Scanned) → IsScanned s → Returns (library_steps s)
  unfolding library_steps
  library_steps-total s v =
      let (names, e) = filter_some-total (is_library_step s.local_defs) (names_of s) (
        All-map (λ name. Returns (is_library_step s.local_defs name)) (λ c. c.0) s.step_calls
          (All-weaken (IsCall (length s.lines)) (λ c. Returns (is_library_step s.local_defs c.0))
            s.step_calls (λ c h. is_library_step-total s.local_defs c.0 h.named) v.calls)) in
      rw e (_, refl)

  library_steps-called :
      (s : Scanned) (names : List Text)
      → library_steps s ≡ some names
      → All (λ name. contains name (names_of s) ≡ true) names
  unfolding library_steps
  library_steps-called s names e =
      let (kept, e', e'') =
        >>=-eq-some (filter_some (is_library_step s.local_defs) (names_of s)) _ e in
      rw (← some_inj e'') (
        sort-All text_le (λ name. contains name (names_of s) ≡ true) kept
          (filter_some-All (λ name. contains name (names_of s) ≡ true)
            (is_library_step s.local_defs) (names_of s) kept (contains_self (names_of s)) e'))

  pub report_of-total :
      (table : List Rule) (source : Text) (s : Scanned)
      → IsScanned s
      → Returns (report_of table source s)
  unfolding report_of
  report_of-total table source s v =
      let (found, e) = table_findings-total table s v in
      let (steps, e') = library_steps-total s v in
      let (called, e'') = traverse-total (step_finding s) steps (
        All-weaken (λ name. contains name (names_of s) ≡ true)
          (λ name. Returns (step_finding s name)) steps (λ name h. step_finding-total s name v h)
          (library_steps-called s steps e')) in
      rw (e, e', e'') (_, refl)

  -- For every text and source name, `analyze_text` returns a report.
  pub analyze_text-total : (text source : Text) → Returns (analyze_text text source)
  unfolding analyze_text
  analyze_text-total text source = rw (scan-total text) (
      report_of-total rules source (extract (split_lines text) (split_lines (strip_comments text)))
        (extract-IsScanned text))
