-- ===== src/Analyzer.antt =====
-- tools/migration-analyzer/src/migration_analyzer/analyzer.py: the rules applied to a scanned file.
-- `none` is a raised exception: an index out of range, a missing key, the scanner's assertion.
pub mod Total
pub mod Findings
pub mod Reported
pub mod PerRule
pub mod LibrarySteps
pub mod Kebab
use jenkins_to_actions_migra.Prelude.{
  ℕ, zero, suc, ◌-◌, Bool, true, false, not, ◌&&◌, ◌||◌, List, [], ◌∷◌, ◌++◌, Option, none, some,
  map, length, filter, get_elem?, traverse, filter_some, ◌>>=◌, Text, codes, concat, equal,
  contains, text_le, show, ltb, leb, ◌==◌, if◌then◌else◌,
}
use jenkins_to_actions_migra.Prelude.Sorting.{sort}
use jenkins_to_actions_migra.Unicode.{Unicode, is_upper, to_lower, strip, drop_while}
use jenkins_to_actions_migra.Regex.{Regex, group_count}
use jenkins_to_actions_migra.Regex.Match.{Match, search, search_from, group_text}
use jenkins_to_actions_migra.Model.{Category, manual, Finding, Report}
use jenkins_to_actions_migra.Parser.{Scanned, lookup_calls, scan}
use jenkins_to_actions_migra.Rules.{rules}
use jenkins_to_actions_migra.Rules.Entry.{Rule}
use jenkins_to_actions_migra.Rules.Names.{known_steps, plugin_names}

-- `original_lines[lineno - 1].strip()`
unfoldable pub snippet_at : List Text → ℕ → Option Text
unfolding strip
snippet_at originals i = do line ← get_elem? originals (i - 1); some (strip line)

-- `m.group(1) if m.groups() and m.group(1) else ""`
unfoldable pub detail_of : Regex → Match → Text
unfolding group_count group_text
detail_of pattern m = if ltb 0 (group_count pattern) then group_text 1 m else []

unfoldable pub rule_finding : Rule → List Text → ℕ → Match → Option Finding
unfolding snippet_at detail_of
rule_finding rule originals i m = do
  snippet ← snippet_at originals i
  some (record {
    rule = rule.id;
    category = rule.category;
    line = i;
    snippet = snippet;
    title = rule.title;
    actions_equivalent = rule.actions_equivalent;
    note = rule.note;
    detail = detail_of rule.pattern m;
  })

-- What follows a matched line: the end of the loop if the rule reports once.
abbrev after_match : Bool → Option Finding → Option (List Finding) → Option (List Finding)
after_match once found later = do f ← found; fs ← (if once then some [] else later); some (f ∷ fs)

module _ ⦃u : Unicode⦄ where
  -- The inner loop of `analyze_text`, from line `i`.
  unfoldable pub rule_findings : Rule → List Text → ℕ → List Text → Option (List Finding)
  unfolding search_from rule_finding
  rule_findings rule originals i [] = some []
  rule_findings rule originals i (line ∷ lines) =
      let later = rule_findings rule originals (suc i) lines in
      elim (search rule.pattern line) [
        | none ↦ later
        | some m ↦ after_match rule.once (rule_finding rule originals i m) later
      ]

  -- The outer loop.
  unfoldable pub table_findings : List Rule → Scanned → Option (List Finding)
  unfolding rule_findings
  table_findings [] s = some []
  table_findings (rule ∷ rest) s = do
    fs ← rule_findings rule s.original_lines 1 s.lines
    later ← table_findings rest s
    some (fs ++ later)

  -- `name[0].isupper()`
  unfoldable pub starts_upper : Text → Option Bool
  unfolding is_upper
  starts_upper [] = none
  starts_upper (c ∷ t) = some (is_upper c)

  -- The test of the comprehension; `and` does not reach `name[0]` if an earlier part fails.
  unfoldable pub is_library_step : List Text → Text → Option Bool
  unfolding starts_upper
  is_library_step local_defs name =
      if contains name known_steps
      then some false
      else if contains name local_defs
      then some false
      else do up ← starts_upper name; some (not up)

  unfoldable pub library_steps : Scanned → Option (List Text)
  unfolding is_library_step sort text_le
  library_steps s = do
    names ← filter_some (is_library_step s.local_defs) (map (λ c. c.0) s.step_calls)
    some (sort text_le names)

module _ ⦃u : Unicode⦄ where
  kebab_letter : ℕ → Text
  unfolding is_upper to_lower
  kebab_letter ch = if is_upper ch then b'-' ∷ to_lower ch else ch ∷ []

  -- `_kebab`
  unfoldable pub kebab : Text → Text
  unfolding kebab_letter
  kebab name = drop_while (λ c. c == b'-') (concat (map kebab_letter name))

  unfoldable pub step_finding : Scanned → Text → Option Finding
  unfolding lookup_calls snippet_at kebab show
  step_finding s name = do
    lines ← lookup_calls name s.step_calls
    first ← get_elem? lines 0
    snippet ← snippet_at s.original_lines first
    some (record {
      rule = codes "shared-library-step";
      category = manual;
      line = first;
      snippet = snippet;
      title = codes "Shared-library step `" ++ name ++ codes "`";
      actions_equivalent = codes "A composite action `.github/actions/" ++ kebab name ++ codes "`.";
      note = codes "Called " ++ show (length lines) ++ codes " time(s).";
      detail = name;
    })

-- `sorted(n for n in scanned.step_calls if n in PLUGIN_STEPS)`
unfoldable pub plugin_steps : Scanned → List Text
unfolding sort text_le contains
plugin_steps s = sort text_le (filter (λ n. contains n plugin_names) (map (λ c. c.0) s.step_calls))

-- The sort key `(f.line, f.rule)`.
unfoldable pub finding_le : Finding → Finding → Bool
unfolding text_le
finding_le f g = ltb f.line g.line || f.line == g.line && text_le f.rule g.rule

module _ ⦃u : Unicode⦄ where
  -- `analyze_text` after the call of `scan`, for a rule table.
  unfoldable pub report_of : List Rule → Text → Scanned → Option Report
  unfolding table_findings library_steps step_finding plugin_steps sort finding_le
  report_of table source s = do
    found ← table_findings table s
    steps ← library_steps s
    called ← traverse (step_finding s) steps
    some (record {
      source = source;
      findings = sort finding_le (found ++ called);
      stages = s.stages;
      credential_ids = s.credential_ids;
      shared_library = s.shared_library;
      shared_library_steps = steps;
      plugin_steps = plugin_steps s;
      lines = length s.lines;
    })

  unfoldable pub analyze_text : Text → Text → Option Report
  unfolding scan report_of rules
  analyze_text text source = do s ← scan text; report_of rules source s
