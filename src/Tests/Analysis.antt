-- ===== src/Tests/Analysis.antt =====
-- The theorems about the analyzer at a concrete pipeline.
use mathlib.Core.List.{Perm}
use jenkins_to_actions_migra.Prelude.{
  ◌≡◌, ◌≢◌, ◌≤◌, ◌∷◌, ◌↔◌, refl, true, false, some, [], Text, codes, All, map, filter, get_elem?,
  split_lines, contains, Distinct, text_le, arith,
}
use jenkins_to_actions_migra.Prelude.Sorting.{IsSorted}
use jenkins_to_actions_migra.Model.{auto}
use jenkins_to_actions_migra.Parser.{strip_comments}
use jenkins_to_actions_migra.Parser.StepCalls.{call_lines}
use jenkins_to_actions_migra.Rules.{rules}
use jenkins_to_actions_migra.Rules.Entry.{Rule, r}
use jenkins_to_actions_migra.Rules.Names.{known_steps, plugin_names}
use jenkins_to_actions_migra.Analyzer.{analyze_text, kebab}
use jenkins_to_actions_migra.Analyzer.Total.{Returns, analyze_text-total}
use jenkins_to_actions_migra.Analyzer.Findings.{hit_lines, limit, IsFrom, InOrder, Pairwise}
use jenkins_to_actions_migra.Analyzer.Reported.{of_rule, step_rule, ids}
use jenkins_to_actions_migra.Analyzer.PerRule.{
  findings-IsSorted, lines-of_rule, texts-of_rule, steps-reported,
}
use jenkins_to_actions_migra.Analyzer.LibrarySteps.{
  defined, upper_first, library_steps_iff, library_steps-IsSorted, plugin_steps_iff,
}
use jenkins_to_actions_migra.Analyzer.Kebab.{IsLow, NoDash, kebab_lem}
use jenkins_to_actions_migra.Tests.{ascii, pipeline, jenkinsfile, report, report_analyzed}

analyze_text-total_example : Returns (analyze_text pipeline jenkinsfile)
analyze_text-total_example = analyze_text-total pipeline jenkinsfile

findings-IsSorted_example :
    Pairwise InOrder report.findings
    × All (λ f. contains f.rule (step_rule ∷ ids rules) ≡ true) report.findings
findings-IsSorted_example = findings-IsSorted pipeline jenkinsfile report report_analyzed

abbrev stage_rule : Rule
stage_rule =
    r "stage" "\\bstage\\s*\\(\\s*['\\\"]([^'\\\"]+)['\\\"]\\s*\\)" auto "Stage"
      "A job (or a step within a job, for cheap sequential stages)." "" false

stage_rule_in_table : get_elem? rules 4 ≡ some stage_rule
unfolding rules
stage_rule_in_table = refl

lines-of_rule_example :
    map (λ f. f.line) (filter (of_rule stage_rule.id) report.findings)
    ≡ limit stage_rule.once (hit_lines stage_rule.pattern 1 (split_lines (strip_comments pipeline)))
lines-of_rule_example =
    lines-of_rule pipeline jenkinsfile report report_analyzed 4 stage_rule stage_rule_in_table

texts-of_rule_example :
    All
      (λ f. (1 ≤ f.line) × IsFrom stage_rule (split_lines pipeline) f)
      (filter (of_rule stage_rule.id) report.findings)
texts-of_rule_example =
    texts-of_rule pipeline jenkinsfile report report_analyzed 4 stage_rule stage_rule_in_table

steps-reported_example :
    Perm
      (map (λ f. f.detail) (filter (of_rule step_rule) report.findings))
      report.shared_library_steps
steps-reported_example = steps-reported pipeline jenkinsfile report report_analyzed

library_steps_iff_example : (contains (codes "deployHelm") report.shared_library_steps ≡ true) ↔ (
    (call_lines (codes "deployHelm") 1 (split_lines (strip_comments pipeline)) ≢ [])
    × (contains (codes "deployHelm") known_steps ≡ false)
    × (contains (codes "deployHelm") (defined pipeline jenkinsfile report report_analyzed) ≡ false)
    × (upper_first (codes "deployHelm") ≡ false))
library_steps_iff_example =
    library_steps_iff pipeline jenkinsfile report report_analyzed (codes "deployHelm")

library_steps-IsSorted_example :
    IsSorted text_le report.shared_library_steps × Distinct report.shared_library_steps
library_steps-IsSorted_example = library_steps-IsSorted pipeline jenkinsfile report report_analyzed

plugin_steps_iff_example :
    ((name : Text)
      → (contains name report.plugin_steps ≡ true) ↔ (
          (call_lines name 1 (split_lines (strip_comments pipeline)) ≢ [])
          × (contains name plugin_names ≡ true)))
    × IsSorted text_le report.plugin_steps
    × Distinct report.plugin_steps
plugin_steps_iff_example = plugin_steps_iff pipeline jenkinsfile report report_analyzed

kebab_lem_example :
    All IsLow (kebab (codes "DeployHelm"))
    × NoDash (kebab (codes "DeployHelm"))
    × (kebab (kebab (codes "DeployHelm")) ≡ kebab (codes "DeployHelm"))
kebab_lem_example = kebab_lem (codes "DeployHelm") (omega arith)
