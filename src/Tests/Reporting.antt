-- ===== src/Tests/Reporting.antt =====
-- The theorems about the report and the command line at concrete inputs.
use mathlib.Core.List.{Perm}
use jenkins_to_actions_migra.Prelude.{
  ◌≡◌, ◌≢◌, ◌↔◌, ◌≤◌, ◌<◌, ◌-◌, refl, true, false, none, some, [], ◌∷◌, ◌++◌, codes, All, length,
  take, equal, arith, List, Text, filter, map, join, newline,
}
use jenkins_to_actions_migra.Model.{Finding, Report, auto, review, manual, drop}
use jenkins_to_actions_migra.Analyzer.{analyze_text}
use jenkins_to_actions_migra.Render.{secret_name, truncate}
use jenkins_to_actions_migra.Render.Format.{render}
use jenkins_to_actions_migra.Render.Markdown.{sections, to_markdown}
use jenkins_to_actions_migra.Render.Sections.{listed}
use jenkins_to_actions_migra.Render.Checklist.{is_item, entry, to_markdown-checklist}
use jenkins_to_actions_migra.Unicode.{rstrip}
use jenkins_to_actions_migra.Render.Names.{IsSecret, secret_name_lem, truncate_lem}
use jenkins_to_actions_migra.Cli.{
  Args, Files, Outcome, exit_code, main, no_such_file, status, path_text,
}
use jenkins_to_actions_migra.Cli.Exit.{Some, AtLeast, exit_code_iff}
use jenkins_to_actions_migra.Cli.Main.{SameOutput, main_fail_on}
use jenkins_to_actions_migra.Cli.Status.{Readable, Writable, main-exit_one, main-same_report}
use jenkins_to_actions_migra.Tests.{ascii, pipeline, report}

to_markdown-checklist_example :
    ((front : List Text) × (to_markdown report
        ≡ rstrip (join (newline ∷ []) (front ++ sections report.findings)) ++ newline ∷ []))
    × (filter is_item (sections report.findings) ≡ map entry (listed report.findings))
    × Perm (listed report.findings) report.findings
to_markdown-checklist_example = to_markdown-checklist report

secret_name_lem_example :
    All IsSecret (secret_name (codes "sonar-token"))
    × (length (secret_name (codes "sonar-token")) ≡ length (codes "sonar-token"))
    × (secret_name (secret_name (codes "sonar-token")) ≡ secret_name (codes "sonar-token"))
secret_name_lem_example = secret_name_lem (codes "sonar-token") (omega arith)

truncate_lem_example :
    (length (codes "checkout scm") ≤ 5 → truncate (codes "checkout scm") 5 ≡ codes "checkout scm")
    × (5 < length (codes "checkout scm")
        → (length (truncate (codes "checkout scm") 5) ≡ 5)
          × (take (5 - 1) (truncate (codes "checkout scm") 5) ≡ take (5 - 1) (codes "checkout scm"))
          × (truncate (codes "checkout scm") 5 ≡ take (5 - 1) (codes "checkout scm") ++ codes "…"))
truncate_lem_example = truncate_lem (codes "checkout scm") 5 (omega arith)

abbrev cleanup : Finding
cleanup = record {
  rule = codes "clean-ws";
  category = drop;
  line = 1;
  snippet = codes "cleanWs()";
  title = codes "cleanWs()";
  actions_equivalent = [];
  note = [];
  detail = [];
}

abbrev locked : Finding
locked = record cleanup { rule = codes "lock"; category = review; line = 2 }

exit_code_iff_example :
    ((exit_code (some auto) (cleanup ∷ locked ∷ []) ≡ 2)
      ↔ Some (AtLeast auto) (cleanup ∷ locked ∷ []))
    × ((exit_code (some auto) (cleanup ∷ locked ∷ []) ≡ 0)
        ↔ (¬ Some (AtLeast auto) (cleanup ∷ locked ∷ [])))
    × (exit_code none (cleanup ∷ locked ∷ []) ≡ 0)
exit_code_iff_example = exit_code_iff auto (cleanup ∷ locked ∷ [])

-- No file exists, and every write succeeds.
abbrev no_files : Files
no_files = record { is_file = λ path. false; read_text = λ path. none; writable = λ path. true }

abbrev absent : Args
absent = record {
  jenkinsfile = codes "ci/Jenkinsfile";
  format = codes "markdown";
  output = none;
  fail_on = none;
}

absent_run : main no_files absent [] ≡ some (no_such_file (codes "ci/Jenkinsfile"))
unfolding main equal
absent_run = refl

-- An output file that cannot be written.
abbrev read_only : Files
read_only = record {
  is_file = λ path. true;
  read_text = λ path. some pipeline;
  writable = λ path. false;
}

abbrev to_file : Args
to_file = record absent { output = some (codes "out.md") }

main-exit_one_example :
    ((status (main read_only to_file []) ≡ 1)
      ↔ (Readable read_only to_file.jenkinsfile × Writable read_only to_file.output → ⊥))
    × ((o : Outcome)
        → main read_only to_file [] ≡ some o
        → ((o.exit ≡ 1)
            ↔ ((to_file.jenkinsfile ≢ codes "-") × (read_only.is_file to_file.jenkinsfile ≡ false)))
          × (o.exit ≡ 1 → (o.stdout ≡ []) × (o.written ≡ none))
          × (o.exit ≢ 1 → o.stderr ≡ []))
main-exit_one_example = main-exit_one read_only to_file []

named_file : codes "ci/Jenkinsfile" ≢ codes "-"
named_file same = cc

main-same_report_example :
    (o p : Outcome) × (r : Report) × (main read_only absent [] ≡ some o)
    × (main read_only (record absent { jenkinsfile = codes "-" }) pipeline ≡ some p)
    × (analyze_text pipeline (path_text (codes "ci/Jenkinsfile"))
        ≡ some (record r { source = path_text (codes "ci/Jenkinsfile") }))
    × (o.exit ≡ exit_code none r.findings)
    × (o.exit ≡ p.exit)
    × (o.stderr ≡ p.stderr)
    × (o.stdout
        ≡ render (record r { source = path_text (codes "ci/Jenkinsfile") }) (codes "markdown"))
    × (p.stdout ≡ render (record r { source = codes "<stdin>" }) (codes "markdown"))
main-same_report_example = main-same_report read_only absent [] pipeline named_file refl refl refl

main_fail_on_example :
    (p : Outcome) × (main no_files (record absent { fail_on = some manual }) [] ≡ some p)
    × SameOutput (no_such_file (codes "ci/Jenkinsfile")) p
main_fail_on_example =
    main_fail_on no_files absent (some manual) [] (no_such_file (codes "ci/Jenkinsfile")) absent_run
