-- ===== src/Cli/Status.antt =====
-- tools/migration-analyzer/src/migration_analyzer/cli.py: the status of the process, and the same text
-- in a file and on standard input.
use jenkins_to_actions_migra.Prelude.{
  true, false, List, [], ◌≡◌, ◌↔◌, ◌≢◌, ◌⊎◌, refl, ◌∙◌, inl, inr, Option, none, some, some_inj,
  Bool-cases, Option-cases, Text, codes, equal, equal_iff, ◌>>=◌, >>=-eq-some, traverse,
  split_lines, length, ◌++◌, ap,
}
use jenkins_to_actions_migra.Prelude.Sorting.{sort}
use jenkins_to_actions_migra.Unicode.{Unicode}
use jenkins_to_actions_migra.Model.{Finding, Report}
use jenkins_to_actions_migra.Parser.{Scanned, extract, strip_comments}
use jenkins_to_actions_migra.Parser.Lines.{scan-total}
use jenkins_to_actions_migra.Rules.{rules}
use jenkins_to_actions_migra.Analyzer.{
  analyze_text, report_of, table_findings, library_steps, step_finding, plugin_steps, finding_le,
}
use jenkins_to_actions_migra.Analyzer.Total.{analyze_text-total}
use jenkins_to_actions_migra.Render.Format.{render}
use jenkins_to_actions_migra.Cli.{
  Args, Files, Outcome, analyze, write_report, exit_code, finish, main, status, path_text,
}
use jenkins_to_actions_migra.Cli.Main.{exit_code-ne_one, main-returned}

-- The argument is `-`, or the path of a file that can be read.
abbrev pub Readable : Files → Text → Type 0
Readable files path =
    (path ≡ codes "-")
    ⊎ ((files.is_file path ≡ true) × ((text : Text) × (files.read_text path ≡ some text)))

-- The output file, if one is given, can be written.
abbrev pub Writable : Files → Option Text → Type 0
Writable files output = (path : Text) → output ≡ some path → files.writable path ≡ true

not-dash : (path : Text) → path ≢ codes "-" → equal path (codes "-") ≡ false
not-dash path named = elim (Bool-cases (equal path (codes "-"))) [
  | inl same ↦ absurd (named ((equal_iff path (codes "-")).0 same))
  | inr other ↦ other
]

written_cases :
    (files : Files) (output : Option Text) (text : Text)
    → ((w : Text × Option (Text × Text)) × (write_report files output text ≡ some w)
        × Writable files output)
      ⊎ ((write_report files output text ≡ none) × (Writable files output → ⊥))
unfolding write_report
written_cases files none text = inl ((text, none), refl, λ path e. cc)
written_cases files (some path) text = elim (Bool-cases (files.writable path)) [
  | inl can ↦ inl (([], some (path, text)), rw can refl, λ p e. rw (← some_inj e) can)
  | inr cannot ↦ inr (rw cannot refl, λ w. (let can = w path refl in cc))
]

-- The outcome of `finish` without an output file.
abbrev printed : ⦃u : Unicode⦄ → Args → Report → Outcome
printed args report = record {
  exit = exit_code args.fail_on report.findings;
  stdout = render report args.format;
  stderr = [];
  written = none;
}

-- The report of `report_of` from its parts.
abbrev assembled : Text → Scanned → List Finding → List Text → List Finding → Report
assembled source s found steps called = record {
  source = source;
  findings = sort finding_le (found ++ called);
  stages = s.stages;
  credential_ids = s.credential_ids;
  shared_library = s.shared_library;
  shared_library_steps = steps;
  plugin_steps = plugin_steps s;
  lines = length s.lines;
}

module _ ⦃u : Unicode⦄ (files : Files) where
  finish-status :
      (args : Args) (report : Report)
      → (status (finish files args report) ≡ 1) ↔ (Writable files args.output → ⊥)
  unfolding finish status
  finish-status args report = elim (written_cases files args.output (render report args.format)) [
    | inl (w, e, can) ↦ rw e (
      λ h. absurd (exit_code-ne_one args.fail_on report.findings h),
      λ cannot. absurd (cannot can),
    )
    | inr (e, cannot) ↦ rw e (λ h. cannot, λ h. refl)
  ]

  -- For a text that was read, the status is that of `finish`.
  read-status :
      (args : Args) (source : Text) (text : Text) (run : Option Outcome)
      → run ≡ (analyze_text text source >>= finish files args)
      → Readable files args.jenkinsfile
      → (status run ≡ 1) ↔ (Readable files args.jenkinsfile × Writable files args.output → ⊥)
  read-status args source text run e can =
      let (report, analyzed) = analyze_text-total text source in
      let (there, back) = finish-status args report in
      let same : run ≡ finish files args report = e ∙ rw analyzed refl in
      rw same (λ h. (λ both. there h both.1), λ h. back (λ w. h (can, w)))

  unread :
      (args : Args) (run : Option Outcome)
      → status run ≡ 1
      → (Readable files args.jenkinsfile → ⊥)
      → (status run ≡ 1) ↔ (Readable files args.jenkinsfile × Writable files args.output → ⊥)
  unread args run e cannot = (λ h both. cannot both.0, λ h. e)

  process :
      (args : Args) (stdin : Text)
      → (status (main files args stdin) ≡ 1)
        ↔ (Readable files args.jenkinsfile × Writable files args.output → ⊥)
  unfolding main analyze status
  process args stdin = elim (Bool-cases (equal args.jenkinsfile (codes "-"))) [
    | inl dash ↦
        read-status args (codes "<stdin>") stdin (main files args stdin) (rw dash refl)
          (inl ((equal_iff args.jenkinsfile (codes "-")).0 dash))
    | inr path ↦ elim (Bool-cases (files.is_file args.jenkinsfile)) [
      | inl there ↦ elim (Option-cases (files.read_text args.jenkinsfile)) [
        | inl unreadable ↦
            unread args (main files args stdin) (rw (path, there, unreadable) refl) (λ r. elim r [
              | inl dash ↦ cc (path, (equal_iff args.jenkinsfile (codes "-")).1 dash)
              | inr (_, (text, e)) ↦ cc
            ])
        | inr (text, e) ↦
            read-status args (path_text args.jenkinsfile) text (main files args stdin)
              (rw (path, there, e) refl) (inr (there, (text, e)))
      ]
      | inr missing ↦ unread args (main files args stdin) (rw (path, missing) refl) (λ r. elim r [
        | inl dash ↦ cc (path, (equal_iff args.jenkinsfile (codes "-")).1 dash)
        | inr (there, _) ↦ cc
      ])
    ]
  ]

  -- The status of the process is 1 exactly when the argument is not - and names no file that can be
  -- read, or the output file cannot be written; a standard input that is read is taken to be text, and
  -- standard output to take it. If main returns, its exit code is 1 exactly when the argument is not -
  -- and names no file; it then prints nothing to standard output and writes no file, and otherwise
  -- nothing to standard error.
  pub main-exit_one :
      (args : Args) (stdin : Text)
      → ((status (main files args stdin) ≡ 1)
          ↔ (Readable files args.jenkinsfile × Writable files args.output → ⊥))
        × ((o : Outcome)
            → main files args stdin ≡ some o
            → ((o.exit ≡ 1)
                ↔ ((args.jenkinsfile ≢ codes "-") × (files.is_file args.jenkinsfile ≡ false)))
              × (o.exit ≡ 1 → (o.stdout ≡ []) × (o.written ≡ none))
              × (o.exit ≢ 1 → o.stderr ≡ []))
  main-exit_one args stdin = (process args stdin, main-returned files args stdin)

  report-steps :
      (source : Text) (s : Scanned) (found : List Finding) (steps : List Text)
      (called : List Finding)
      → table_findings rules s ≡ some found
      → library_steps s ≡ some steps
      → traverse (step_finding s) steps ≡ some called
      → report_of rules source s ≡ some (assembled source s found steps called)
  unfolding report_of
  report-steps source s found steps called ef es ec = rw (ef, es, ec) refl

  -- A text analysed under another name gives the same report but for the name.
  analyze_text-source :
      (text a b : Text) (r : Report)
      → analyze_text text a ≡ some r
      → analyze_text text b ≡ some (record r { source = b })
  unfolding analyze_text report_of
  analyze_text-source text a b r e =
      let s : Scanned = extract (split_lines text) (split_lines (strip_comments text)) in
      let run : report_of rules a s ≡ some r = rw (scan-total text) at e in
      let (found, ef, e1) = >>=-eq-some (table_findings rules s) _ run in
      let (steps, es, e2) = >>=-eq-some (library_steps s) _ e1 in
      let (called, ec, e3) = >>=-eq-some (traverse (step_finding s) steps) _ e2 in
      ap (λ o. o >>= report_of rules b) (scan-total text)
      ∙ report-steps b s found steps called ef es ec
      ∙ ap (λ (x : Report). some (record x { source = b })) (some_inj e3)

  -- With a file that can be read, or with its text on standard input and - as the argument, and no
  -- output file: main returns both times, with the same exit code, that of the findings of the text,
  -- and the same standard error, and what it prints is the report of the text under the name of the
  -- file and under <stdin>.
  pub main-same_report :
      (args : Args) (stdin text : Text)
      → args.jenkinsfile ≢ codes "-"
      → files.is_file args.jenkinsfile ≡ true
      → files.read_text args.jenkinsfile ≡ some text
      → args.output ≡ none
      → (o p : Outcome) × (r : Report) × (main files args stdin ≡ some o)
        × (main files (record args { jenkinsfile = codes "-" }) text ≡ some p)
        × (analyze_text text (path_text args.jenkinsfile)
            ≡ some (record r { source = path_text args.jenkinsfile }))
        × (o.exit ≡ exit_code args.fail_on r.findings)
        × (o.exit ≡ p.exit)
        × (o.stderr ≡ p.stderr)
        × (o.stdout ≡ render (record r { source = path_text args.jenkinsfile }) args.format)
        × (p.stdout ≡ render (record r { source = codes "<stdin>" }) args.format)
  unfolding main analyze finish write_report equal
  main-same_report args stdin text named there readable direct =
      let (r, e) = analyze_text-total text (path_text args.jenkinsfile) in
      let at_path = analyze_text-source text _ (path_text args.jenkinsfile) r e in
      let at_stdin = analyze_text-source text _ (codes "<stdin>") r e in
      (
        printed args (record r { source = path_text args.jenkinsfile }),
        printed args (record r { source = codes "<stdin>" }),
        r,
        rw (not-dash args.jenkinsfile named, there, readable, at_path, direct, write_report) refl,
        rw (at_stdin, direct, write_report) refl,
        at_path,
        refl,
        refl,
        refl,
        refl,
        refl,
      )
