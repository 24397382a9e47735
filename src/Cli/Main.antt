-- ===== src/Cli/Main.antt =====
-- Runs of `main`, tools/migration-analyzer/src/migration_analyzer/cli.py.
use jenkins_to_actions_migra.Prelude.{
  false, List, [], ◌≡◌, ◌↔◌, ◌≢◌, refl, sym, ◌∙◌, inl, inr, Option, none, some, some_inj,
  Bool-cases, Text, codes, equal, equal_iff, arith, >>=-eq-some, if◌then◌else◌,
}
use jenkins_to_actions_migra.Unicode.{Unicode}
use jenkins_to_actions_migra.Model.{Category, Finding, Report}
use jenkins_to_actions_migra.Analyzer.{analyze_text}
use jenkins_to_actions_migra.Render.Format.{render}
use jenkins_to_actions_migra.Cli.{
  Args, Files, Outcome, analyze, write_report, exit_code, finish, no_such_file, main,
}

-- The two outcomes differ in the exit code alone.
pub record SameOutput (o p : Outcome) : Type 0 where
  pub stdout : o.stdout ≡ p.stdout
  pub stderr : o.stderr ≡ p.stderr
  pub written : o.written ≡ p.written

pub exit_code-ne_one : (c : Option Category) (fs : List Finding) → exit_code c fs ≡ 1 → ⊥
unfolding exit_code
exit_code-ne_one none fs h = absurd (omega arith)
exit_code-ne_one (some c) fs h = ground arith

module _ ⦃u : Unicode⦄ (files : Files) where
  finish_lem :
      (args : Args) (report : Report) (o : Outcome)
      → finish files args report ≡ some o
      → (o.exit ≡ exit_code args.fail_on report.findings) × (o.stderr ≡ [])
  unfolding finish
  finish_lem args report o e =
      let (w, _, e') =
        >>=-eq-some (write_report files args.output (render report args.format)) _ e in
      rw (← some_inj e') (refl, refl)

  finish_fail_on :
      (args : Args) (c : Option Category) (report : Report) (o : Outcome)
      → finish files args report ≡ some o
      → (p : Outcome) × (finish files (record args { fail_on = c }) report ≡ some p)
        × SameOutput o p
  unfolding finish
  finish_fail_on args c report o e =
      let (w, ew, e') =
        >>=-eq-some (write_report files args.output (render report args.format)) _ e in
      rw (← some_inj e', ew) (_, refl, record { stdout = refl; stderr = refl; written = refl })

  -- The report that `main` renders, if it gets so far.
  abbrev reported : Args → Text → Option Report
  reported args stdin =
      if equal args.jenkinsfile (codes "-")
      then analyze_text stdin (codes "<stdin>")
      else analyze files args.jenkinsfile

  -- What `main` returns.
  pub main-returned :
      (args : Args) (stdin : Text) (o : Outcome)
      → main files args stdin ≡ some o
      → ((o.exit ≡ 1) ↔ ((args.jenkinsfile ≢ codes "-") × (files.is_file args.jenkinsfile ≡ false)))
        × (o.exit ≡ 1 → (o.stdout ≡ []) × (o.written ≡ none))
        × (o.exit ≢ 1 → o.stderr ≡ [])
  unfolding main
  main-returned args stdin o e = elim (Bool-cases (equal args.jenkinsfile (codes "-"))) [
    | inl dash ↦
        let (report, _, e') = >>=-eq-some (analyze_text stdin (codes "<stdin>")) _ (rw dash at e) in
        let (exit, quiet) = finish_lem args report o e' in
        let ne = λ (h : o.exit ≡ 1). exit_code-ne_one args.fail_on report.findings (sym exit ∙ h) in
        (
          (λ h. absurd (ne h), λ h. absurd (h.0 ((equal_iff args.jenkinsfile (codes "-")).0 dash))),
          λ h. absurd (ne h),
          λ _. quiet,
        )
    | inr path ↦ elim (Bool-cases (files.is_file args.jenkinsfile)) [
      | inl there ↦
          let (report, _, e') =
            >>=-eq-some (analyze files args.jenkinsfile) _ (rw (path, there) at e) in
          let (exit, quiet) = finish_lem args report o e' in
          let ne =
            λ (h : o.exit ≡ 1). exit_code-ne_one args.fail_on report.findings (sym exit ∙ h) in
          ((λ h. absurd (ne h), λ h. cc (there, h.1)), λ h. absurd (ne h), λ _. quiet)
      | inr missing ↦
          let e' : some (no_such_file args.jenkinsfile) ≡ some o = rw (path, missing) at e in
          rw (← some_inj e') (
            (
              λ _. (λ same. cc (path, (equal_iff args.jenkinsfile (codes "-")).1 same), missing),
              λ _. refl,
            ),
            λ _. (refl, refl),
            λ n. absurd (n refl),
          )
    ]
  ]

  -- `--fail-on` changes the exit code and nothing else: where `main` returns, it returns with another
  -- category, or none, too, and prints and writes the same.
  pub main_fail_on :
      (args : Args) (c : Option Category) (stdin : Text) (o : Outcome)
      → main files args stdin ≡ some o
      → (p : Outcome) × (main files (record args { fail_on = c }) stdin ≡ some p) × SameOutput o p
  unfolding main
  main_fail_on args c stdin o e = elim (Bool-cases (equal args.jenkinsfile (codes "-"))) [
    | inl dash ↦
        let (report, er, e') =
          >>=-eq-some (analyze_text stdin (codes "<stdin>")) _ (rw dash at e) in
        rw (dash, er) (finish_fail_on args c report o e')
    | inr path ↦ elim (Bool-cases (files.is_file args.jenkinsfile)) [
      | inl there ↦
          let (report, er, e') =
            >>=-eq-some (analyze files args.jenkinsfile) _ (rw (path, there) at e) in
          rw (path, there, er) (finish_fail_on args c report o e')
      | inr missing ↦
          rw (path, missing)
            (o, (rw (path, missing) at e), record { stdout = refl; stderr = refl; written = refl })
    ]
  ]
