-- ===== src/Cli.antt =====
-- tools/migration-analyzer/src/migration_analyzer/cli.py, and `analyze` of analyzer.py. What argparse
-- parsed, standard input and the file system are inputs; what is printed and written is the outcome.
-- `none` is an exception that ends the program.
pub mod Exit
pub mod Main
pub mod Status
use jenkins_to_actions_migra.Prelude.{
  ℕ, Bool, true, false, not, ◌&&◌, List, [], ◌∷◌, ◌++◌, Option, none, some, any, filter, ◌>>=◌,
  newline, Text, codes, equal, join, leb, ◌==◌, if◌then◌else◌,
}
use jenkins_to_actions_migra.Unicode.{Unicode}
use jenkins_to_actions_migra.Model.{Category, auto, review, manual, drop, Finding, Report}
use jenkins_to_actions_migra.Analyzer.{analyze_text}
use jenkins_to_actions_migra.Render.Format.{render}

-- `args`; argparse admits three formats and the four categories.
pub record Args : Type 0 where
  pub jenkinsfile : Text
  pub format : Text
  pub output : Option Text
  pub fail_on : Option Category

-- `path.is_file()`, `path.read_text()`, where `none` is an error, and whether a write succeeds.
pub record Files : Type 0 where
  pub is_file : Text → Bool
  pub read_text : Text → Option Text
  pub writable : Text → Bool

pub record Outcome : Type 0 where
  pub exit : ℕ
  pub stdout : Text
  pub stderr : Text
  pub written : Option (Text × Text)

-- `_SEVERITY`
unfoldable pub severity : Category → ℕ
severity manual = 3
severity review = 2
severity auto = 1
severity drop = 0

-- The parts of a path between its slashes; empty parts and `.` go.
abbrev add_part : Text → List Text → List Text
add_part part parts =
    if equal part [] then parts else if equal part (codes ".") then parts else part ∷ parts

path_parts : Text → Text → List Text
path_parts part [] = add_part part []
path_parts part (c ∷ t) =
    let ended = add_part part (path_parts [] t) in
    let longer = path_parts (part ++ c ∷ []) t in if c == b'/' then ended else longer

-- Exactly two slashes at the start are kept as two.
abbrev path_root : Text → Text
path_root [] = []
path_root (a ∷ []) = if a == b'/' then codes "/" else []
path_root (a ∷ b ∷ []) = if a == b'/' then (if b == b'/' then codes "//" else codes "/") else []
path_root (a ∷ b ∷ c ∷ t) =
    if a == b'/' then (if b == b'/' && not (c == b'/') then codes "//" else codes "/") else []

abbrev or_dot : Text → Text
or_dot [] = codes "."
or_dot (c ∷ t) = c ∷ t

-- `str(Path(t))` on POSIX.
unfoldable pub path_text : Text → Text
unfolding path_parts join equal
path_text t = or_dot (path_root t ++ join (codes "/") (path_parts [] t))

module _ ⦃u : Unicode⦄ (files : Files) where
  -- `analyze`
  unfoldable pub analyze : Text → Option Report
  analyze path = do text ← files.read_text path; analyze_text text (path_text path)

-- The report is written to the file, or to standard output.
unfoldable pub write_report : Files → Option Text → Text → Option (Text × Option (Text × Text))
write_report files none text = some (text, none)
write_report files (some path) text =
    if files.writable path then some ([], some (path, text)) else none

-- The last part of `main`.
unfoldable pub exit_code : Option Category → List Finding → ℕ
unfolding severity
exit_code none findings = 0
exit_code (some c) findings =
    if any (λ (f : Finding). leb (severity c) (severity f.category)) findings then 2 else 0

abbrev pub no_such_file : Text → Outcome
no_such_file path = record {
  exit = 1;
  stdout = [];
  stderr = codes "migration-analyzer: " ++ path_text path ++ codes ": no such file" ++ newline ∷ [];
  written = none;
}

module _ ⦃u : Unicode⦄ (files : Files) where
  -- `main` from the rendering on.
  unfoldable pub finish : Args → Report → Option Outcome
  finish args report = do
    (out, file) ← write_report files args.output (render report args.format)
    some (record {
      exit = exit_code args.fail_on report.findings;
      stdout = out;
      stderr = [];
      written = file;
    })

  -- `main`, on the arguments that argparse accepts; the text is that of standard input.
  unfoldable pub main : Args → Text → Option Outcome
  main args stdin =
      if equal args.jenkinsfile (codes "-")
      then (do report ← analyze_text stdin (codes "<stdin>"); finish args report)
      else if files.is_file args.jenkinsfile
      then (do report ← analyze files args.jenkinsfile; finish args report)
      else some (no_such_file args.jenkinsfile)

-- `sys.exit(main())`: the status of the process. An exception that nothing catches ends it with 1.
unfoldable pub status : Option Outcome → ℕ
status none = 1
status (some o) = o.exit
