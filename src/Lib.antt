-- ===== src/Lib.antt =====
-- The Python programs of the Jenkins-to-Actions migration platform.
--
-- tools/migration-analyzer/src/migration_analyzer scans a Jenkinsfile and prints a checklist. cli.py
-- reads the file and calls analyzer.py, which has parser.py strip the comments and extract stages,
-- credentials and step calls, applies the rule table of rules.py line by line, adds a finding for each
-- step that must come from a shared library, and sorts the findings into a report (model.py), which
-- report.py renders as markdown, text or JSON.
--
-- Parser.antt and its children are parser.py: `strip_comments`, `scan` (`extract` is `scan` behind
-- its assertion), the loops `add_seen`, `record_call` and `calls_from`; Parser/Patterns.antt has the
-- patterns. Rules.antt and its children are the rule table, in the sections of the source, with the
-- pattern texts as they stand there. Model.antt is model.py. Analyzer.antt is analyzer.py:
-- `rule_findings` is the inner loop of `analyze_text`, `table_findings` the outer one, `library_steps`
-- and `step_finding` the part on shared-library steps, `report_of` the whole behind `scan`.
-- Render.antt and its children are report.py and the `to_dict` methods; each block of `to_markdown` is
-- a definition that yields the lines it appends. Cli.antt is cli.py: `main` from the parsed arguments on.
-- An exception (an index out of range, a missing key, a failed assertion) is the result `none`; `status`
-- is the exit status of the process, which is 1 for an exception.
--
-- Texts are lists of code points. Unicode.antt is exact on ASCII and on white space; whether another
-- code point is a letter, and its case, is a parameter without hypotheses. Regex.antt is the part of
-- Python's `re` that the patterns use: Regex/Compile.antt reads the pattern text, Regex/Match.antt
-- lists all ways to match in the order in which Python tries them, of which the first is the match.
-- A repetition has as many rounds as there are characters left, which is enough since a round that
-- consumes nothing is not taken, and none of the patterns has one; the loop over all matches has the
-- length of the text as fuel, which is enough since every pattern takes a character at least. Syntax
-- that no pattern uses is not modelled. Value.antt and Value/Dump.antt are documents and `json.dumps`.
--
-- The scripts under hack work on documents, the trees of Value.antt, whose keys are texts; Value/Dict
-- and Python have what Python does on them. There a statement yields a `Result`, a value or a fault:
-- `raises` is an exception, `exits` a SystemExit, and `unmodelled` a step that leaves the model.
-- Crd.antt is `to_json_schema` of hack/crd-schemas.py (`converted` is its loop over the keys of a node,
-- `finish` the statements after the loop), Crd/Files.antt its `main`. Composition.antt and its
-- children are hack/render-composition.py: `get_path` and `set_path`, Segments `_segments`, Format
-- `go_format`, Patches `transform` and `apply_patches`, Pipeline `main`. A write returns the changed
-- document, so a list or a dict that a patch would share with the XR is `unmodelled`. Patch sets may
-- name patch sets: the fuel of `apply_patches` bounds the nesting, and a fuel above the rank of the
-- sets is enough. Skeleton.antt is `render` of hack/render-skeleton.py, and
-- `render_placeholders` of hack/validate-backstage.py, which replace the expressions of a template;
-- Skeleton/Tree.antt is `main` of render-skeleton.py, from the files of the skeleton on. Backstage.antt is
-- `validate_file` of hack/validate-backstage.py, and Backstage/Fetch.antt its `fetch_schemas` and
-- `main`; the schema library, the network and the registry are parameters, and the cache directory is
-- a list of names and texts.
--
-- Not modelled: argparse, reading, downloading and writing files and the YAML library (parameters,
-- inputs and outcomes), the Go controller, and the manifests and workflows.
pub mod Prelude
pub mod Unicode
pub mod Regex
pub mod Parser
pub mod Model
pub mod Rules
pub mod Analyzer
pub mod Value
pub mod Python
pub mod Render
pub mod Cli
pub mod Crd
pub mod Skeleton
pub mod Backstage
pub mod Composition
mod Tests
