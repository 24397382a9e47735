-- ===== src/Render/Markdown.antt =====
-- `to_markdown` of tools/migration-analyzer/src/migration_analyzer/report.py. Each block of the
-- function is a definition that yields the lines it appends to `out`.
use jenkins_to_actions_migra.Prelude.{
  List, [], ◌∷◌, ◌++◌, Option, none, some, map, length, filter, flat_map, newline, Text, codes,
  join, show,
}
use jenkins_to_actions_migra.Unicode.{Unicode, rstrip}
use jenkins_to_actions_migra.Model.{
  Category, auto, review, manual, drop, same, count, Finding, Report,
}
use jenkins_to_actions_migra.Render.{order, heading, truncate, secret_name, box}

abbrev bullets : List Text → List Text
bullets names = map (λ name. codes "- `" ++ name ++ codes "`") names

-- The title and the counts; `s` is `report.summary`.
unfoldable pub head_lines : Report → List Text
unfolding show count
head_lines r =
    (codes "# Migration checklist: `" ++ r.source ++ codes "`")
    ∷ []
    ∷ (show r.lines
        ++ codes " lines, "
        ++ show (length r.stages)
        ++ codes " stages, "
        ++ show (length r.findings)
        ++ codes " findings: **"
        ++ show (count manual r.findings)
        ++ codes " manual**, "
        ++ show (count review r.findings)
        ++ codes " review, "
        ++ show (count auto r.findings)
        ++ codes " auto, "
        ++ show (count drop r.findings)
        ++ codes " drop.")
    ∷ []
    ∷ []

pub stage_lines : List Text → List Text
stage_lines [] = []
stage_lines (n ∷ ns) = codes "## Stages" ∷ [] ∷ map (λ name. codes "- " ++ name) (n ∷ ns) ++ [] ∷ []

-- `if report.shared_library:` holds of a name that is not None and not empty.
import_lines : Option Text → List Text
import_lines none = []
import_lines (some []) = []
import_lines (some (c ∷ t)) = (codes "Imports `" ++ (c ∷ t) ++ codes "`.") ∷ []

step_lines : List Text → List Text
step_lines [] = []
step_lines (n ∷ ns) = codes "Steps that need composite actions:" ∷ bullets (n ∷ ns)

abbrev library_block : List Text → List Text
library_block [] = []
library_block (l ∷ ls) = codes "## Shared library" ∷ [] ∷ (l ∷ ls) ++ [] ∷ []

pub library_lines : Option Text → List Text → List Text
unfolding import_lines step_lines
library_lines name steps = library_block (import_lines name ++ step_lines steps)

module _ ⦃u : Unicode⦄ where
  secret_row : Text → Text
  unfolding secret_name
  secret_row cid =
      codes "| `"
      ++ cid
      ++ codes "` | `"
      ++ secret_name cid
      ++ codes "` | repo / environment / org (decide) |"

  pub secret_lines : List Text → List Text
  unfolding secret_row
  secret_lines [] = []
  secret_lines (c ∷ cs) =
      codes "## Secrets to create"
        ∷ []
        ∷ codes "| Jenkins credential ID | GitHub secret | Scope |"
        ∷ codes "|---|---|---|"
        ∷ map secret_row (c ∷ cs)
      ++ [] ∷ []

pub plugin_lines : List Text → List Text
plugin_lines [] = []
plugin_lines (n ∷ ns) = codes "## Plugin steps in use" ∷ [] ∷ bullets (n ∷ ns) ++ [] ∷ []

abbrev pub titled : Text → Text → Text
titled title [] = title
titled title (c ∷ t) = title ++ codes ": `" ++ (c ∷ t) ++ codes "`"

abbrev pub note_lines : Text → List Text
note_lines [] = []
note_lines (c ∷ t) = (codes "  - Note: " ++ (c ∷ t)) ∷ []

-- The lines of one finding.
unfoldable pub finding_lines : Finding → List Text
unfolding show box truncate
finding_lines f =
    (codes "- "
        ++ box f.category
        ++ codes " **L"
        ++ show f.line
        ++ codes "** "
        ++ titled f.title f.detail)
      ∷ (codes "  - Actions: " ++ f.actions_equivalent)
      ∷ note_lines f.note
    ++ (codes "  - `" ++ truncate f.snippet 100 ++ codes "`") ∷ []

-- `[f for f in report.findings if f.category is cat]`
abbrev pub items : Category → List Finding → List Finding
items cat fs = filter (λ f. same f.category cat) fs

unfoldable pub section_lines : Category → List Finding → List Text
unfolding heading finding_lines show
section_lines cat [] = []
section_lines cat (f ∷ fs) =
    (codes "## " ++ heading cat ++ codes " (" ++ show (length (f ∷ fs)) ++ codes ")")
      ∷ []
      ∷ flat_map finding_lines (f ∷ fs)
    ++ [] ∷ []

-- The loop over `_ORDER`.
unfoldable pub sections : List Finding → List Text
unfolding section_lines
sections fs = flat_map (λ cat. section_lines cat (items cat fs)) order

module _ ⦃u : Unicode⦄ where
  unfoldable pub to_markdown : Report → Text
  unfolding head_lines stage_lines library_lines secret_lines plugin_lines sections join rstrip
  to_markdown r =
      rstrip (
        join (newline ∷ []) (
          head_lines r
          ++ stage_lines r.stages
          ++ library_lines r.shared_library r.shared_library_steps
          ++ secret_lines r.credential_ids
          ++ plugin_lines r.plugin_steps
          ++ sections r.findings))
      ++ newline ∷ []
