-- ===== src/Render/Plain.antt =====
-- `to_text` of tools/migration-analyzer/src/migration_analyzer/report.py.
use jenkins_to_actions_migra.Prelude.{
  ℕ, ◌-◌, List, [], ◌∷◌, ◌++◌, map, length, replicate, newline, Text, codes, join, show,
}
use jenkins_to_actions_migra.Model.{value, summary, Finding, Report}

-- `f"{t:<n}"`
abbrev pad : Text → ℕ → Text
pad t n = t ++ replicate (n - length t) b' '

abbrev entry : Text × ℕ → Text
entry (k, n) = codes "'" ++ k ++ codes "': " ++ show n

-- `str` of the summary; its keys have no quotes in them.
abbrev summary_text : List (Text × ℕ) → Text
summary_text s = codes "{" ++ join (codes ", ") (map entry s) ++ codes "}"

abbrev titled : Text → Text → Text
titled title [] = title
titled title (c ∷ t) = title ++ codes ": " ++ (c ∷ t)

finding_line : Finding → Text
unfolding value show
finding_line f =
    codes "L"
    ++ pad (show f.line) 4
    ++ codes " "
    ++ pad (value f.category) 6
    ++ codes " "
    ++ pad f.rule 22
    ++ codes " "
    ++ titled f.title f.detail

unfoldable pub to_text : Report → Text
unfolding finding_line summary show join
to_text r =
    join (newline ∷ []) (
      (r.source
        ++ codes ": "
        ++ show (length r.findings)
        ++ codes " findings "
        ++ summary_text (summary r))
      ∷ map finding_line r.findings)
    ++ newline ∷ []
