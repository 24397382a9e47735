-- ===== src/Skeleton.antt =====
-- hack/render-skeleton.py, and the placeholders of hack/validate-backstage.py: the expressions of the
-- template engine in a text are replaced from a table of values.
pub mod Plain
pub mod Quotes
pub mod Tree
pub mod Literal
use jenkins_to_actions_migra.Prelude.{
  Bool, true, false, not, ◌&&◌, Text, codes, equal, List, [], ◌∷◌, ◌==◌, if◌then◌else◌,
}
use jenkins_to_actions_migra.Unicode.{Unicode}
use jenkins_to_actions_migra.Regex.{Regex}
use jenkins_to_actions_migra.Regex.Compile.{plain, compiled}
use jenkins_to_actions_migra.Regex.Match.{Match, sub, group_text}

-- `_LITERAL`
unfoldable pub literal : Regex
unfolding compiled
literal = compiled plain (codes "\\$\\{\\{\\s*'((?:[^']|'')*)'\\s*\\}\\}")

-- `_VALUE` and `_TEMPLATE_EXPR`
unfoldable pub value_expression : Regex
unfolding compiled
value_expression = compiled plain (codes "\\$\\{\\{\\s*values\\.([a-zA-Z0-9_.]+)\\s*\\}\\}")

-- `VALUES`
abbrev pub values : List (Text × Text)
values =
    (codes "name", codes "example-svc")
    ∷ (codes "description", codes "Example service")
    ∷ (codes "owner", codes "group:default/team-a")
    ∷ (codes "goVersion", codes "1.22")
    ∷ (codes "healthUrlStaging", [])
    ∷ (codes "repoUrl", codes "github.com?owner=example-org&repo=example-svc")
    ∷ (codes "destination.owner", codes "example-org")
    ∷ (codes "destination.repo", codes "example-svc")
    ∷ []

-- `PLACEHOLDERS`
abbrev pub placeholders : List (Text × Text)
placeholders =
    (codes "name", codes "example-svc")
    ∷ (codes "description", codes "Example service")
    ∷ (codes "owner", codes "group:default/team-a")
    ∷ (codes "destination.owner", codes "example-org")
    ∷ (codes "destination.repo", codes "example-svc")
    ∷ []

-- `table.get(name, "placeholder")`
unfoldable pub value_of : List (Text × Text) → Text → Text
unfolding equal
value_of [] name = codes "placeholder"
value_of ((k, v) ∷ table) name = let rest = value_of table name in if equal name k then v else rest

-- `text.replace("''", "'")`; `pending` says that the character before is a quote not yet paired.
unfoldable pub single_quotes : Bool → Text → Text
single_quotes pending [] = []
single_quotes pending (c ∷ t) =
    let rest = single_quotes (c == b'\'' && not pending) t in
    if c == b'\'' && pending then rest else c ∷ rest

module _ ⦃u : Unicode⦄ where
  unfoldable pub expand : List (Text × Text) → Text → Text
  unfolding sub value_expression value_of group_text
  expand table text = sub value_expression (λ m. value_of table (group_text 1 m)) text

  unfoldable pub render : Text → Text
  unfolding expand sub literal single_quotes group_text
  render text = expand values (sub literal (λ m. single_quotes false (group_text 1 m)) text)

  unfoldable pub render_placeholders : Text → Text
  unfolding expand
  render_placeholders text = expand placeholders text
