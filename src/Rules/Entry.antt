-- ===== src/Rules/Entry.antt =====
-- A rule and the helper `_r` of tools/migration-analyzer/src/migration_analyzer/rules.py.
use jenkins_to_actions_migra.Prelude.{String, Bool, codes, Text}
use jenkins_to_actions_migra.Regex.{Regex}
use jenkins_to_actions_migra.Regex.Compile.{plain, compiled}
use jenkins_to_actions_migra.Model.{Category}

pub record Rule : Type 0 where
  pub id : Text
  pub pattern : Regex
  pub category : Category
  pub title : Text
  pub actions_equivalent : Text
  pub note : Text
  pub once : Bool

-- `_r`; the source's keyword arguments stand in the order of its parameters.
unfoldable pub r : String → String → Category → String → String → String → Bool → Rule
unfolding compiled
r id pattern category title equivalent note once = record {
  id = codes id;
  pattern = compiled plain (codes pattern);
  category = category;
  title = codes title;
  actions_equivalent = codes equivalent;
  note = codes note;
  once = once;
}
