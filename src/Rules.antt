-- ===== src/Rules.antt =====
-- tools/migration-analyzer/src/migration_analyzer/rules.py: the rule table and the known names.
pub mod Entry
mod Declarative
mod Steps
pub mod Names
pub mod Ids
use jenkins_to_actions_migra.Prelude.{List, ◌++◌}
pub use Entry.{Rule}
use Declarative.{structure, parameters, gates}
use Steps.{artifacts, post, options, plugins, variables}

-- `RULES`
unfoldable pub rules : List Rule
unfolding structure parameters gates artifacts post options plugins variables
rules = structure ++ parameters ++ gates ++ artifacts ++ post ++ options ++ plugins ++ variables
