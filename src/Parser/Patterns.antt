-- ===== src/Parser/Patterns.antt =====
-- The patterns of tools/migration-analyzer/src/migration_analyzer/parser.py.
use jenkins_to_actions_migra.Prelude.{true, false, codes}
use jenkins_to_actions_migra.Regex.{Regex}
use jenkins_to_actions_migra.Regex.Compile.{Flags, plain, compiled}

abbrev dot_all : Flags
dot_all = record { multiline = false; dotall = true }

abbrev multi_line : Flags
multi_line = record { multiline = true; dotall = false }

unfoldable pub block_comment : Regex
unfolding compiled
block_comment = compiled dot_all (codes "/\\*.*?\\*/")

unfoldable pub line_comment : Regex
unfolding compiled
line_comment = compiled plain (codes "(^|[^:'\\\"])//.*$")

unfoldable pub shebang : Regex
unfolding compiled
shebang = compiled multi_line (codes "^#!.*$")

unfoldable pub stage : Regex
unfolding compiled
stage = compiled plain (codes "\\bstage\\s*\\(\\s*['\\\"]([^'\\\"]+)['\\\"]\\s*\\)")

unfoldable pub library : Regex
unfolding compiled
library =
    compiled plain (codes "@Library\\s*\\(\\s*['\\\"]([^'\\\"@]+)(?:@[^'\\\"]+)?['\\\"]\\s*\\)")

unfoldable pub credentials : Regex
unfolding compiled
credentials = compiled plain (codes "\\bcredentials\\s*\\(\\s*['\\\"]([^'\\\"]+)['\\\"]\\s*\\)")

unfoldable pub credentials_id : Regex
unfolding compiled
credentials_id = compiled plain (codes "credentialsId\\s*:\\s*['\\\"]([^'\\\"]+)['\\\"]")

unfoldable pub step_call : Regex
unfolding compiled
step_call = compiled plain (
    codes
      "(?:^|[{;])\\s*([A-Za-z_][A-Za-z0-9_]*)(?:\\s*\\(|\\s+[A-Za-z_][A-Za-z0-9_]*\\s*:|\\s+['\\\"])")

unfoldable pub local_def : Regex
unfolding compiled
local_def = compiled plain (codes "\\bdef\\s+([A-Za-z_][A-Za-z0-9_]*)\\s*\\(")
