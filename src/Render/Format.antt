-- ===== src/Render/Format.antt =====
-- `render` of tools/migration-analyzer/src/migration_analyzer/report.py.
use jenkins_to_actions_migra.Prelude.{Text, codes, equal, if◌then◌else◌}
use jenkins_to_actions_migra.Unicode.{Unicode}
use jenkins_to_actions_migra.Model.{Report}
use jenkins_to_actions_migra.Render.{to_json}
use jenkins_to_actions_migra.Render.Markdown.{to_markdown}
use jenkins_to_actions_migra.Render.Plain.{to_text}

unfoldable pub render : ⦃u : Unicode⦄ → Report → Text → Text
unfolding to_json to_text to_markdown equal
render r fmt =
    if equal fmt (codes "json")
    then to_json r
    else if equal fmt (codes "text")
    then to_text r
    else to_markdown r
