-- ===== src/Tests/Runs.antt =====
-- Runs of the models on small inputs.
use jenkins_to_actions_migra.Prelude.{
  ◌≡◌, refl, Bool, true, false, ◌&&◌, none, some, Option, List, [], ◌∷◌, Text, codes, map,
}
use jenkins_to_actions_migra.Regex.{Regex, never}
use jenkins_to_actions_migra.Model.{Report}
use jenkins_to_actions_migra.Parser.{strip_comments, find_all, calls_from}
use jenkins_to_actions_migra.Parser.Patterns.{stage}
use jenkins_to_actions_migra.Rules.{rules}
use jenkins_to_actions_migra.Rules.Entry.{Rule}
use jenkins_to_actions_migra.Rules.Names.{known_steps, plugin_names}
use jenkins_to_actions_migra.Analyzer.{kebab, analyze_text}
use jenkins_to_actions_migra.Render.{secret_name}
use jenkins_to_actions_migra.Render.Markdown.{to_markdown}
use jenkins_to_actions_migra.Render.Plain.{to_text}
use jenkins_to_actions_migra.Cli.{path_text}
use jenkins_to_actions_migra.Tests.{ascii, pipeline, jenkinsfile}

abbrev compiles : Regex → Bool
compiles never = false
compiles _ = true

abbrev all_compile : List Rule → Bool
all_compile [] = true
all_compile (rule ∷ table) = compiles rule.pattern && all_compile table

-- Every pattern of the rule table is in the modelled subset.
rules_compile : all_compile rules ≡ true
unfolding rules
rules_compile = refl

commented_stripped :
    strip_comments (codes "#!groovy\na/*q\n*/b // c\nsh 'curl http://d'")
    ≡ codes "\na\nb \nsh 'curl http://d'"
unfolding strip_comments
commented_stripped = refl

-- Two globs in strings are read as a block comment, and the step between them is lost.
globs_stripped :
    strip_comments (codes "junit 'r/*.xml'\nlock('x')\nsh 'ls **/*.jar'")
    ≡ codes "junit 'r\n\n*.jar'"
unfolding strip_comments
globs_stripped = refl

stages_found :
    find_all stage (codes "stage( 'Build' ) stage(\"b\") upstage('c')")
    ≡ codes "Build" ∷ codes "b" ∷ []
unfolding find_all stage
stages_found = refl

calls_found :
    calls_from 1 (codes "  sh 'make'" ∷ codes "x { deployHelm(service: 'x') }" ∷ []) []
    ≡ (codes "sh", 1 ∷ []) ∷ (codes "deployHelm", 2 ∷ []) ∷ []
unfolding calls_from
calls_found = refl

kebab_runs : kebab (codes "DeployHelm") ≡ codes "deploy-helm"
unfolding kebab
kebab_runs = refl

secret_runs : secret_name (codes "sonar-token.v2") ≡ codes "SONAR_TOKEN_V2"
unfolding secret_name
secret_runs = refl

path_runs : path_text (codes ".//ci/./Jenkinsfile") ≡ codes "ci/Jenkinsfile"
unfolding path_text
path_runs = refl

abbrev rule_ids : Option Report → List Text
rule_ids none = []
rule_ids (some r) = map (λ f. f.rule) r.findings

pipeline_reported :
    rule_ids (analyze_text pipeline jenkinsfile)
    ≡ codes "shared-library"
      ∷ codes "shared-library-step"
      ∷ codes "stage"
      ∷ codes "clean-ws"
      ∷ codes "post-block"
      ∷ []
unfolding analyze_text known_steps plugin_names
pipeline_reported = refl

abbrev text_of : Option Report → Text
text_of none = []
text_of (some r) = to_text r

cleanup_text :
    text_of (analyze_text (codes "cleanWs()") (codes "x"))
    ≡ codes
        "x: 1 findings {'auto': 0, 'review': 0, 'manual': 0, 'drop': 1}\nL1    drop   clean-ws               cleanWs()\n"
unfolding analyze_text known_steps plugin_names to_text
cleanup_text = refl

abbrev markdown_of : Option Report → Text
markdown_of none = []
markdown_of (some r) = to_markdown r

cleanup_markdown :
    markdown_of (analyze_text (codes "cleanWs()") (codes "x"))
    ≡ codes
        "# Migration checklist: `x`\n\n1 lines, 0 stages, 1 findings: **0 manual**, 0 review, 0 auto, 1 drop.\n\n## Plugin steps in use\n\n- `cleanWs`\n\n## Goes away (1)\n\n- [x] **L1** cleanWs()\n  - Actions: None; hosted runners are ephemeral. Self-hosted runners may need a cleanup step.\n  - `cleanWs()`\n"
unfolding analyze_text known_steps plugin_names to_markdown
cleanup_markdown = refl
