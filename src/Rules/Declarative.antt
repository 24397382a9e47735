-- ===== src/Rules/Declarative.antt =====
-- The rule table of tools/migration-analyzer/src/migration_analyzer/rules.py, first part: structure,
-- parameters and triggers, gates and flow control. The tables are in the order of the source.
use jenkins_to_actions_migra.Prelude.{true, false, List, [], ◌∷◌}
use jenkins_to_actions_migra.Model.{auto, review, manual, drop}
use jenkins_to_actions_migra.Rules.Entry.{Rule, r}

unfoldable pub structure : List Rule
unfolding r
structure =
    r "shared-library" "@Library\\s*\\(" manual "Shared library import"
      "Composite actions (.github/actions/*) for vars/ steps; reusable workflows for whole pipelines. Classes under src/ have no equivalent."
      "Port the library first; everything else depends on it." true
    ∷ r "agent-docker" "\\bagent\\s*\\{\\s*docker\\b|^\\s*docker(file)?\\s*\\{" review
        "Docker agent"
        "actions/setup-* for toolchains, or `container:` on the job to run inside the image."
        "Prefer setup actions; `container:` jobs cannot use some actions that need the host." true
    ∷ r "docker-socket" "/var/run/docker\\.sock" manual "Docker socket mounted into the agent"
        "None. GitHub-hosted runners have Docker available without a socket mount."
        "Check what the socket was for; image builds work as-is, DinD sidecars need redesign." false
    ∷ r "agent-label" "\\blabel\\s+['\\\"][^'\\\"]+['\\\"]" review "Agent label selector"
        "`runs-on:` with a hosted runner label or self-hosted runner labels."
        "Map each Jenkins label to a runner label; there is no boolean label expression syntax."
        false
    ∷ r "stage" "\\bstage\\s*\\(\\s*['\\\"]([^'\\\"]+)['\\\"]\\s*\\)" auto "Stage"
        "A job (or a step within a job, for cheap sequential stages)." "" false
    ∷ r "parallel" "\\bparallel\\s*\\{" auto "Parallel stages"
        "Separate jobs with no `needs` edge between them." "" false
    ∷ r "matrix" "\\bmatrix\\s*\\{" auto "Matrix" "`strategy.matrix` on the job." "" false
    ∷ r "script-block" "\\bscript\\s*\\{" review "Scripted Groovy block"
        "Shell `run:` steps, or a small script checked into the repo."
        "Groovy logic must be rewritten; look at what the block computes and where it is used."
        false
    ∷ []

unfoldable pub parameters : List Rule
unfolding r
parameters =
    r "parameters" "\\bparameters\\s*\\{" auto "Build parameters"
      "`workflow_dispatch.inputs` (choice, boolean, string types all exist)." "" true
    ∷ r "environment-block" "\\benvironment\\s*\\{" auto "Environment block"
        "`env:` at workflow, job or step level."
        "Entries that call credentials() are reported separately." true
    ∷ r "credentials-helper" "\\bcredentials\\s*\\(\\s*['\\\"]([^'\\\"]+)['\\\"]\\s*\\)" review
        "credentials() binding"
        "`${{ secrets.<NAME> }}` after creating the secret in the right scope."
        "Username/password credentials expand to two variables in Jenkins (_USR/_PSW); create two secrets or use a single token."
        false
    ∷ r "with-credentials" "\\bwithCredentials\\s*\\(" review "withCredentials block"
        "Step-level `env:` mapping `${{ secrets.NAME }}` to the variable the script expects."
        "File credentials become base64 secrets written to $RUNNER_TEMP; prefer OIDC for cloud providers."
        false
    ∷ r "credentials-id" "credentialsId\\s*:\\s*['\\\"]([^'\\\"]+)['\\\"]" review "Credential ID"
        "A repository, environment, or organisation secret." "" false
    ∷ r "cron-trigger" "\\bcron\\s*\\(\\s*['\\\"]([^'\\\"]+)['\\\"]" review "Cron trigger"
        "`on.schedule[].cron`."
        "No `H` hash syntax; pick a fixed minute. Scheduled runs only fire on the default branch."
        false
    ∷ r "pollscm-trigger" "\\bpollSCM\\s*\\(" drop "pollSCM trigger"
        "None needed; `on: push` and `on: pull_request` are event-driven." "" false
    ∷ r "upstream-trigger" "\\bupstream\\s*\\(" review "Upstream job trigger"
        "`on: workflow_run` or `repository_dispatch`." "" false
    ∷ []

unfoldable pub gates : List Rule
unfolding r
gates =
    r "input-gate" "\\binput\\s+(message|id)\\s*:|\\binput\\s*\\(|\\binput\\s+['\\\"]" manual
      "Manual input gate" "A GitHub environment with required reviewers on the deploying job."
      "Reviewers are configured in repo settings, not the workflow. Decide which environment models each gate."
      false
    ∷ r "submitter" "\\bsubmitter\\s*:" manual "input submitter restriction"
        "Required reviewers on the environment." "" false
    ∷ r "lock" "\\block\\s*\\(" review "lock() resource"
        "`concurrency: { group: <resource>, cancel-in-progress: false }`."
        "Concurrency keeps one pending run and cancels older pending ones; a lock queued all." false
    ∷ r "milestone" "\\bmilestone\\b" manual "milestone()"
        "None. `concurrency` orders runs but never skips an older one that already started." ""
        false
    ∷ r "disable-concurrent" "\\bdisableConcurrentBuilds\\s*\\(" auto "disableConcurrentBuilds()"
        "Workflow-level `concurrency:` group keyed on the ref." "" false
    ∷ r "timeout" "\\btimeout\\s*\\(" auto "timeout" "`timeout-minutes` on the job or step."
        "A timeout wrapping `input` has no equivalent; pending deployments wait up to 30 days."
        false
    ∷ r "retry" "\\bretry\\s*\\(" review "retry()"
        "No built-in step retry. A shell loop or a marketplace retry action." "" false
    ∷ r "when-branch" "\\bbranch\\s+['\\\"]([^'\\\"]+)['\\\"]" auto "when { branch }"
        "`if: github.ref == 'refs/heads/<name>'` or an `on.push.branches` filter." "" false
    ∷ r "when-expression" "\\bexpression\\s*\\{" review "when { expression }"
        "`if:` using the expression syntax."
        "Groovy expressions must be rewritten; only `inputs.*`, `github.*`, `needs.*` and `env.*` are available."
        false
    ∷ r "when-changeset" "\\bchangeset\\s+['\\\"]" auto "when { changeset }"
        "`on.push.paths` / `on.pull_request.paths` filters, or a paths-filter action." "" false
    ∷ []
