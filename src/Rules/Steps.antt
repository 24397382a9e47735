-- ===== src/Rules/Steps.antt =====
-- The rule table of tools/migration-analyzer/src/migration_analyzer/rules.py, second part: artifacts,
-- post blocks, options, plugin steps and environment variables.
use jenkins_to_actions_migra.Prelude.{true, false, List, [], ◌∷◌}
use jenkins_to_actions_migra.Model.{auto, review, manual, drop}
use jenkins_to_actions_migra.Rules.Entry.{Rule, r}

unfoldable pub artifacts : List Rule
unfolding r
artifacts =
    r "stash" "\\b(stash|unstash)\\s*[\\(\\s]" auto "stash / unstash"
      "`actions/upload-artifact` and `actions/download-artifact`, or a single job." "" false
    ∷ r "archive-artifacts" "\\barchiveArtifacts\\b" auto "archiveArtifacts"
        "`actions/upload-artifact` with `retention-days`." "`fingerprint:` has no equivalent." false
    ∷ r "junit" "\\bjunit\\b" review "junit report publisher"
        "Upload the XML as an artifact; a test-reporter action for UI results."
        "There is no UNSTABLE result; failing tests fail the job." false
    ∷ r "checkout-scm" "\\bcheckout\\s+scm\\b" auto "checkout scm" "`actions/checkout`." "" false
    ∷ []

unfoldable pub post : List Rule
unfolding r
post =
    r "post-block" "\\bpost\\s*\\{" auto "post { } block"
      "A job with `needs` on everything and `if: always()` that inspects `needs.*.result`." "" true
    ∷ r "post-unstable" "\\bunstable\\s*\\{" manual "post { unstable }"
        "None; UNSTABLE does not exist. Decide whether those cases are failures or successes." ""
        false
    ∷ r "clean-ws" "\\bcleanWs\\s*\\(" drop "cleanWs()"
        "None; hosted runners are ephemeral. Self-hosted runners may need a cleanup step." "" false
    ∷ []

unfoldable pub options : List Rule
unfolding r
options =
    r "build-discarder" "\\bbuildDiscarder\\s*\\(" drop "buildDiscarder / logRotator"
      "Repository log retention settings and `retention-days` on artifacts." "" false
    ∷ r "timestamps" "\\btimestamps\\s*\\(" drop "timestamps()" "Always on." "" false
    ∷ r "ansi-color" "\\bansiColor\\s*\\(" drop "ansiColor()" "Always on." "" false
    ∷ r "skip-default-checkout" "\\bskipDefaultCheckout\\s*\\(" drop "skipDefaultCheckout()"
        "Jobs never check out implicitly; omit `actions/checkout`." "" false
    ∷ []

unfoldable pub plugins : List Rule
unfolding r
plugins =
    r "plugin-slack" "\\bslackSend\\b" review "slackSend (Slack plugin)"
      "A Slack action (slackapi/slack-github-action) or curl to an incoming webhook." "" false
    ∷ r "plugin-email" "\\b(emailext|mail)\\s*[\\(\\s]" review "emailext / mail"
        "GitHub's built-in failure notifications, or an SMTP marketplace action." "" false
    ∷ r "plugin-sonar" "\\bwithSonarQubeEnv\\b|\\bwaitForQualityGate\\b" review
        "SonarQube plugin wrapper"
        "SonarSource/sonarqube-scan-action with SONAR_TOKEN and SONAR_HOST_URL secrets." "" false
    ∷ r "plugin-docker-global" "\\bdocker\\.(build|image|withRegistry)\\s*\\(" auto
        "docker.* global variable (Docker Pipeline plugin)"
        "docker/login-action, docker/build-push-action." "" false
    ∷ r "plugin-git-publisher" "\\bgitPublisher\\b|\\bsshagent\\s*\\(" review
        "git push from pipeline" "GITHUB_TOKEN with `contents: write`, or a deploy key secret." ""
        false
    ∷ r "plugin-tools" "\\btools\\s*\\{" auto "tools { } block"
        "actions/setup-java, setup-go, setup-node, setup-python, etc." "" false
    ∷ []

unfoldable pub variables : List Rule
unfolding r
variables =
    r "jenkins-env-var"
      "\\benv\\.(BUILD_URL|BUILD_NUMBER|BUILD_ID|JOB_NAME|GIT_COMMIT|GIT_BRANCH|BRANCH_NAME|CHANGE_ID|WORKSPACE|NODE_NAME|BUILD_TAG)\\b"
      auto "Jenkins built-in env var"
      "github context: BUILD_URL -> run URL from github.server_url/repository/run_id; BUILD_NUMBER -> github.run_number; JOB_NAME -> github.workflow; GIT_COMMIT -> github.sha; BRANCH_NAME -> github.ref_name; CHANGE_ID -> github.event.pull_request.number; WORKSPACE -> github.workspace."
      "" false
    ∷ []
