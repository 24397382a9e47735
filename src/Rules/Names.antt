-- ===== src/Rules/Names.antt =====
-- `KNOWN_STEPS` and `PLUGIN_STEPS` of tools/migration-analyzer/src/migration_analyzer/rules.py.
use jenkins_to_actions_migra.Prelude.{String, List, [], ◌∷◌, ◌++◌, map, codes, Text}

-- Steps, directives and Groovy words.
unfoldable pub known_words : List String
known_words =
    "sh" ∷ "bat" ∷ "powershell" ∷ "pwsh" ∷ "echo" ∷ "error" ∷ "sleep" ∷ "retry" ∷ "timeout"
    ∷ "checkout" ∷ "git" ∷ "stash" ∷ "unstash" ∷ "archiveArtifacts" ∷ "junit" ∷ "input" ∷ "lock"
    ∷ "milestone" ∷ "withCredentials" ∷ "withEnv" ∷ "dir" ∷ "script" ∷ "parallel" ∷ "stage"
    ∷ "steps" ∷ "post" ∷ "always" ∷ "success" ∷ "failure" ∷ "unstable" ∷ "changed" ∷ "aborted"
    ∷ "cleanup" ∷ "fixed" ∷ "regression" ∷ "pipeline" ∷ "agent" ∷ "options" ∷ "triggers"
    ∷ "parameters" ∷ "environment" ∷ "stages" ∷ "when" ∷ "tools" ∷ "matrix" ∷ "axes" ∷ "axis"
    ∷ "docker" ∷ "dockerfile" ∷ "node" ∷ "label" ∷ "any" ∷ "none" ∷ "kubernetes" ∷ "cron"
    ∷ "pollSCM" ∷ "upstream" ∷ "choice" ∷ "booleanParam" ∷ "string" ∷ "text" ∷ "password"
    ∷ "credentials" ∷ "expression" ∷ "branch" ∷ "allOf" ∷ "anyOf" ∷ "not" ∷ "buildingTag"
    ∷ "changeset" ∷ "changelog" ∷ "equals" ∷ "tag" ∷ "triggeredBy" ∷ "buildDiscarder" ∷ "logRotator"
    ∷ "disableConcurrentBuilds" ∷ "timestamps" ∷ "ansiColor" ∷ "skipDefaultCheckout"
    ∷ "skipStagesAfterUnstable" ∷ "quietPeriod" ∷ "slackSend" ∷ "emailext" ∷ "mail"
    ∷ "withSonarQubeEnv" ∷ "waitForQualityGate" ∷ "cleanWs" ∷ "deleteDir" ∷ "readFile" ∷ "writeFile"
    ∷ "fileExists" ∷ "readJSON" ∷ "writeJSON" ∷ "readYaml" ∷ "writeYaml" ∷ "httpRequest" ∷ "build"
    ∷ "catchError" ∷ "warnError" ∷ "waitUntil" ∷ "wrap" ∷ "withMaven" ∷ "withGradle"
    ∷ "usernamePassword" ∷ "file" ∷ "sshUserPrivateKey" ∷ "secretText" ∷ "culprits" ∷ "requestor"
    ∷ "developers" ∷ "sshagent" ∷ "gitPublisher" ∷ "pipelineTriggers" ∷ "properties" ∷ "library"
    ∷ "load" ∷ "container" ∷ "podTemplate" ∷ "containerTemplate" ∷ "publishHTML" ∷ "cobertura"
    ∷ "recordIssues" ∷ "step" ∷ "scm" ∷ "env" ∷ "params" ∷ "currentBuild" ∷ "return" ∷ "def" ∷ "if"
    ∷ "else" ∷ "for" ∷ "while" ∷ "try" ∷ "catch" ∷ "finally" ∷ "new" ∷ "throw" ∷ "println" ∷ "print"
    ∷ "map" ∷ "list" ∷ "set" ∷ "get" ∷ "put" ∷ "size" ∷ "each" ∷ "collect" ∷ "find" ∷ "take"
    ∷ "trim" ∷ "toLowerCase" ∷ "toUpperCase" ∷ "split" ∷ "join" ∷ "contains" ∷ "startsWith"
    ∷ "endsWith" ∷ "replace" ∷ "replaceAll" ∷ "format" ∷ "toString" ∷ "toInteger" ∷ "isEmpty" ∷ []

-- Directive options and named arguments.
unfoldable pub known_arguments : List String
known_arguments =
    "image" ∷ "args" ∷ "alwaysPull" ∷ "reuseNode" ∷ "customWorkspace" ∷ "registryUrl"
    ∷ "registryCredentialsId" ∷ "filename" ∷ "additionalBuildArgs" ∷ "yaml" ∷ "yamlFile"
    ∷ "defaultContainer" ∷ "inheritFrom" ∷ "cloud" ∷ "channel" ∷ "color" ∷ "message" ∷ "subject"
    ∷ "body" ∷ "recipientProviders" ∷ "url" ∷ "unit" ∷ "time" ∷ "resource" ∷ "inversePrecedence"
    ∷ "ok" ∷ "id" ∷ "name" ∷ "includes" ∷ "excludes" ∷ "artifacts" ∷ "fingerprint" ∷ "testResults"
    ∷ "allowEmptyResults" ∷ "returnStdout" ∷ "returnStatus" ∷ "credentialsId" ∷ "usernameVariable"
    ∷ "passwordVariable" ∷ "variable" ∷ "defaultValue" ∷ "description" ∷ "choices" ∷ "numToKeepStr"
    ∷ "daysToKeepStr" ∷ "artifactNumToKeepStr" ∷ "values" ∷ "abortPipeline" ∷ "activity" ∷ "quiet"
    ∷ "beforeAgent" ∷ "beforeInput" ∷ "beforeOptions" ∷ []

unfoldable pub known_steps : List Text
unfolding known_words known_arguments
known_steps = map codes (known_words ++ known_arguments)

unfoldable pub plugin_names : List Text
plugin_names = map codes (
    "slackSend" ∷ "emailext" ∷ "withSonarQubeEnv" ∷ "waitForQualityGate" ∷ "junit" ∷ "publishHTML"
    ∷ "cobertura" ∷ "recordIssues" ∷ "httpRequest" ∷ "withMaven" ∷ "withGradle" ∷ "sshagent"
    ∷ "gitPublisher" ∷ "kubernetes" ∷ "podTemplate" ∷ "ansiColor" ∷ "timestamps" ∷ "cleanWs" ∷ [])
