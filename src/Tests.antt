-- ===== src/Tests.antt =====
-- Runs of the models on small inputs, and the theorems at such inputs.
mod Runs
mod Parsing
mod Analysis
mod Reporting
mod Schemas
mod Documents
mod Templates
mod Patches
mod Formats
mod Reload
mod Spared
mod Crds
mod Backstage
use jenkins_to_actions_migra.Prelude.{Text, codes, Option, some, none, false, [], ◌∷◌, ◌≡◌}
use jenkins_to_actions_migra.Unicode.{Unicode}
use jenkins_to_actions_migra.Model.{Report}
use jenkins_to_actions_migra.Analyzer.{analyze_text}
use jenkins_to_actions_migra.Analyzer.Total.{analyze_text-total}

-- Every code point above 127 is caseless and no word character.
instance abbrev pub ascii : Unicode
ascii = record {
  alphanumeric = λ c. false;
  uppercase = λ c. false;
  lower = λ c. c ∷ [];
  upper = λ c. c ∷ [];
  lower_text = λ t. t;
}

abbrev pub pipeline : Text
pipeline =
    codes
      "@Library('shared') _\npipeline { // demo\n  stages { stage('B') { steps { sh 'make'; deployHelm(a: 'x') } } }\n  post { always { cleanWs() } }\n}"

abbrev pub jenkinsfile : Text
jenkinsfile = codes "Jenkinsfile"

abbrev pub report : Report
report = (analyze_text-total pipeline jenkinsfile).0

pub report_analyzed : analyze_text pipeline jenkinsfile ≡ some report
report_analyzed = (analyze_text-total pipeline jenkinsfile).1
