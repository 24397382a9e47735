-- ===== src/Tests/Parsing.antt =====
-- The theorems about the scanner at concrete texts.
use jenkins_to_actions_migra.Prelude.{
  ◌≡◌, refl, List, [], ◌∷◌, Text, codes, All, length, map, split_lines, contains, Distinct, join,
  newline, ◌||◌,
}
use jenkins_to_actions_migra.Parser.{strip_comments, strip_line, calls_from, extract, find_all}
use jenkins_to_actions_migra.Parser.Patterns.{credentials, credentials_id}
use jenkins_to_actions_migra.Parser.Lines.{length-strip_comments}
use jenkins_to_actions_migra.Parser.Comments.Whole.{strip_comments_lem}
use jenkins_to_actions_migra.Parser.StepCalls.{
  IsCall, lines_of, call_lines, lines_of-step_calls, step_calls-IsCall,
}
use jenkins_to_actions_migra.Parser.Credentials.{credential_ids_lem}
use jenkins_to_actions_migra.Parser.Comments.{without_comment}
use jenkins_to_actions_migra.Parser.Comments.Search.{strip_line_lem}
use jenkins_to_actions_migra.Tests.{ascii, pipeline}

length-strip_comments_example :
    length (split_lines (strip_comments pipeline)) ≡ length (split_lines pipeline)
length-strip_comments_example = length-strip_comments pipeline

abbrev commented : Text
commented = codes "a //b\nc"

strip_comments_lem_example :
    split_lines (strip_comments commented) ≡ map without_comment (split_lines commented)
strip_comments_lem_example =
    strip_comments_lem commented (refl, (refl, (refl, (refl, (refl, (refl, (refl, tt)))))))
      (refl, (refl, (refl, (refl, (refl, (refl, (refl, tt)))))))

abbrev steps : List Text
steps = codes "sh 'make'; sh 'test'" ∷ codes "deployHelm(a: 1)" ∷ codes "sh 'clean'" ∷ []

lines_of-step_calls_example :
    lines_of (codes "sh") (calls_from 1 steps []) ≡ call_lines (codes "sh") 1 steps
lines_of-step_calls_example = lines_of-step_calls (codes "sh") steps

step_calls-IsCall_example : All (IsCall (length steps)) (calls_from 1 steps [])
step_calls-IsCall_example = step_calls-IsCall steps

abbrev secrets : List Text
secrets =
    codes "A = credentials('sonar') x(credentialsId: 'kube')" ∷ codes "credentials('sonar')" ∷ []

credential_ids_lem_example :
    ((t : Text)
      → contains t (extract secrets secrets).credential_ids ≡ (
          contains t (find_all credentials (join (newline ∷ []) secrets))
          || contains t (find_all credentials_id (join (newline ∷ []) secrets))))
    × Distinct (extract secrets secrets).credential_ids
credential_ids_lem_example = credential_ids_lem secrets secrets

abbrev line : Text
line = codes ":// a// c"

strip_line_lem_example : strip_line line ≡ without_comment line
strip_line_lem_example =
    strip_line_lem line (refl, (refl, (refl, (refl, (refl, (refl, (refl, (refl, (refl, tt)))))))))
