-- ===== src/Tests/Formats.antt =====
-- Runs of `go_format` of hack/render-composition.py, and the theorem about it at a concrete text.
use jenkins_to_actions_migra.Prelude.{◌≡◌, refl, [], ◌∷◌, codes}
use jenkins_to_actions_migra.Python.{ok, err, raises}
use jenkins_to_actions_migra.Value.{null, number}
use jenkins_to_actions_migra.Composition.Format.{go_format}
use jenkins_to_actions_migra.Composition.Format.Escape.{escaped, go_format-escaped}
use jenkins_to_actions_migra.Tests.{ascii}
use jenkins_to_actions_migra.Tests.Patches.{text, repr}

-- Explicit indexes, the index after one, and a percent sign.
formats :
    go_format repr
      (codes "%[2]s-%s-%[1]s 5%%")
      (text (codes "a") ∷ number 7 ∷ text (codes "c") ∷ [])
    ≡ ok (codes "7-c-a 5%")
unfolding go_format
formats = refl

-- `%[0]s` is the last value, since a negative index counts from the end.
formats_last :
    go_format repr (codes "%[0]s") (text (codes "a") ∷ text (codes "b") ∷ []) ≡ ok (codes "b")
unfolding go_format
formats_last = refl

-- More verbs than values raise.
formats_short : go_format repr (codes "%s%s") (text (codes "a") ∷ []) ≡ err raises
unfolding go_format
formats_short = refl

go_format-escaped_example :
    go_format repr (escaped (codes "100% of %s")) (null ∷ []) ≡ ok (codes "100% of %s")
go_format-escaped_example =
    go_format-escaped repr (codes "100% of %s") (null ∷ [])
      (refl, (refl, (refl, (refl, (refl, (refl, (refl, (refl, (refl, (refl, tt))))))))))
