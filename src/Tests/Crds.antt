-- ===== src/Tests/Crds.antt =====
-- Runs of `main` of hack/crd-schemas.py, and the theorems about it at a concrete definition.
use jenkins_to_actions_migra.Prelude.{
  ◌≡◌, refl, [], ◌∷◌, List, Text, codes, equal, show, All, false,
}
use jenkins_to_actions_migra.Python.{Result, ok}
use jenkins_to_actions_migra.Value.{Value, boolean, string, dict, list, fields_of, items_of}
use jenkins_to_actions_migra.Crd.Clean.{NoExtensions}
use jenkins_to_actions_migra.Crd.Files.{File, all_files, main}
use jenkins_to_actions_migra.Crd.Files.Written.{all_files-NoExtensions}
use jenkins_to_actions_migra.Crd.Files.Metadata.{OpenMetadata, all_files-OpenMetadata}
use jenkins_to_actions_migra.Tests.{ascii}

abbrev entries : List (Text × Value) → Value
entries ps = dict (fields_of ps)

abbrev schema : Value
schema = entries (
    (codes "type", string (codes "object"))
    ∷ (codes "x-kubernetes-validations", string (codes "v"))
    ∷ (
      codes "properties",
      entries (
          (
            codes "metadata",
            entries
                ((codes "type", string (codes "object")) ∷ (codes "properties", entries []) ∷ []),
          )
          ∷ []),
    )
    ∷ [])

abbrev definition : Value
definition = entries (
    (codes "kind", string (codes "CustomResourceDefinition"))
    ∷ (
      codes "spec",
      entries (
          (codes "group", string (codes "g.io"))
          ∷ (codes "names", entries ((codes "kind", string (codes "Task")) ∷ []))
          ∷ (
            codes "versions",
            list (
                items_of (
                  entries (
                    (codes "name", string (codes "v1"))
                    ∷ (codes "schema", entries ((codes "openAPIV3Schema", schema) ∷ []))
                    ∷ [])
                  ∷ entries ((codes "name", string (codes "v2")) ∷ [])
                  ∷ [])),
          )
          ∷ []),
    )
    ∷ [])

abbrev documents : Text → Result (List Value)
documents source = ok (entries [] ∷ definition ∷ [])

abbrev repr : Value → Text
repr v = codes "…"

-- One file, for the version that has a schema.
abbrev written : List File
written =
    (
      codes "task_g.io_v1.json",
      entries (
          (codes "type", string (codes "object"))
          ∷ (
            codes "properties",
            entries
                ((codes "metadata", entries ((codes "type", string (codes "object")) ∷ [])) ∷ []),
          )
          ∷ (codes "additionalProperties", boolean false)
          ∷ (codes "$schema", string (codes "http://json-schema.org/draft-07/schema#"))
          ∷ []),
    )
    ∷ []

writes : all_files repr documents (codes "crds.yaml" ∷ []) ≡ ok written
unfolding all_files equal
writes = refl

-- The message counts the files.
reports :
    main repr documents (codes "crd-schemas.py" ∷ codes "out" ∷ codes "crds.yaml" ∷ [])
    ≡ ok (0, codes "wrote 1 schema(s) to out\n", written)
unfolding main equal show
reports = refl

all_files-NoExtensions_example : All (λ f. NoExtensions f.1) written
all_files-NoExtensions_example =
    all_files-NoExtensions repr documents (codes "crds.yaml" ∷ []) written writes

all_files-OpenMetadata_example : All (λ f. OpenMetadata f.1) written
all_files-OpenMetadata_example =
    all_files-OpenMetadata repr documents (codes "crds.yaml" ∷ []) written writes
