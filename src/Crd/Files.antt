-- ===== src/Crd/Files.antt =====
-- hack/crd-schemas.py: `main`, from the arguments and the documents of each source on. A file is its
-- name in the output directory and the document that `json.dumps` writes to it. What was written
-- before a fault is left out, and so is the fault of `json.dumps` at a scalar that JSON does not have.
pub mod Laws
pub mod Written
pub mod Metadata
use jenkins_to_actions_migra.Prelude.{
  ℕ, zero, suc, Bool, true, false, Text, codes, show, Option, none, some, List, [], ◌∷◌, ◌++◌,
  flat_map, length, if◌then◌else◌, newline,
}
use jenkins_to_actions_migra.Unicode.{Unicode, lower}
use jenkins_to_actions_migra.Python.{Result, ok, err, raises, ◌>>=◌, traverse}
use jenkins_to_actions_migra.Python.Access.{
  subscript, entry, entry_or, or_else, iterate, is_text, text_of, str,
}
use jenkins_to_actions_migra.Cli.{path_text}
use jenkins_to_actions_migra.Value.{Value, null, string, list, dict, nil, Fields, end, field}
use jenkins_to_actions_migra.Value.Dict.{get, put, truthy}
use jenkins_to_actions_migra.Crd.{to_json_schema, properties_key, type_key}

abbrev pub File : Type 0
File = Text × Value

-- `{"type": "object"}`
abbrev pub any_object : Value
any_object = dict (field type_key (string (codes "object")) end)

abbrev pub metadata_key : Text
metadata_key = codes "metadata"

abbrev pub is_dict : Value → Bool
is_dict (dict d) = true
is_dict _ = false

-- `isinstance(js.get("properties", {}).get("metadata"), dict)`
unfoldable pub has_metadata : Value → Result Bool
unfolding entry entry_or
has_metadata js = do
  properties ← entry_or js properties_key (dict end)
  metadata ← entry properties metadata_key
  ok (is_dict (or_else null metadata))

-- `v[k] = w`
unfoldable pub set_entry : Value → Text → Value → Result Value
unfolding put
set_entry (dict d) k w = ok (dict (put k w d))
set_entry _ k w = err raises

-- `js["properties"]["metadata"] = {"type": "object"}`
unfoldable pub open_metadata : Value → Result Value
unfolding subscript set_entry
open_metadata js = do
  properties ← subscript js properties_key
  opened ← set_entry properties metadata_key any_object
  set_entry js properties_key opened

-- The document for the schema of a version.
unfoldable pub schema_document : Value → Result Value
unfolding to_json_schema has_metadata open_metadata set_entry
schema_document schema = do
  described ← has_metadata (to_json_schema schema)
  js ← if described then open_metadata (to_json_schema schema) else ok (to_json_schema schema)
  set_entry js (codes "$schema") (string (codes "http://json-schema.org/draft-07/schema#"))

module _ (repr : Value → Text) ⦃u : Unicode⦄ where
  -- `f"{kind.lower()}_{group}_{version['name']}.json"`
  unfoldable pub file_name : Value → Value → Value → Result Text
  unfolding text_of subscript str lower
  file_name group kind version = do
    k ← text_of kind
    name ← subscript version (codes "name")
    ok (lower k ++ b'_' ∷ str repr group ++ b'_' ∷ str repr name ++ codes ".json")

  -- The body of the loop over the versions, with the files that it writes.
  unfoldable pub version_files : Value → Value → Value → Result (List File)
  unfolding entry entry_or truthy schema_document file_name
  version_files group kind version = do
    holder ← entry_or version (codes "schema") (dict end)
    found ← entry holder (codes "openAPIV3Schema")
    let schema = or_else null found
    if truthy schema
        then (do
          js ← schema_document schema
          name ← file_name group kind version
          ok ((name, js) ∷ []))
        else ok []

  unfoldable pub definition_files : Value → Result (List File)
  unfolding subscript entry_or iterate traverse version_files
  definition_files doc = do
    spec ← subscript doc (codes "spec")
    group ← subscript spec (codes "group")
    names ← subscript spec (codes "names")
    kind ← subscript names (codes "kind")
    found ← entry_or spec (codes "versions") (list nil)
    versions ← iterate found
    files ← traverse (version_files group kind) versions
    ok (flat_map (λ fs. fs) files)

  -- The body of the loop over the documents of a source.
  unfoldable pub document_files : Value → Result (List File)
  unfolding get is_text definition_files
  document_files (dict d) =
      if is_text (or_else null (get (codes "kind") d)) (codes "CustomResourceDefinition")
      then definition_files (dict d)
      else ok []
  document_files _ = ok []

  module _ (documents : Text → Result (List Value)) where
    unfoldable pub source_files : Text → Result (List File)
    unfolding traverse document_files
    source_files source = do
      docs ← documents source
      files ← traverse document_files docs
      ok (flat_map (λ fs. fs) files)

    unfoldable pub all_files : List Text → Result (List File)
    unfolding traverse source_files
    all_files sources = do files ← traverse source_files sources; ok (flat_map (λ fs. fs) files)

    -- The exit code, what is written to standard output, and the files in the order of writing. With
    -- too few arguments the usage goes to standard error.
    unfoldable pub main : List Text → Result (ℕ × Text × List File)
    unfolding all_files show path_text
    main (program ∷ out_dir ∷ source ∷ sources) = do
      files ← all_files (source ∷ sources)
      let written =
          codes "wrote "
          ++ show (length files)
          ++ codes " schema(s) to "
          ++ path_text out_dir
          ++ newline ∷ []
      ok (elim files [ [] ↦ 1 | f ∷ fs ↦ 0 ], written, files)
    main argv = ok (2, [], [])
