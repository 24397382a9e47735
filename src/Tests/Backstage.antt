-- ===== src/Tests/Backstage.antt =====
-- Runs of hack/validate-backstage.py, and the theorems about it at a concrete document and cache.
use jenkins_to_actions_migra.Prelude.{
  ℕ, false, ◌==◌, if◌then◌else◌, ◌≡◌, ◌↔◌, ◌⊎◌, refl, [], ◌∷◌, List, Text, codes, equal, All,
  Option, none, some, arith, ◌++◌,
}
use jenkins_to_actions_migra.Python.{Result, ok, err, raises}
use jenkins_to_actions_migra.Python.Access.{or_else, is_text}
use jenkins_to_actions_migra.Value.{Value, null, string, dict, end, fields_of}
use jenkins_to_actions_migra.Value.Dict.{get}
use jenkins_to_actions_migra.Backstage.{SchemaError, at_key, at_index, validate_all}
use jenkins_to_actions_migra.Backstage.Valid.{FileIsValid, validate_all_iff}
use jenkins_to_actions_migra.Backstage.Fetch.{Cache, read_newlines, fetch_schemas}
use jenkins_to_actions_migra.Backstage.Cached.{fetch_schemas-cached}
use jenkins_to_actions_migra.Tests.{ascii}

abbrev repr : Value → Text
repr v = codes "…"

-- A component whose owner is the text of the file, and an empty document.
abbrev load_all : Text → Result (List Value)
load_all text = ok (
    dict (
      fields_of (
        (codes "apiVersion", string (codes "backstage.io/v1alpha1"))
        ∷ (codes "kind", string (codes "Component"))
        ∷ (codes "owner", string text)
        ∷ []))
    ∷ null
    ∷ dict end
    ∷ [])

abbrev Registry : Type 0
Registry = List (Value × Value)

abbrev contents : Registry → Text → Result Value
contents registry id = ok (string id)

abbrev missing : SchemaError
missing = record { path = at_key (codes "metadata") ∷ at_index 1 ∷ []; message = codes "missing" }

abbrev wrong : SchemaError
wrong = record { path = at_key (codes "owner") ∷ []; message = codes "wrong" }

-- The owner is to be `example-svc`.
abbrev iter_errors : Registry → Value → Value → Result (List SchemaError)
iter_errors registry schema (dict d) =
    if is_text (or_else null (get (codes "owner") d)) (codes "example-svc")
    then ok []
    else ok (wrong ∷ missing ∷ [])
iter_errors registry schema _ = ok []

abbrev read_text : Text → Result Text
read_text path =
    if equal path (codes "good") then ok (codes "${{ values.name }}") else ok (codes "x")

abbrev validated : List Text → Result (ℕ × Text × Text)
validated = validate_all load_all contents iter_errors repr [] ⦃u = ascii⦄ read_text

abbrev no_schema_line : Text
no_schema_line = codes "[2]: no schema for (…, …), skipped\n"

good_file :
    validated (codes "good" ∷ [])
    ≡ ok (0, codes "good[0]: Component valid\ngood" ++ no_schema_line, [])
unfolding validate_all
good_file = refl

-- The errors are sorted by their paths.
bad_file :
    validated (codes "bad" ∷ [])
    ≡ ok (
      1,
      codes "bad[0] Component metadata/1: missing\nbad[0] Component owner: wrong\nbad"
          ++ no_schema_line,
      codes "2 schema error(s)\n",
    )
unfolding validate_all
bad_file = refl

abbrev good_code : ℕ
good_code = 0

validate_all_iff_example :
    ((good_code ≡ 0)
      ↔ All (FileIsValid load_all contents iter_errors repr [] read_text) (codes "good" ∷ []))
    × ((good_code ≡ 0) ⊎ (good_code ≡ 1))
validate_all_iff_example =
    validate_all_iff load_all contents iter_errors repr [] read_text (codes "good" ∷ []) good_code
      (codes "good[0]: Component valid\ngood" ++ no_schema_line) [] good_file

-- A text that opens an object.
abbrev loads : Text → Result Value
loads [] = err raises
loads (c ∷ t) = if c == b'{' then ok (dict end) else err raises

loads-read_newlines : (t : Text) → loads (read_newlines false t) ≡ loads t
unfolding read_newlines
loads-read_newlines [] = refl
loads-read_newlines (c ∷ t) = ground arith

abbrev from_contents : Value → Result Value
from_contents doc = ok doc

abbrev with_resource : Value → Value → Registry → Result Registry
with_resource id resource registry = ok ((id, resource) ∷ registry)

abbrev download : Text → Result Text
download url = ok (codes "{}")

abbrev offline : Text → Result Text
offline url = err raises

abbrev cache : Cache
cache = (codes "common.schema.json", codes "{\r\n}") ∷ []

abbrev fetched : Registry × Option Cache
fetched =
    elim (fetch_schemas loads from_contents with_resource download (codes "master") []
      (some cache)) [ ok found ↦ found | err e ↦ ([], none) ]

fetched_lem :
    fetch_schemas loads from_contents with_resource download (codes "master") [] (some cache)
    ≡ ok fetched
unfolding fetch_schemas
fetched_lem = refl

fetch_schemas-cached_example :
    fetch_schemas loads from_contents with_resource offline (codes "v1") [] fetched.1 ≡ ok fetched
fetch_schemas-cached_example =
    fetch_schemas-cached loads loads-read_newlines download (codes "master") from_contents
      with_resource offline (codes "v1") [] fetched.0 cache fetched.1 fetched_lem
