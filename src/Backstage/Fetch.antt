-- ===== src/Backstage/Fetch.antt =====
-- hack/validate-backstage.py: `fetch_schemas`, and `main` from the parsed arguments on. The network,
-- `json.loads` and the registry of the schema library are parameters.
use jenkins_to_actions_migra.Prelude.{
  ℕ, Bool, true, false, ◌&&◌, ◌==◌, newline, Text, codes, equal, Option, none, some, List, [], ◌∷◌,
  ◌++◌, if◌then◌else◌,
}
use jenkins_to_actions_migra.Unicode.{Unicode}
use jenkins_to_actions_migra.Python.{Result, ok, ◌>>=◌, each}
use jenkins_to_actions_migra.Python.Access.{entry_or}
use jenkins_to_actions_migra.Value.{Value, string}
use jenkins_to_actions_migra.Backstage.{SchemaError, validate_all}

-- `SCHEMAS`
abbrev pub schemas : List (Text × Text)
schemas =
    (codes "Entity", codes "packages/catalog-model/src/schema/Entity.schema.json")
    ∷ (codes "EntityMeta", codes "packages/catalog-model/src/schema/EntityMeta.schema.json")
    ∷ (codes "common", codes "packages/catalog-model/src/schema/shared/common.schema.json")
    ∷ (
      codes "ComponentV1alpha1",
      codes "packages/catalog-model/src/schema/kinds/Component.v1alpha1.schema.json",
    )
    ∷ (
      codes "LocationV1alpha1",
      codes "packages/catalog-model/src/schema/kinds/Location.v1alpha1.schema.json",
    )
    ∷ (codes "TemplateV1beta3", codes "plugins/scaffolder-common/src/Template.v1beta3.schema.json")
    ∷ []

-- The part behind the last slash, where `name` is what follows the last one so far.
abbrev last_part : Text → Text → Text
last_part name [] = name
last_part name (c ∷ t) = last_part (if c == b'/' then [] else name ++ c ∷ []) t

-- `Path(rel).name`
unfoldable pub base_name : Text → Text
base_name rel = last_part [] rel

-- `BASE.format(ref=ref) + rel`
unfoldable pub schema_url : Text → Text → Text
schema_url ref rel =
    codes "https://raw.githubusercontent.com/backstage/backstage/" ++ ref ++ b'/' ∷ rel

-- The files of the cache directory, with the text that was written to each.
abbrev pub Cache : Type 0
Cache = List (Text × Text)

unfoldable pub cached_text : Text → Cache → Option Text
unfolding equal
cached_text name [] = none
cached_text name ((n, t) ∷ cache) =
    let rest = cached_text name cache in if equal name n then some t else rest

-- What `read_text` makes of the ends of lines; `returned` says that a carriage return came before.
unfoldable pub read_newlines : Bool → Text → Text
read_newlines returned [] = []
read_newlines returned (c ∷ t) =
    let after = read_newlines true t in
    let rest = read_newlines false t in
    if c == 13 then newline ∷ after else if c == newline && returned then rest else c ∷ rest

-- The text of a schema that is or is not in the cache, and the cache afterwards.
unfoldable pub cached_schema :
    (Text → Result Text) → Text → Text → Cache → Option Text → Result (Text × Option Cache)
unfolding schema_url base_name read_newlines
cached_schema download ref rel cache (some t) = ok (read_newlines false t, some cache)
cached_schema download ref rel cache none = do
  raw ← download (schema_url ref rel)
  ok (raw, some ((base_name rel, raw) ∷ cache))

-- There is no cache without `--cache-dir`.
unfoldable pub raw_schema :
    (Text → Result Text) → Text → Text → Option Cache → Result (Text × Option Cache)
unfolding schema_url cached_text base_name cached_schema
raw_schema download ref rel none = do raw ← download (schema_url ref rel); ok (raw, none)
raw_schema download ref rel (some cache) =
    cached_schema download ref rel cache (cached_text (base_name rel) cache)

module _ {Resource Registry : Type 0} (loads : Text → Result Value)
    (from_contents : Value → Result Resource)
    (with_resource : Value → Resource → Registry → Result Registry) where
  -- A schema is registered under its name and under its `$id`.
  unfoldable pub register_schema : Text → Value → Registry → Result Registry
  unfolding entry_or
  register_schema name doc registry = do
    resource ← from_contents doc
    named ← with_resource (string name) resource registry
    id ← entry_or doc (codes "$id") (string name)
    with_resource id resource named

  module _ (download : Text → Result Text) (ref : Text) where
    -- The body of the loop.
    unfoldable pub add_schema :
        Text × Text → Registry × Option Cache → Result (Registry × Option Cache)
    unfolding raw_schema register_schema
    add_schema (name, rel) (registry, cache) = do
      (raw, after) ← raw_schema download ref rel cache
      doc ← loads raw
      grown ← register_schema name doc registry
      ok (grown, after)

    unfoldable pub fetch_schemas : Registry → Option Cache → Result (Registry × Option Cache)
    unfolding each add_schema
    fetch_schemas empty cache = each add_schema schemas (empty, cache)

    -- `main`: the exit code, standard output, standard error, and the cache afterwards.
    module _ ⦃u : Unicode⦄ (load_all : Text → Result (List Value))
        (contents : Registry → Text → Result Value)
        (iter_errors : Registry → Value → Value → Result (List SchemaError)) (repr : Value → Text)
        (read_text : Text → Result Text) where
      unfoldable pub main :
          Registry → Option Cache → List Text → Result ((ℕ × Text × Text) × Option Cache)
      unfolding fetch_schemas validate_all
      main empty cache files = do
        (registry, after) ← fetch_schemas empty cache
        ended ← validate_all load_all contents iter_errors repr registry read_text files
        ok (ended, after)
