-- ===== src/Backstage.antt =====
-- hack/validate-backstage.py: `validate_file`, and the part of `main` behind the registry. The YAML
-- library and the schema library are parameters. What is printed before a fault is left out.
pub mod Fetch
pub mod Cached
pub mod Counts
pub mod Valid
use jenkins_to_actions_migra.Prelude.{
  ℕ, suc, ◌+◌, Bool, true, false, ◌&&◌, ◌||◌, Text, codes, equal, text_le, join, show, leb, ◌==◌,
  newline, Option, none, some, List, [], ◌∷◌, ◌++◌, map, flat_map, length, if◌then◌else◌,
}
use jenkins_to_actions_migra.Prelude.Sorting.{sort}
use jenkins_to_actions_migra.Unicode.{Unicode}
use jenkins_to_actions_migra.Python.{Result, ok, err, raises, unmodelled, ◌>>=◌}
use jenkins_to_actions_migra.Python.Access.{or_else, is_text, is_container, str}
use jenkins_to_actions_migra.Cli.{path_text}
use jenkins_to_actions_migra.Value.{Value, null, dict}
use jenkins_to_actions_migra.Value.Dict.{get}
use jenkins_to_actions_migra.Skeleton.{render_placeholders}

-- `KIND_TO_SCHEMA`
abbrev pub kind_to_schema : List ((Text × Text) × Text)
kind_to_schema =
    ((codes "backstage.io/v1alpha1", codes "Component"), codes "ComponentV1alpha1")
    ∷ ((codes "backstage.io/v1alpha1", codes "Location"), codes "LocationV1alpha1")
    ∷ ((codes "scaffolder.backstage.io/v1beta3", codes "Template"), codes "TemplateV1beta3")
    ∷ []

abbrev schema_in : List ((Text × Text) × Text) → Value → Value → Option Text
schema_in [] version kind = none
schema_in (((v, k), id) ∷ table) version kind =
    let rest = schema_in table version kind in
    if is_text version v && is_text kind k then some id else rest

-- `KIND_TO_SCHEMA.get((version, kind))`; a list or a dict in the key raises.
unfoldable pub schema_for : Value → Value → Result (Option Text)
unfolding is_text
schema_for version kind =
    if is_container version || is_container kind
    then err raises
    else ok (schema_in kind_to_schema version kind)

-- A key or an index on the way to what an error is about.
pub data Place : Type 0 where
  at_key : Text → Place
  at_index : ℕ → Place

-- What the program uses of an error of the schema library.
pub record SchemaError : Type 0 where
  pub path : List Place
  pub message : Text

-- `p <= q`; a text and a number cannot be compared.
abbrev place_le : Place → Place → Option Bool
place_le (at_key s) (at_key t) = some (text_le s t)
place_le (at_index m) (at_index n) = some (leb m n)
place_le _ _ = none

abbrev same_place : Place → Place → Bool
same_place (at_key s) (at_key t) = equal s t
same_place (at_index m) (at_index n) = m == n
same_place _ _ = false

-- Lists are compared at the first place where they differ.
unfoldable pub path_le : List Place → List Place → Option Bool
unfolding text_le equal
path_le [] q = some true
path_le (x ∷ p) [] = some false
path_le (x ∷ p) (y ∷ q) = let rest = path_le p q in if same_place x y then rest else place_le x y

abbrev or_true : Option Bool → Bool
or_true none = true
or_true (some b) = b

abbrev is_compared : Option Bool → Bool
is_compared none = false
is_compared (some b) = true

abbrev error_le : SchemaError → SchemaError → Bool
error_le e f = or_true (path_le e.path f.path)

abbrev comparable_with : SchemaError → List SchemaError → Bool
comparable_with e [] = true
comparable_with e (f ∷ es) = is_compared (path_le e.path f.path) && comparable_with e es

abbrev comparable : List SchemaError → Bool
comparable [] = true
comparable (e ∷ es) = comparable_with e es && comparable es

-- `sorted(errors, key=lambda e: list(e.path))`. Whether paths that cannot be compared raise depends
-- on which of them the sort compares; they leave the model.
unfoldable pub sorted_errors : List SchemaError → Result (List SchemaError)
unfolding sort path_le
sorted_errors es = if comparable es then ok (sort error_le es) else err unmodelled

abbrev place_text : Place → Text
place_text (at_key t) = t
place_text (at_index n) = show n

-- `"/".join(str(p) for p in e.path) or "<root>"`
unfoldable pub location : List Place → Text
unfolding join equal
location path =
    let text = join (codes "/") (map place_text path) in
    if equal text [] then codes "<root>" else text

-- `f"{path}[{i}]"`
unfoldable pub place_of : Text → ℕ → Text
unfolding path_text
place_of path i = path_text path ++ b'[' ∷ show i ++ codes "]"

unfoldable pub error_line : Text → Text → SchemaError → Text
unfolding location
error_line place kind e =
    place ++ b' ' ∷ kind ++ b' ' ∷ location e.path ++ codes ": " ++ e.message ++ newline ∷ []

-- The number of errors, and what is printed.
unfoldable pub outcome : Text → Text → List SchemaError → ℕ × Text
unfolding error_line
outcome place kind [] = (0, place ++ codes ": " ++ kind ++ codes " valid" ++ newline ∷ [])
outcome place kind (e ∷ es) = (length (e ∷ es), flat_map (error_line place kind) (e ∷ es))

module _ {Registry : Type 0} (load_all : Text → Result (List Value))
    (contents : Registry → Text → Result Value)
    (iter_errors : Registry → Value → Value → Result (List SchemaError)) (repr : Value → Text)
    (registry : Registry) where
  -- A document whose schema is known.
  unfoldable pub known_document : Text → Value → Text → Value → Result (ℕ × Text)
  unfolding sorted_errors outcome str
  known_document place kind id doc = do
    schema ← contents registry id
    errors ← iter_errors registry schema doc
    found ← sorted_errors errors
    ok (outcome place (str repr kind) found)

  unfoldable pub no_schema : Text → Value → Value → ℕ × Text
  no_schema place version kind = (
    0,
    place
        ++ codes ": no schema for ("
        ++ repr version
        ++ codes ", "
        ++ repr kind
        ++ codes "), skipped"
        ++ newline ∷ [],
  )

  -- The body of the loop over the documents.
  unfoldable pub validate_document : Text → Value → Result (ℕ × Text)
  unfolding schema_for known_document no_schema get
  validate_document place (dict d) = do
    let version = or_else null (get (codes "apiVersion") d)
    let kind = or_else null (get (codes "kind") d)
    found ← schema_for version kind
    elim found [
      | none ↦ ok (no_schema place version kind)
      | some id ↦ known_document place kind id (dict d)
    ]
  validate_document place _ = ok (0, [])

  unfoldable pub validate_documents : Text → ℕ → List Value → Result (ℕ × Text)
  unfolding validate_document place_of
  validate_documents path i [] = ok (0, [])
  validate_documents path i (doc ∷ docs) = do
    (n, out) ← validate_document (place_of path i) doc
    (more, rest) ← validate_documents path (suc i) docs
    ok (n + more, out ++ rest)

  module _ ⦃u : Unicode⦄ (read_text : Text → Result Text) where
    -- The documents of a file.
    unfoldable pub documents : Text → Result (List Value)
    unfolding render_placeholders
    documents path = do text ← read_text path; load_all (render_placeholders text)

    unfoldable pub validate_file : Text → Result (ℕ × Text)
    unfolding documents validate_documents
    validate_file path = do docs ← documents path; validate_documents path 0 docs

    -- `sum(validate_file(f, registry) for f in args.files)`
    unfoldable pub validate_files : List Text → Result (ℕ × Text)
    unfolding validate_file
    validate_files [] = ok (0, [])
    validate_files (path ∷ paths) = do
      (n, out) ← validate_file path
      (more, rest) ← validate_files paths
      ok (n + more, out ++ rest)

    -- `main` from the registry on: the exit code, standard output and standard error.
    unfoldable pub validate_all : List Text → Result (ℕ × Text × Text)
    unfolding validate_files show
    validate_all files = do
      (total, out) ← validate_files files
      if total == 0
          then ok (0, out, [])
          else ok (1, out, show total ++ codes " schema error(s)" ++ newline ∷ [])
