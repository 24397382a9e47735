-- ===== src/Composition/Pipeline.antt =====
-- hack/render-composition.py: `main`, from the two documents on.
pub mod Objects
use jenkins_to_actions_migra.Prelude.{
  ℕ, zero, suc, Bool, true, false, Text, codes, Option, none, some, List, [], ◌∷◌, ◌++◌, length,
  flat_map, if◌then◌else◌, not, ◌==◌, map,
}
use jenkins_to_actions_migra.Unicode.{Unicode}
use jenkins_to_actions_migra.Python.{Fault, Result, ok, err, unmodelled, ◌>>=◌, each, traverse}
use jenkins_to_actions_migra.Python.Access.{
  subscript, entry, entry_or, or_else, or_value, iterate, is_text, key_of, is_container, str,
}
use jenkins_to_actions_migra.Value.{Value, null, string, list, dict, nil, Fields, end}
use jenkins_to_actions_migra.Value.Dict.{get, has, put, truthy}
use jenkins_to_actions_migra.Composition.{key, assign}
use jenkins_to_actions_migra.Composition.Patches.{apply_patches}

-- `obj.setdefault("metadata", {})`
unfoldable pub with_metadata : Value → Result Value
unfolding has put
with_metadata (dict d) =
    ok (dict (if has (codes "metadata") d then d else put (codes "metadata") (dict end) d))
with_metadata _ = err Fault.raises

-- `obj["metadata"][k] = v`
unfoldable pub set_metadata : Text → Value → Value → Result Value
unfolding subscript assign
set_metadata k v obj = do
  metadata ← subscript obj (codes "metadata")
  changed ← assign (list nil) metadata (key k) v
  assign (list nil) obj (key (codes "metadata")) changed

-- `{ps["name"]: ps["patches"] for ps in sets}`
unfoldable pub patch_set : Value → Fields → Result Fields
unfolding subscript key_of put
patch_set ps sets = do
  name ← subscript ps (codes "name")
  k ← key_of name
  patches ← subscript ps (codes "patches")
  ok (put k patches sets)

unfoldable pub patch_sets : Value → Result Fields
unfolding entry_or iterate each patch_set
patch_sets inp = do
  sets ← entry_or inp (codes "patchSets") (list nil)
  all ← iterate sets
  each patch_set all end

-- What the program uses of the YAML library: reading a file, `safe_load(safe_dump(value))`, which may
-- sort the keys of a dict, and `safe_dump_all`.
pub record Yaml : Type 0 where
  pub read : Text → Result Value
  pub reload : Value → Result Value
  pub dump_all : List Value → Text

module _ (repr : Value → Text) where
  -- `f"{xr['metadata']['name']}-{res['name']}"`
  unfoldable pub composed_name : Value → Value → Result Text
  unfolding subscript str
  composed_name xr res = do
    metadata ← subscript xr (codes "metadata")
    xr_name ← subscript metadata (codes "name")
    name ← subscript res (codes "name")
    ok (str repr xr_name ++ b'-' ∷ str repr name)

-- A list or a dict as the namespace would be one object in both documents.
unfoldable pub set_namespace : Value → Value → Result Value
unfolding subscript entry truthy set_metadata
set_namespace xr obj = do
  metadata ← subscript xr (codes "metadata")
  found ← entry metadata (codes "namespace")
  let namespace = or_else null found
  if truthy namespace
      then if is_container namespace
        then err unmodelled
        else set_metadata (codes "namespace") namespace obj
      else ok obj

module _ (yaml : Yaml) (repr : Value → Text) ⦃u : Unicode⦄ (fuel : ℕ) where
  -- The body of the loop over the resources.
  unfoldable pub resource_object : Value → Fields → Value → Result Value
  unfolding subscript entry with_metadata composed_name set_metadata set_namespace apply_patches
  resource_object xr sets res = do
    base ← subscript res (codes "base")
    obj ← yaml.reload base
    labelled ← with_metadata obj
    name ← composed_name repr xr res
    named ← set_metadata (codes "name") (string name) labelled
    placed ← set_namespace xr named
    patches ← entry res (codes "patches")
    apply_patches repr fuel xr sets patches placed

  -- The body of the loop over the steps, with the documents that one step appends.
  unfoldable pub step_objects : Value → Value → Result (List Value)
  unfolding entry or_value is_text patch_sets subscript iterate resource_object traverse
  step_objects xr step = do
    input ← entry step (codes "input")
    let inp = or_value (or_else null input) (dict end)
    kind ← entry inp (codes "kind")
    if is_text (or_else null kind) (codes "Resources")
        then (do
          sets ← patch_sets inp
          found ← subscript inp (codes "resources")
          resources ← iterate found
          traverse (resource_object xr sets) resources)
        else ok []

  unfoldable pub composed_objects : Value → Value → Result (List Value)
  unfolding subscript iterate traverse step_objects
  composed_objects composition xr = do
    spec ← subscript composition (codes "spec")
    pipeline ← subscript spec (codes "pipeline")
    steps ← iterate pipeline
    docs ← traverse (step_objects xr) steps
    ok (flat_map (λ d. d) docs)

  -- `main`: the exit code and what is written to standard output. With a wrong number of arguments
  -- the usage goes to standard error.
  unfoldable pub main : List Text → Result (ℕ × Text)
  unfolding composed_objects
  main (program ∷ composition ∷ xr ∷ []) = do
    composition_doc ← yaml.read composition
    xr_doc ← yaml.read xr
    docs ← composed_objects composition_doc xr_doc
    ok (0, yaml.dump_all docs)
  main argv = ok (2, [])
