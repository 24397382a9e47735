-- ===== src/Composition/Patches.antt =====
-- hack/render-composition.py: `transform` and `apply_patches`. A list or a dict that a patch puts
-- into the target is from then on one object in both documents; such a patch leaves the model. The
-- text of a SystemExit is left out.
pub mod Steps
pub mod Ends
pub mod Rank
pub mod Keeps
pub mod Spares
use jenkins_to_actions_migra.Prelude.{
  ℕ, zero, suc, Bool, true, false, Text, codes, Option, none, some, List, [], ◌∷◌, any,
  if◌then◌else◌,
}
use jenkins_to_actions_migra.Unicode.{Unicode}
use jenkins_to_actions_migra.Python.{
  Result, ok, err, raises, exits, too_deep, unmodelled, ◌>>=◌, or_raise, each, traverse,
}
use jenkins_to_actions_migra.Python.Access.{
  subscript, entry, entry_or, or_else, or_value, iterate, is_text, text_of, key_of, is_container,
  str,
}
use jenkins_to_actions_migra.Value.{Value, null, boolean, string, list, dict, nil, Fields}
use jenkins_to_actions_migra.Value.Dict.{get}
use jenkins_to_actions_migra.Composition.Segments.{read_path, write_path}
use jenkins_to_actions_migra.Composition.Format.{go_format}

abbrev pub is_null : Value → Bool
is_null null = true
is_null _ = false

-- `for x in v or []`
unfoldable pub items_or_none : Option Value → Result (List Value)
unfolding or_value iterate
items_or_none v = iterate (or_value (or_else null v) (list nil))

-- `p.get("type", "FromCompositeFieldPath")`
unfoldable pub patch_type : Value → Result Value
unfolding entry_or
patch_type p = entry_or p (codes "type") (string (codes "FromCompositeFieldPath"))

module _ (repr : Value → Text) where
  -- `str(value).lower() if isinstance(value, bool) else str(value)`
  unfoldable pub map_key : Value → Text
  unfolding str
  map_key (boolean true) = codes "true"
  map_key (boolean false) = codes "false"
  map_key v = str repr v

-- `t["string"].get("type", "Format") == "Format"`
unfoldable pub is_format : Value → Result Bool
unfolding subscript entry_or is_text
is_format t = do
  spec ← subscript t (codes "string")
  kind ← entry_or spec (codes "type") (string (codes "Format"))
  ok (is_text kind (codes "Format"))

-- `patch_sets[p["patchSetName"]]`
unfoldable pub named_set : Fields → Value → Result Value
unfolding subscript key_of get
named_set sets p = do
  name ← subscript p (codes "patchSetName")
  k ← key_of name
  or_raise (get k sets)

module _ ⦃u : Unicode⦄ where
  -- `set_path(target, p["toFieldPath"], value)`
  unfoldable pub store : Value → Value → Value → Result Value
  unfolding subscript write_path
  store p value target = do
    path ← subscript p (codes "toFieldPath")
    if is_container value then err unmodelled else write_path target path value

  -- `[get_path(xr, v["fromFieldPath"]) for v in p["combine"]["variables"]]`
  unfoldable pub combined_values : Value → Value → Result (List Value)
  unfolding subscript iterate read_path traverse
  combined_values xr p = do
    combine ← subscript p (codes "combine")
    variables ← subscript combine (codes "variables")
    vs ← iterate variables
    traverse (λ v. do path ← subscript v (codes "fromFieldPath"); read_path xr path) vs

module _ (repr : Value → Text) ⦃u : Unicode⦄ where
  -- The three branches of the loop of `transform`.
  unfoldable pub map_value : Value → Value → Result Value
  unfolding subscript entry_or map_key
  map_value t value = do
    table ← subscript t (codes "map")
    entry_or table (map_key repr value) value

  unfoldable pub format_value : Value → Value → Result Value
  unfolding subscript text_of go_format
  format_value t value = do
    spec ← subscript t (codes "string")
    fmt ← subscript spec (codes "fmt")
    text ← text_of fmt
    formatted ← go_format repr text (value ∷ [])
    ok (string formatted)

  unfoldable pub string_value : Value → Value → Result Value
  unfolding is_format format_value
  string_value t value = do known ← is_format t; if known then format_value t value else err exits

  unfoldable pub transform_step : Value → Value → Result Value
  unfolding entry is_text map_value string_value
  transform_step t value = do
    found ← entry t (codes "type")
    let kind = or_else null found
    if is_text kind (codes "map")
        then map_value t value
        else if is_text kind (codes "string")
        then string_value t value
        else err exits

  unfoldable pub transform : Value → Option Value → Result Value
  unfolding items_or_none transform_step each
  transform value transforms = do ts ← items_or_none transforms; each transform_step ts value

  -- A value that was read, and is not None.
  unfoldable pub copy_value : Value → Value → Value → Result Value
  unfolding subscript entry transform store
  copy_value p value target = do
    path ← subscript p (codes "toFieldPath")
    transforms ← entry p (codes "transforms")
    changed ← transform value transforms
    store p changed target

  unfoldable pub from_field : Value → Value → Value → Result Value
  unfolding subscript read_path copy_value
  from_field xr p target = do
    path ← subscript p (codes "fromFieldPath")
    value ← read_path xr path
    if is_null value then ok target else copy_value p value target

  unfoldable pub format_combined : Value → List Value → Value → Result Value
  unfolding subscript text_of go_format store
  format_combined p values target = do
    path ← subscript p (codes "toFieldPath")
    combine ← subscript p (codes "combine")
    spec ← subscript combine (codes "string")
    fmt ← subscript spec (codes "fmt")
    text ← text_of fmt
    formatted ← go_format repr text values
    store p (string formatted) target

  unfoldable pub combine_fields : Value → Value → Value → Result Value
  unfolding combined_values format_combined
  combine_fields xr p target = do
    values ← combined_values xr p
    if any is_null values then ok target else format_combined p values target

  -- The body of the loop of `apply_patches`, where `recur` is the call for a patch set.
  unfoldable pub apply_patch :
      (Value → Value → Result Value) → Value → Fields → Value → Value → Result Value
  unfolding patch_type is_text named_set from_field combine_fields
  apply_patch recur xr sets p target = do
    kind ← patch_type p
    if is_text kind (codes "PatchSet")
        then (do patches ← named_set sets p; recur patches target)
        else if is_text kind (codes "FromCompositeFieldPath")
        then from_field xr p target
        else if is_text kind (codes "CombineFromComposite")
        then combine_fields xr p target
        else if is_text kind (codes "ToCompositeFieldPath")
        then ok target
        else err exits

  -- The fuel bounds the nesting of patch sets.
  unfoldable pub apply_patches : ℕ → Value → Fields → Option Value → Value → Result Value
  unfolding items_or_none each apply_patch
  apply_patches zero xr sets patches target = err too_deep
  apply_patches (suc fuel) xr sets patches target = do
    ps ← items_or_none patches
    each (apply_patch (λ set. apply_patches fuel xr sets (some set)) xr sets) ps target
