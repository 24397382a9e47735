-- ===== src/Crd.antt =====
-- hack/crd-schemas.py: `to_json_schema`, which turns the OpenAPI schema of a custom resource into a
-- strict JSON schema.
pub mod Clean
pub mod Files
pub mod Strict
use jenkins_to_actions_migra.Prelude.{
  Bool, true, false, not, ◌&&◌, Text, codes, equal, contains, starts_with, Option, none, some,
  if◌then◌else◌, [], ◌∷◌,
}
use jenkins_to_actions_migra.Value.{
  Value, null, boolean, integer, other, string, list, dict, Items, nil, cons, Fields, end, field,
}
use jenkins_to_actions_migra.Value.Dict.{get, has, put, remove, flag}

abbrev pub type_key : Text
type_key = codes "type"

abbrev pub properties_key : Text
properties_key = codes "properties"

abbrev pub additional_key : Text
additional_key = codes "additionalProperties"

abbrev pub one_of_key : Text
one_of_key = codes "oneOf"

abbrev pub preserve_key : Text
preserve_key = codes "x-kubernetes-preserve-unknown-fields"

abbrev pub int_or_string_key : Text
int_or_string_key = codes "x-kubernetes-int-or-string"

-- `key.startswith("x-kubernetes-")`
unfoldable pub is_extension : Text → Bool
unfolding starts_with
is_extension key = starts_with (codes "x-kubernetes-") key

-- What the branches of the loop take a key's value for.
pub data Role : Type 0 where
  properties schema schemas plain : Role

unfoldable pub role_of : Text → Role
unfolding equal contains
role_of key =
    if equal key properties_key
    then properties
    else if contains key (codes "items" ∷ additional_key ∷ codes "not" ∷ [])
    then schema
    else if contains key (codes "allOf" ∷ codes "anyOf" ∷ one_of_key ∷ [])
    then schemas
    else plain

-- `out[key] = value` for a key of the node, whose keys are distinct; an extension is skipped.
unfoldable pub add_key : Text → Value → Fields → Fields
unfolding is_extension
add_key key v out = if is_extension key then out else field key v out

-- `[{"type": "string"}, {"type": "integer"}]`
abbrev pub int_or_string : Value
int_or_string = list (
    cons (dict (field type_key (string (codes "string")) end))
      (cons (dict (field type_key (string (codes "integer")) end)) nil))

unfoldable pub open_type : Fields → Fields → Fields
unfolding flag put remove
open_type node out =
    if flag int_or_string_key node then put one_of_key int_or_string (remove type_key out) else out

-- `value == "object"`
unfoldable pub says_object : Option Value → Bool
unfolding equal
says_object (some (string t)) = equal t (codes "object")
says_object _ = false

-- `out.get("type") == "object"`
unfoldable pub is_object : Fields → Bool
unfolding get says_object
is_object out = says_object (get type_key out)

unfoldable pub must_close : Fields → Fields → Bool
unfolding is_object has flag
must_close node out =
    is_object out
    && (has properties_key out && (not (has additional_key out) && not (flag preserve_key node)))

unfoldable pub close : Fields → Fields → Fields
unfolding must_close put
close node out = if must_close node out then put additional_key (boolean false) out else out

-- The statements after the loop.
unfoldable pub finish : Fields → Fields → Fields
unfolding open_type close
finish node out = close node (open_type node out)

unfoldable mutual
  unfolding finish add_key role_of

  pub to_json_schema : Value → Value
  to_json_schema (dict node) = dict (finish node (converted node))
  to_json_schema (list vs) = list (to_json_schemas vs)
  to_json_schema null = null
  to_json_schema (boolean b) = boolean b
  to_json_schema (integer s n) = integer s n
  to_json_schema (other b t) = other b t
  to_json_schema (string t) = string t

  pub to_json_schemas : Items → Items
  to_json_schemas nil = nil
  to_json_schemas (cons v vs) = cons (to_json_schema v) (to_json_schemas vs)

  pub converted : Fields → Fields
  converted end = end
  converted (field key v node) = add_key key (branch (role_of key) v) (converted node)

  pub branch : Role → Value → Value
  branch properties (dict ps) = dict (each_property ps)
  branch schema (dict node) = dict (finish node (converted node))
  branch schemas (list vs) = list (to_json_schemas vs)
  branch _ v = v

  pub each_property : Fields → Fields
  each_property end = end
  each_property (field name sub ps) = field name (to_json_schema sub) (each_property ps)
