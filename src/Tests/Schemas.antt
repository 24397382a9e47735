-- ===== src/Tests/Schemas.antt =====
-- Runs of `to_json_schema` of hack/crd-schemas.py, and the theorems about it at a concrete schema.
use mathlib.Core.Option
use jenkins_to_actions_migra.Prelude.{
  true, not, ◌&&◌, ◌||◌, ◌≡◌, refl, [], ◌∷◌, some, Text, codes, equal,
}
use jenkins_to_actions_migra.Value.{Value, boolean, string, dict, Fields, end, fields_of}
use jenkins_to_actions_migra.Value.Dict.{get, has, flag}
use jenkins_to_actions_migra.Crd.{
  additional_key, properties_key, preserve_key, is_object, to_json_schema,
}
use jenkins_to_actions_migra.Crd.Clean.{NoExtensions, to_json_schema-NoExtensions}
use jenkins_to_actions_migra.Crd.Strict.{additional_lem, properties_lem}

abbrev port : Value
port = dict (
    fields_of (
      (codes "x-kubernetes-int-or-string", boolean true)
      ∷ (codes "type", string (codes "object"))
      ∷ []))

-- Two properties, one of them literally named "properties".
abbrev params : Fields
params = fields_of (
    (codes "properties", dict (fields_of ((codes "type", string (codes "object")) ∷ [])))
    ∷ (codes "port", port)
    ∷ [])

abbrev spec : Fields
spec = fields_of (
    (codes "type", string (codes "object"))
    ∷ (codes "x-kubernetes-group-version-kind", string (codes "v1"))
    ∷ (codes "properties", dict params)
    ∷ [])

abbrev out_of : Value → Fields
out_of (dict d) = d
out_of _ = end

abbrev out : Fields
unfolding to_json_schema
out = out_of (to_json_schema (dict spec))

out_runs : to_json_schema (dict spec) ≡ dict out
unfolding to_json_schema
out_runs = refl

to_json_schema-NoExtensions_example : NoExtensions (to_json_schema (dict spec))
to_json_schema-NoExtensions_example = to_json_schema-NoExtensions (dict spec)

additional_lem_example : has additional_key out ≡ (
    has additional_key spec
    || is_object out && (has properties_key spec && not (flag preserve_key spec)))
additional_lem_example = additional_lem spec out out_runs

has_properties : get properties_key spec ≡ some (dict params)
unfolding get equal
has_properties = refl

properties_lem_example :
    (qs : Fields) × ((get properties_key out ≡ some (dict qs))
      × ((name : Text) → get name qs ≡ Option.map to_json_schema (get name params)))
properties_lem_example = properties_lem spec out params out_runs has_properties

-- The result is closed.
closed : has additional_key out ≡ true
unfolding to_json_schema has
closed = refl
