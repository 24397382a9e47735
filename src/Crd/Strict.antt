-- ===== src/Crd/Strict.antt =====
-- hack/crd-schemas.py: which schemas `to_json_schema` closes against unknown keys, and what it keeps.
use mathlib.Core.Option
use jenkins_to_actions_migra.Prelude.{
  true, false, not, ◌&&◌, ◌||◌, ◌≡◌, refl, sym, ap, ◌∙◌, inl, inr, Text, equal, equal_iff, Option,
  none, some, Bool-cases, arith,
}
use jenkins_to_actions_migra.Value.{Value, boolean, dict, Fields, end, field}
use jenkins_to_actions_migra.Value.Dict.{get, present, has, remove, flag}
use jenkins_to_actions_migra.Value.Dict.Laws.{get-put, get-put_other, get-remove_other}
use jenkins_to_actions_migra.Crd.{
  properties, role_of, is_extension, add_key, one_of_key, type_key, additional_key, properties_key,
  preserve_key, int_or_string_key, int_or_string, open_type, says_object, is_object, must_close,
  close, finish, to_json_schema, converted, branch, each_property,
}

is_extension-equal :
    (k key : Text) → equal k key ≡ true → is_extension k ≡ false → is_extension key ≡ false
is_extension-equal k key h e = rw (sym ((equal_iff k key).0 h)) e

role-equal : (k key : Text) → equal k key ≡ true → role_of key ≡ role_of k
role-equal k key h = rw ((equal_iff k key).0 h) refl

present-map : (f : Value → Value) (o : Option Value) → present (Option.map f o) ≡ present o
present-map f none = refl
present-map f (some v) = refl

-- The loop converts the value of every key that is no extension.
get-converted :
    (k : Text) (node : Fields)
    → is_extension k ≡ false
    → get k (converted node) ≡ Option.map (branch (role_of k)) (get k node)
unfolding get to_json_schema add_key
get-converted k end e = refl
get-converted k (field key v node) e = elim (Bool-cases (equal k key)) [
  | inl h ↦
      rw (h, is_extension-equal k key h e, h) (ap (λ r. some (branch r v)) (role-equal k key h))
  | inr h ↦ elim (Bool-cases (is_extension key)) [
    | inl x ↦ rw (h, x) (get-converted k node e)
    | inr x ↦ rw (h, x) (rw h (get-converted k node e))
  ]
]

get-open_type :
    (k : Text) (node out : Fields)
    → equal k one_of_key ≡ false
    → equal k type_key ≡ false
    → get k (open_type node out) ≡ get k out
unfolding open_type
get-open_type k node out a b = elim (Bool-cases (flag int_or_string_key node)) [
  | inl h ↦ rw h (
      get-put_other k one_of_key a int_or_string (remove type_key out)
      ∙ get-remove_other k type_key b out)
  | inr h ↦ rw h refl
]

get-close :
    (k : Text) (node out : Fields)
    → equal k additional_key ≡ false
    → get k (close node out) ≡ get k out
unfolding close
get-close k node out a = elim (Bool-cases (must_close node out)) [
  | inl h ↦ rw h (get-put_other k additional_key a (boolean false) out)
  | inr h ↦ rw h refl
]

has-close :
    (node out : Fields)
    → has additional_key (close node out) ≡ (has additional_key out || must_close node out)
unfolding close has
has-close node out = elim (Bool-cases (must_close node out)) [
  | inl h ↦ rw h (ap present (get-put additional_key (boolean false) out) ∙ ground arith)
  | inr h ↦ rw h (ground arith)
]

-- Conversion keeps the presence of a key that is read after the loop.
has-open_type :
    (k : Text) (node : Fields)
    → is_extension k ≡ false
    → equal k one_of_key ≡ false
    → equal k type_key ≡ false
    → has k (open_type node (converted node)) ≡ has k node
unfolding has
has-open_type k node e a b =
    ap present (get-open_type k node (converted node) a b ∙ get-converted k node e)
    ∙ present-map (branch (role_of k)) (get k node)

is_object-close : (node out : Fields) → is_object (close node out) ≡ is_object out
unfolding is_object
is_object-close node out = ap says_object (get-close type_key node out refl)

-- The entries of a dict.
entries : Value → Fields
entries (dict d) = d
entries _ = end

-- The result for a node that is a dict.
result :
    (node out : Fields) → to_json_schema (dict node) ≡ dict out → finish node (converted node) ≡ out
unfolding to_json_schema entries
result node out e = ap entries e

closes :
    (node : Fields)
    → (has additional_key (open_type node (converted node))
        || must_close node (open_type node (converted node)))
      ≡ (has additional_key node
          || is_object (open_type node (converted node))
            && (has properties_key node && not (flag preserve_key node)))
unfolding must_close is_extension
closes node =
    rw
      (
        has-open_type additional_key node refl refl refl,
        has-open_type properties_key node refl refl refl,
      )
      (ground arith)

additional-finish :
    (node : Fields)
    → has additional_key (finish node (converted node)) ≡ (
        has additional_key node
        || is_object (finish node (converted node))
          && (has properties_key node && not (flag preserve_key node)))
unfolding finish
additional-finish node =
    rw (is_object-close node (open_type node (converted node)))
      (has-close node (open_type node (converted node)) ∙ closes node)

-- `additionalProperties` stands in a result exactly when it stands in the node, or the result is of
-- type object, the node has properties, and the node does not preserve unknown fields.
pub additional_lem :
    (node out : Fields)
    → to_json_schema (dict node) ≡ dict out
    → has additional_key out ≡ (
        has additional_key node
        || is_object out && (has properties_key node && not (flag preserve_key node)))
additional_lem node out e = rw (sym (result node out e)) (additional-finish node)

get-each_property :
    (name : Text) (ps : Fields)
    → get name (each_property ps) ≡ Option.map to_json_schema (get name ps)
unfolding get to_json_schema
get-each_property name end = refl
get-each_property name (field k v ps) = elim (Bool-cases (equal name k)) [
  | inl h ↦ rw h refl
  | inr h ↦ rw h (get-each_property name ps)
]

get-finish :
    (node : Fields)
    → get properties_key (finish node (converted node))
      ≡ Option.map (branch properties) (get properties_key node)
unfolding finish role_of is_extension
get-finish node =
    get-close properties_key node (open_type node (converted node)) refl
    ∙ get-open_type properties_key node (converted node) refl refl
    ∙ get-converted properties_key node refl

-- Where a node has a dict of properties, the result has one too, and for every name, `properties`
-- and the keys that begin with `x-kubernetes-` included, it holds what `to_json_schema` makes of
-- the schema of that name, and nothing where there is none.
pub properties_lem :
    (node out ps : Fields)
    → to_json_schema (dict node) ≡ dict out
    → get properties_key node ≡ some (dict ps)
    → (qs : Fields) × ((get properties_key out ≡ some (dict qs))
        × ((name : Text) → get name qs ≡ Option.map to_json_schema (get name ps)))
unfolding to_json_schema
properties_lem node out ps e h = (
  each_property ps,
  (rw (sym (result node out e), get-finish node, h) refl, λ name. get-each_property name ps),
)
