-- ===== src/Crd/Clean.antt =====
-- hack/crd-schemas.py: no Kubernetes extension is left in the schema that `to_json_schema` returns.
use jenkins_to_actions_migra.Prelude.{
  false, ◌≡◌, refl, inl, inr, Text, equal, equal_iff, sym, Bool-cases,
}
use jenkins_to_actions_migra.Value.{
  Value, null, boolean, integer, other, string, list, dict, Items, nil, cons, Fields, end, field,
}
use jenkins_to_actions_migra.Value.Dict.{put, remove, flag}
use jenkins_to_actions_migra.Crd.{
  Role, properties, schema, schemas, role_of, is_extension, add_key, one_of_key, type_key,
  additional_key, int_or_string_key, int_or_string, open_type, must_close, close, finish,
  to_json_schema, to_json_schemas, converted, branch, each_property,
}

-- At every place where a schema may stand in a schema, no key begins with `x-kubernetes-`.
unfoldable mutual
  unfolding is_extension role_of

  pub NoExtensions : Value → Type 0
  NoExtensions (dict node) = CleanNode node
  NoExtensions (list vs) = CleanItems vs
  NoExtensions null = Unit
  NoExtensions (boolean b) = Unit
  NoExtensions (integer s n) = Unit
  NoExtensions (other b t) = Unit
  NoExtensions (string t) = Unit

  pub CleanItems : Items → Type 0
  CleanItems nil = Unit
  CleanItems (cons v vs) = NoExtensions v × CleanItems vs

  pub CleanNode : Fields → Type 0
  CleanNode end = Unit
  CleanNode (field key v node) =
      (is_extension key ≡ false) × (CleanAt (role_of key) v × CleanNode node)

  pub CleanAt : Role → Value → Type 0
  CleanAt properties (dict ps) = CleanProperties ps
  CleanAt schema (dict node) = CleanNode node
  CleanAt schemas (list vs) = CleanItems vs
  CleanAt _ v = Unit

  pub CleanProperties : Fields → Type 0
  CleanProperties end = Unit
  CleanProperties (field name sub ps) = NoExtensions sub × CleanProperties ps

-- Equal keys have one role.
pub key-CleanAt :
    (key k : Text) (v : Value) → key ≡ k → CleanAt (role_of key) v → CleanAt (role_of k) v
key-CleanAt key k v e c = rw (sym e) c

pub put-CleanNode :
    (key : Text) (v : Value) (node : Fields)
    → is_extension key ≡ false
    → CleanAt (role_of key) v
    → CleanNode node
    → CleanNode (put key v node)
unfolding put NoExtensions equal
put-CleanNode key v end e c n = (e, (c, n))
put-CleanNode key v (field k w node) e c n = elim (Bool-cases (equal key k)) [
  | inl h ↦ rw h (n.0, (key-CleanAt key k v ((equal_iff key k).0 h) c, n.1.1))
  | inr h ↦ rw h (n.0, (n.1.0, put-CleanNode key v node e c n.1.1))
]

remove-CleanNode : (key : Text) (node : Fields) → CleanNode node → CleanNode (remove key node)
unfolding remove NoExtensions equal
remove-CleanNode key end n = n
remove-CleanNode key (field k w node) n = elim (Bool-cases (equal key k)) [
  | inl h ↦ rw h n.1.1
  | inr h ↦ rw h (n.0, (n.1.0, remove-CleanNode key node n.1.1))
]

open_type-CleanNode : (node out : Fields) → CleanNode out → CleanNode (open_type node out)
unfolding open_type NoExtensions role_of is_extension
open_type-CleanNode node out c = elim (Bool-cases (flag int_or_string_key node)) [
  | inl h ↦ rw h (
      put-CleanNode one_of_key int_or_string (remove type_key out) refl
        ((refl, (tt, tt)), ((refl, (tt, tt)), tt)) (remove-CleanNode type_key out c))
  | inr h ↦ rw h c
]

finish-CleanNode : (node out : Fields) → CleanNode out → CleanNode (finish node out)
unfolding finish close NoExtensions role_of is_extension
finish-CleanNode node out c = elim (Bool-cases (must_close node (open_type node out))) [
  | inl h ↦ rw h (
      put-CleanNode additional_key (boolean false) (open_type node out) refl tt
        (open_type-CleanNode node out c))
  | inr h ↦ rw h (open_type-CleanNode node out c)
]

add_key-CleanNode :
    (key : Text) (v : Value) (out : Fields)
    → CleanAt (role_of key) v
    → CleanNode out
    → CleanNode (add_key key v out)
unfolding add_key NoExtensions
add_key-CleanNode key v out a c = elim (Bool-cases (is_extension key)) [
  | inl h ↦ rw h c
  | inr h ↦ rw h (h, (a, c))
]

mutual
  unfolding to_json_schema NoExtensions

  clean_schema : (v : Value) → NoExtensions (to_json_schema v)
  clean_schema (dict node) = finish-CleanNode node (converted node) (clean_node node)
  clean_schema (list vs) = clean_items vs
  clean_schema null = tt
  clean_schema (boolean b) = tt
  clean_schema (integer s n) = tt
  clean_schema (other b t) = tt
  clean_schema (string t) = tt

  clean_items : (vs : Items) → CleanItems (to_json_schemas vs)
  clean_items nil = tt
  clean_items (cons v vs) = (clean_schema v, clean_items vs)

  clean_node : (node : Fields) → CleanNode (converted node)
  clean_node end = tt
  clean_node (field key v node) =
      add_key-CleanNode key (branch (role_of key) v) (converted node) (clean_branch (role_of key) v)
        (clean_node node)

  clean_branch : (r : Role) (v : Value) → CleanAt r (branch r v)
  clean_branch properties (dict ps) = clean_properties ps
  clean_branch schema (dict node) = finish-CleanNode node (converted node) (clean_node node)
  clean_branch schemas (list vs) = clean_items vs
  clean_branch _ v = tt

  clean_properties : (ps : Fields) → CleanProperties (each_property ps)
  clean_properties end = tt
  clean_properties (field name sub ps) = (clean_schema sub, clean_properties ps)

-- In the result of `to_json_schema`, at every place where a schema may stand, no key begins with
-- `x-kubernetes-`.
pub to_json_schema-NoExtensions : (v : Value) → NoExtensions (to_json_schema v)
to_json_schema-NoExtensions v = clean_schema v
