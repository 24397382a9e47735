-- ===== src/Crd/Files/Laws.antt =====
-- hack/crd-schemas.py: what holds of every file that `main` writes.
use jenkins_to_actions_migra.Prelude.{
  ◌≡◌, refl, sym, inl, inr, Bool, true, false, Bool-cases, Text, codes, equal, equal_iff, some,
  some_inj, if◌then◌else◌,
}
use jenkins_to_actions_migra.Python.{ok, >>=-eq-ok, ok_inj, or_raise-eq-ok}
use jenkins_to_actions_migra.Python.Access.{subscript}
use jenkins_to_actions_migra.Value.{
  Value, null, boolean, integer, other, string, list, dict, Fields, end, field,
}
use jenkins_to_actions_migra.Value.Dict.{get, put}
use jenkins_to_actions_migra.Crd.{Role, role_of, is_extension, to_json_schema, properties_key}
use jenkins_to_actions_migra.Crd.Clean.{
  NoExtensions, CleanNode, CleanAt, CleanProperties, put-CleanNode, key-CleanAt,
  to_json_schema-NoExtensions,
}
use jenkins_to_actions_migra.Crd.Files.{
  any_object, metadata_key, has_metadata, set_entry, open_metadata, schema_document,
}

get-CleanNode :
    (k : Text) (v : Value) (node : Fields)
    → CleanNode node
    → get k node ≡ some v
    → CleanAt (role_of k) v
unfolding get NoExtensions
get-CleanNode k v end c h = cc
get-CleanNode k v (field j w node) c h = elim (Bool-cases (equal k j)) [
  | inl e ↦ rw (← some_inj (rw e at h)) (key-CleanAt j k w (sym ((equal_iff k j).0 e)) c.1.0)
  | inr e ↦ get-CleanNode k v node c.1.1 (rw e at h)
]

put-CleanProperties :
    (k : Text) (v : Value) (ps : Fields)
    → NoExtensions v
    → CleanProperties ps
    → CleanProperties (put k v ps)
unfolding put NoExtensions
put-CleanProperties k v end n c = (n, tt)
put-CleanProperties k v (field j w ps) n c = elim (Bool-cases (equal k j)) [
  | inl e ↦ rw e (n, c.1)
  | inr e ↦ rw e (c.0, put-CleanProperties k v ps n c.1)
]

set_entry-NoExtensions :
    (k : Text) (w js out : Value)
    → is_extension k ≡ false
    → CleanAt (role_of k) w
    → NoExtensions js
    → set_entry js k w ≡ ok out
    → NoExtensions out
unfolding set_entry NoExtensions
set_entry-NoExtensions k w (dict d) out x a n h = rw (← ok_inj h) (put-CleanNode k w d x a n)
set_entry-NoExtensions k w (list vs) out x a n h = cc
set_entry-NoExtensions k w null out x a n h = cc
set_entry-NoExtensions k w (boolean b) out x a n h = cc
set_entry-NoExtensions k w (integer b i) out x a n h = cc
set_entry-NoExtensions k w (other b t) out x a n h = cc
set_entry-NoExtensions k w (string t) out x a n h = cc

-- The properties of a schema with an open schema for the metadata.
opened-CleanAt :
    (properties opened : Value)
    → CleanAt Role.properties properties
    → set_entry properties metadata_key any_object ≡ ok opened
    → CleanAt Role.properties opened
unfolding set_entry NoExtensions
opened-CleanAt (dict ps) opened c h =
    rw (← ok_inj h) (put-CleanProperties metadata_key any_object ps ((refl, (tt, tt))) c)
opened-CleanAt (list vs) opened c h = cc
opened-CleanAt null opened c h = cc
opened-CleanAt (boolean b) opened c h = cc
opened-CleanAt (integer b i) opened c h = cc
opened-CleanAt (other b t) opened c h = cc
opened-CleanAt (string t) opened c h = cc

subscript-CleanAt :
    (js v : Value) (k : Text) → NoExtensions js → subscript js k ≡ ok v → CleanAt (role_of k) v
unfolding subscript NoExtensions
subscript-CleanAt (dict d) v k n h = get-CleanNode k v d n (or_raise-eq-ok (get k d) h)
subscript-CleanAt (list vs) v k n h = cc
subscript-CleanAt null v k n h = cc
subscript-CleanAt (boolean b) v k n h = cc
subscript-CleanAt (integer b i) v k n h = cc
subscript-CleanAt (other b t) v k n h = cc
subscript-CleanAt (string t) v k n h = cc

open_metadata-NoExtensions :
    (js out : Value) → NoExtensions js → open_metadata js ≡ ok out → NoExtensions out
unfolding open_metadata is_extension role_of
open_metadata-NoExtensions js out n h =
    let (ps, e, h') = >>=-eq-ok (subscript js properties_key) _ h in
    let (opened, e', h'') = >>=-eq-ok (set_entry ps metadata_key any_object) _ h' in
    set_entry-NoExtensions properties_key opened js out refl
      (opened-CleanAt ps opened (subscript-CleanAt js ps properties_key n e) e') n h''

pub schema_document-NoExtensions :
    (schema out : Value) → schema_document schema ≡ ok out → NoExtensions out
unfolding schema_document is_extension role_of CleanAt
schema_document-NoExtensions schema out h =
    let (described, e, h') = >>=-eq-ok (has_metadata (to_json_schema schema)) _ h in
    let (js, e', h'') =
      >>=-eq-ok
        (if described then open_metadata (to_json_schema schema) else ok (to_json_schema schema)) _
        h' in
    set_entry-NoExtensions (codes "$schema") _ js out refl tt (opened described js e') h''
  where
    opened :
        (b : Bool) (js : Value)
        → (if b then open_metadata (to_json_schema schema) else ok (to_json_schema schema)) ≡ ok js
        → NoExtensions js
    opened true js e = open_metadata-NoExtensions _ js (to_json_schema-NoExtensions schema) e
    opened false js e = rw (← ok_inj e) (to_json_schema-NoExtensions schema)
