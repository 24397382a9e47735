-- ===== src/Python/Access.antt =====
-- Operations of Python on the values of documents: subscripts, `get`, iteration, `str`.
use jenkins_to_actions_migra.Prelude.{
  Bool, true, false, Text, codes, equal, show, List, [], ◌∷◌, map, Option, none, some,
  if◌then◌else◌,
}
use jenkins_to_actions_migra.Python.{raises, unmodelled, Result, ok, err, ◌>>=◌, or_raise}
use jenkins_to_actions_migra.Value.{
  Value, null, boolean, integer, other, string, list, dict, Items, nil, cons, Fields, end, field,
}
use jenkins_to_actions_migra.Value.Dict.{get, truthy}

-- `v[k]` for a text `k`
unfoldable pub subscript : Value → Text → Result Value
unfolding get
subscript (dict d) k = or_raise (get k d)
subscript _ k = err raises

-- `v.get(k)`, with `none` for a key that is missing.
unfoldable pub entry : Value → Text → Result (Option Value)
unfolding get
entry (dict d) k = ok (get k d)
entry _ k = err raises

abbrev pub or_else : Value → Option Value → Value
or_else w none = w
or_else w (some v) = v

-- `v.get(k, w)`
unfoldable pub entry_or : Value → Text → Value → Result Value
unfolding entry
entry_or v k w = do o ← entry v k; ok (or_else w o)

-- `v or w`
unfoldable pub or_value : Value → Value → Value
unfolding truthy
or_value v w = if truthy v then v else w

abbrev pub values_of : Items → List Value
values_of nil = []
values_of (cons v vs) = v ∷ values_of vs

abbrev pub keys_of : Fields → List Value
keys_of end = []
keys_of (field k v d) = string k ∷ keys_of d

-- The values that `for x in v` takes.
unfoldable pub iterate : Value → Result (List Value)
iterate (list vs) = ok (values_of vs)
iterate (dict d) = ok (keys_of d)
iterate (string t) = ok (map (λ c. string (c ∷ [])) t)
iterate _ = err raises

-- `v == t` for a text `t`
unfoldable pub is_text : Value → Text → Bool
unfolding equal
is_text (string s) t = equal s t
is_text _ t = false

-- A value that is used as a text; any other raises.
unfoldable pub text_of : Value → Result Text
text_of (string t) = ok t
text_of _ = err raises

-- A text that is used as a key of a dict. Keys that are not texts are left out of the model.
unfoldable pub key_of : Value → Result Text
key_of (string t) = ok t
key_of (list vs) = err raises
key_of (dict d) = err raises
key_of _ = err unmodelled

abbrev pub is_container : Value → Bool
is_container (list vs) = true
is_container (dict d) = true
is_container _ = false

-- `str(v)`; `repr` is the text of a list or a dict.
unfoldable pub str : (Value → Text) → Value → Text
unfolding show
str repr null = codes "None"
str repr (boolean true) = codes "True"
str repr (boolean false) = codes "False"
str repr (integer true n) = b'-' ∷ show n
str repr (integer false n) = show n
str repr (other b t) = t
str repr (string t) = t
str repr (list vs) = repr (list vs)
str repr (dict d) = repr (dict d)
