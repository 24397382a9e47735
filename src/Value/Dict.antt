-- ===== src/Value/Dict.antt =====
-- Operations of Python's `dict` on documents: `get`, `in`, item assignment, `pop`, and the truth of
-- a value.
pub mod Laws
use jenkins_to_actions_migra.Prelude.{
  ℕ, zero, suc, Bool, true, false, not, Text, equal, Option, none, some, if◌then◌else◌, ◌==◌, [],
  ◌∷◌,
}
use jenkins_to_actions_migra.Value.{
  Value, null, boolean, integer, other, string, list, dict, nil, cons, Fields, end, field,
}

-- `d.get(k)`, with `none` for a key that is missing.
unfoldable pub get : Text → Fields → Option Value
get k end = none
get k (field k' v fs) = let rest = get k fs in if equal k k' then some v else rest

abbrev pub present : Option Value → Bool
present none = false
present (some v) = true

-- `k in d`
unfoldable pub has : Text → Fields → Bool
unfolding get
has k d = present (get k d)

-- `d[k] = v`: a key that is there keeps its place, a new one stands last.
unfoldable pub put : Text → Value → Fields → Fields
put k v end = field k v end
put k v (field k' v' fs) =
    let rest = put k v fs in if equal k k' then field k' v fs else field k' v' rest

-- `len(d)`
unfoldable pub size : Fields → ℕ
size end = 0
size (field k v d) = suc (size d)

-- `d.pop(k, None)`
unfoldable pub remove : Text → Fields → Fields
remove k end = end
remove k (field k' v fs) = let rest = remove k fs in if equal k k' then fs else field k' v rest

-- `bool(v)`
unfoldable pub truthy : Value → Bool
truthy null = false
truthy (boolean b) = b
truthy (integer s n) = not (n == 0)
truthy (other b t) = b
truthy (string []) = false
truthy (string (c ∷ t)) = true
truthy (list nil) = false
truthy (list (cons v vs)) = true
truthy (dict end) = false
truthy (dict (field k v fs)) = true

-- `bool(d.get(k, False))`
unfoldable pub flag : Text → Fields → Bool
unfolding get truthy
flag k fs = elim (get k fs) [ none ↦ false | some v ↦ truthy v ]
