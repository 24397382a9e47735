-- ===== src/Tests/Documents.antt =====
-- Runs of `get_path` and `set_path` of hack/render-composition.py, and the theorems about them.
use jenkins_to_actions_migra.Prelude.{◌≡◌, refl, List, [], ◌∷◌, false, codes, equal, Text}
use jenkins_to_actions_migra.Python.{raises, ok, err}
use jenkins_to_actions_migra.Value.{
  Value, null, string, dict, list, end, nil, fields_of, items_of, number,
}
use jenkins_to_actions_migra.Composition.{Seg, key, index, get_path, set_path, empty_for}
use jenkins_to_actions_migra.Composition.Paths.{get_path-set_path, set_path-total}
use jenkins_to_actions_migra.Composition.Apart.{get_path-set_path_apart}

abbrev spec : Text
spec = codes "spec"

abbrev containers : Text
containers = codes "containers"

abbrev image : Text
image = codes "image"

abbrev name : Text
name = codes "name"

-- `{"spec": {"name": "web"}}`
abbrev before : Value
before = dict (fields_of ((spec, dict (fields_of ((name, string (codes "web")) ∷ []))) ∷ []))

-- `containers[1].image`
abbrev below : List Seg
below = index 1 ∷ key image ∷ []

-- What is missing is made, the items before the index with it.
abbrev after : Value
after = dict (
    fields_of (
      (
        spec,
        dict (
            fields_of (
              (name, string (codes "web"))
              ∷ (
                containers,
                list (
                    items_of
                      (dict end ∷ dict (fields_of ((image, string (codes "v2")) ∷ [])) ∷ [])),
              )
              ∷ [])),
      )
      ∷ []))

written : set_path before (key spec ∷ key containers ∷ below) (string (codes "v2")) ≡ ok after
unfolding set_path equal
written = refl

-- A list taken for a dict is an exception.
refused : set_path (list nil) (key spec ∷ []) null ≡ err raises
unfolding set_path
refused = refl

get_path-set_path_example : get_path after (key spec ∷ key containers ∷ below) ≡ string (codes "v2")
get_path-set_path_example =
    get_path-set_path before (key spec) (key containers ∷ below) (string (codes "v2")) after written

set_path-total_example :
    (out : Value) × ((set_path (dict end) (key spec ∷ below) (number 3) ≡ ok out)
      × (get_path out (key spec ∷ below) ≡ number 3))
unfolding empty_for
set_path-total_example = set_path-total (key spec) below (number 3)

differ : equal name containers ≡ false
unfolding equal
differ = refl

get_path-set_path_apart_example :
    get_path after (key spec ∷ key name ∷ []) ≡ get_path before (key spec ∷ key name ∷ [])
get_path-set_path_apart_example =
    get_path-set_path_apart name containers differ (key spec ∷ []) below [] before
      (string (codes "v2")) after written
