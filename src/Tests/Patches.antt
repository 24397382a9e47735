-- ===== src/Tests/Patches.antt =====
-- Runs of hack/render-composition.py from the patches on, and the theorems about them.
use jenkins_to_actions_migra.Prelude.{
  ℕ, ◌≡◌, ◌≢◌, refl, sym, ◌∙◌, List, [], ◌∷◌, some, true, codes, equal, Text, arith,
}
use jenkins_to_actions_migra.Python.{ok, err, raises, exits, unmodelled, too_deep}
use jenkins_to_actions_migra.Value.{
  Value, boolean, string, dict, list, Fields, end, field, nil, cons, fields_of, items_of,
}
use jenkins_to_actions_migra.Value.Dict.{get}
use jenkins_to_actions_migra.Python.Access.{subscript}
use jenkins_to_actions_migra.Tests.Reload.{reloaded}
use jenkins_to_actions_migra.Composition.Segments.{segments}
use jenkins_to_actions_migra.Composition.Patches.{
  apply_patches, named_set, patch_type, items_or_none,
}
use jenkins_to_actions_migra.Composition.Patches.Rank.{
  NamesBelow, Ranked, apply_patches-ends, apply_patches-circle,
}
use jenkins_to_actions_migra.Composition.Patches.Keeps.{Each-of, get_one}
use jenkins_to_actions_migra.Composition.Pipeline.{Yaml, resource_object}
use jenkins_to_actions_migra.Tests.{ascii}

abbrev pub text : Text → Value
text t = string t

abbrev pub entries : List (Text × Value) → Value
entries ps = dict (fields_of ps)

abbrev pub sequence : List Value → Value
sequence vs = list (items_of vs)

-- Lists and dicts are shown by a placeholder.
abbrev pub repr : Value → Text
repr v = codes "…"

abbrev pub region_patch : Value
region_patch = entries (
    (codes "type", text (codes "FromCompositeFieldPath"))
    ∷ (codes "fromFieldPath", text (codes "spec.parameters.region"))
    ∷ (codes "toFieldPath", text (codes "spec.forProvider.region"))
    ∷ [])

abbrev pub sets : Fields
sets = field (codes "region") (sequence (region_patch ∷ [])) end

abbrev pub use_region : Value
use_region =
    entries
      ((codes "type", text (codes "PatchSet")) ∷ (codes "patchSetName", text (codes "region")) ∷ [])

-- A boolean is looked up in the map by its name in lower case.
abbrev pub status_patch : Value
status_patch = entries (
    (codes "fromFieldPath", text (codes "spec.parameters.versioning"))
    ∷ (codes "toFieldPath", text (codes "spec.forProvider.rules[0].status"))
    ∷ (
      codes "transforms",
      sequence (
          entries (
            (codes "type", text (codes "map"))
            ∷ (codes "map", entries ((codes "true", text (codes "Enabled")) ∷ []))
            ∷ [])
          ∷ []),
    )
    ∷ [])

abbrev pub xr : Value
xr = entries (
    (codes "metadata", entries ((codes "name", text (codes "logs")) ∷ []))
    ∷ (
      codes "spec",
      entries (
          (
            codes "parameters",
            entries ((codes "region", text (codes "eu")) ∷ (codes "versioning", boolean true) ∷ []),
          )
          ∷ []),
    )
    ∷ [])

abbrev pub base : Value
base =
    entries ((codes "kind", text (codes "Bucket")) ∷ (codes "apiVersion", text (codes "v1")) ∷ [])

abbrev pub patches : Value
patches = sequence (use_region ∷ status_patch ∷ [])

abbrev pub resource : Value
resource =
    entries (
      (codes "name", text (codes "bucket"))
      ∷ (codes "base", base)
      ∷ (codes "patches", patches)
      ∷ [])

abbrev pub yaml : Yaml
yaml = record { read = λ t. err raises; reload = λ v. ok (reloaded v); dump_all = λ vs. [] }

abbrev pub object : Value
object = entries (
    (codes "apiVersion", text (codes "v1"))
    ∷ (codes "kind", text (codes "Bucket"))
    ∷ (codes "metadata", entries ((codes "name", text (codes "logs-bucket")) ∷ []))
    ∷ (
      codes "spec",
      entries (
          (
            codes "forProvider",
            entries (
                (codes "region", text (codes "eu"))
                ∷ (
                  codes "rules",
                  sequence (entries ((codes "status", text (codes "Enabled")) ∷ []) ∷ []),
                )
                ∷ []),
          )
          ∷ []),
    )
    ∷ [])

abbrev pub patched_base : Value
patched_base = entries (
    (codes "kind", text (codes "Bucket"))
    ∷ (codes "apiVersion", text (codes "v1"))
    ∷ (
      codes "spec",
      entries (
          (
            codes "forProvider",
            entries (
                (codes "region", text (codes "eu"))
                ∷ (
                  codes "rules",
                  sequence (entries ((codes "status", text (codes "Enabled")) ∷ []) ∷ []),
                )
                ∷ []),
          )
          ∷ []),
    )
    ∷ [])

-- A resource with a patch set, and a patch with a transform.
pub composes : resource_object yaml repr 2 xr sets resource ≡ ok object
unfolding resource_object segments equal reloaded
composes = refl

-- An unknown type of patch ends the program.
unknown_type :
    apply_patches repr 1 xr sets
      (some (sequence (entries ((codes "type", text (codes "X")) ∷ []) ∷ [])))
      base
    ≡ err exits
unfolding apply_patches equal
unknown_type = refl

-- A dict that would be shared with the XR leaves the model.
shared :
    apply_patches repr 1 xr sets
      (some (
        sequence (
          entries (
            (codes "fromFieldPath", text (codes "spec.parameters"))
            ∷ (codes "toFieldPath", text (codes "spec"))
            ∷ [])
          ∷ [])))
      base
    ≡ err unmodelled
unfolding apply_patches segments equal
shared = refl

pub region_items : items_or_none (some (sequence (region_patch ∷ []))) ≡ ok (region_patch ∷ [])
unfolding items_or_none
region_items = refl

pub patch_items : items_or_none (some patches) ≡ ok (use_region ∷ status_patch ∷ [])
unfolding items_or_none
patch_items = refl

-- The set has rank 0 and names none; the resource names the set.
rank : Text → ℕ
rank k = 0

no_set_name : subscript region_patch (codes "patchSetName") ≡ err raises
unfolding subscript equal
no_set_name = refl

sets_below : Ranked rank sets
unfolding subscript get
sets_below k set found =
    let same = get_one k _ _ set found in
    rw same (
      Each-of _ (some (sequence (region_patch ∷ []))) (region_patch ∷ []) region_items
        ((λ j e. let clash = sym no_set_name ∙ e in ground arith), tt))

names_below : NamesBelow rank 1 (some patches)
unfolding rank
names_below =
    Each-of _ (some patches) (use_region ∷ status_patch ∷ []) patch_items
      ((λ k e. omega arith), ((λ k e. omega arith), tt))

apply_patches-ends_example : apply_patches repr 2 xr sets (some patches) base ≢ err too_deep
apply_patches-ends_example =
    apply_patches-ends rank repr xr sets sets_below 2 1 (some patches) base names_below
      (omega arith)

-- A set that names itself.
abbrev circle : Fields
circle = field (codes "region") (sequence (use_region ∷ [])) end

circle_type : patch_type use_region ≡ ok (string (codes "PatchSet"))
unfolding patch_type equal
circle_type = refl

circle_set : named_set circle use_region ≡ ok (list (cons use_region nil))
unfolding named_set equal
circle_set = refl

apply_patches-circle_example :
    apply_patches repr 1000 xr circle (some (sequence (use_region ∷ []))) base ≡ err too_deep
apply_patches-circle_example =
    apply_patches-circle repr xr circle use_region nil circle_type circle_set 1000 base
