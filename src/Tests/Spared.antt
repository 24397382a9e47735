-- ===== src/Tests/Spared.antt =====
-- What the patches of Tests/Patches.antt leave alone in hack/render-composition.py, by the theorems.
use jenkins_to_actions_migra.Prelude.{
  ◌≡◌, refl, sym, ap, ◌∙◌, List, [], ◌∷◌, some, false, codes, equal, Text,
}
use jenkins_to_actions_migra.Python.{ok, raises, ok_inj}
use jenkins_to_actions_migra.Value.{Value, string}
use jenkins_to_actions_migra.Value.Dict.{get}
use jenkins_to_actions_migra.Python.Access.{subscript, entry, is_container}
use jenkins_to_actions_migra.Composition.{Seg, key, get_path}
use jenkins_to_actions_migra.Composition.Segments.{segments}
use jenkins_to_actions_migra.Composition.Patches.{apply_patches}
use jenkins_to_actions_migra.Composition.Patches.Keeps.{Each, Each-of, get_one}
use jenkins_to_actions_migra.Composition.Patches.Spares.{
  Parts, Spares, Spares-of, Spares-none, apply_patches-Spares,
}
use jenkins_to_actions_migra.Composition.Pipeline.{composed_name}
use jenkins_to_actions_migra.Composition.Pipeline.Objects.{
  name_path, Untouched, object_name, object_base,
}
use jenkins_to_actions_migra.Tests.{ascii}
use jenkins_to_actions_migra.Tests.Reload.{get_path-reloaded_scalar}
use jenkins_to_actions_migra.Tests.Patches.{
  sequence, repr, region_patch, sets, use_region, status_patch, xr, base, patches, resource, yaml,
  object, patched_base, region_items, patch_items, composes,
}

-- The path of the name parts from both paths that are written.
abbrev provider : Text → List Seg
provider k = key (codes "spec") ∷ key (codes "forProvider") ∷ key k ∷ []

abbrev parts_at :
    (j : Text) (r s : List Seg) (k : Text) → equal j k ≡ false → Parts (key j ∷ r) (key k ∷ s)
parts_at j r s k ne = record {
  common = [];
  j = j;
  r = r;
  k = k;
  s = s;
  read = refl;
  written = refl;
  differ = ne;
}

module _ (j : Text) (r : List Seg) (ne : equal j (codes "spec") ≡ false) where
  region-Spares : Spares (key j ∷ r) region_patch
  unfolding subscript equal segments
  region-Spares =
      Spares-of (key j ∷ r) region_patch (codes "spec.forProvider.region")
        (provider (codes "region")) refl refl (parts_at j r _ (codes "spec") ne)

  status-Spares : Spares (key j ∷ r) status_patch
  unfolding subscript equal segments
  status-Spares =
      Spares-of (key j ∷ r) status_patch (codes "spec.forProvider.rules[0].status") _ refl refl
        (parts_at j r _ (codes "spec") ne)

  use-Spares : Spares (key j ∷ r) use_region
  unfolding subscript equal
  use-Spares = Spares-none (key j ∷ r) use_region raises refl

  patches_spare : Each (Spares (key j ∷ r)) (some patches)
  patches_spare =
      Each-of _ (some patches) (use_region ∷ status_patch ∷ []) patch_items
        (use-Spares, (status-Spares, tt))

  sets_spare :
      (k : Text) (set : Value) → get k sets ≡ some set → Each (Spares (key j ∷ r)) (some set)
  sets_spare k set found = rw (get_one k _ _ set found) (
      Each-of _ (some (sequence (region_patch ∷ []))) (region_patch ∷ []) region_items
        (region-Spares, tt))

  untouched : Untouched sets resource (key j ∷ r)
  unfolding entry equal
  untouched = ((λ ps e. rw (← ok_inj e) patches_spare), sets_spare)

metadata_differs : equal (codes "metadata") (codes "spec") ≡ false
unfolding equal
metadata_differs = refl

kind_differs : equal (codes "kind") (codes "spec") ≡ false
unfolding equal
kind_differs = refl

beside_metadata : equal (codes "kind") (codes "metadata") ≡ false
unfolding equal
beside_metadata = refl

patched : apply_patches repr 2 xr sets (some patches) base ≡ ok patched_base
unfolding apply_patches segments equal
patched = refl

apply_patches-Spares_example :
    get_path patched_base (key (codes "kind") ∷ []) ≡ get_path base (key (codes "kind") ∷ [])
apply_patches-Spares_example =
    apply_patches-Spares repr (key (codes "kind") ∷ []) xr sets (sets_spare _ [] kind_differs) 2
      (some patches) base patched_base (patches_spare _ [] kind_differs) patched

named : composed_name repr xr resource ≡ ok (codes "logs-bucket")
unfolding composed_name equal
named = refl

object_name_example : get_path object name_path ≡ string (codes "logs-bucket")
object_name_example =
    object_name yaml repr 2 xr sets resource object composes (codes "logs-bucket") named
      (untouched (codes "metadata") (key (codes "name") ∷ []) metadata_differs)

has_base : subscript resource (codes "base") ≡ ok base
unfolding subscript equal
has_base = refl

kind_scalar : is_container (get_path base (key (codes "kind") ∷ [])) ≡ false
unfolding get_path equal
kind_scalar = refl

object_base_example :
    get_path object (key (codes "kind") ∷ []) ≡ get_path base (key (codes "kind") ∷ [])
object_base_example =
    object_base yaml repr 2 xr sets resource object composes base (codes "kind") []
      (λ v w q e scalar.
        ap (λ x. get_path x q) (ok_inj (sym e)) ∙ get_path-reloaded_scalar v q scalar)
      has_base beside_metadata (untouched (codes "kind") [] kind_differs) kind_scalar
