-- ===== src/Composition/Patches/Keeps.antt =====
-- hack/render-composition.py: what every write of a patch keeps, `apply_patches` keeps.
use jenkins_to_actions_migra.Prelude.{
  ℕ, zero, suc, ◌≡◌, sym, ◌∙◌, inl, inr, Bool-cases, some_inj, equal, Text, codes, List, All,
  All-weaken, Option, none, some, any,
}
use jenkins_to_actions_migra.Unicode.{Unicode}
use jenkins_to_actions_migra.Python.{ok, exits, too_deep, ok_inj, Result}
use jenkins_to_actions_migra.Python.Access.{is_text, subscript, entry, text_of}
use jenkins_to_actions_migra.Python.Yields.{
  Yields, Any, >>=-Any, Yields-of, Yields-ok, ok-Yields, err-Yields, if-Yields, each-Yields,
}
use jenkins_to_actions_migra.Value.{Value, string, Fields, end, field}
use jenkins_to_actions_migra.Value.Dict.{get}
use jenkins_to_actions_migra.Composition.Segments.{read_path}
use jenkins_to_actions_migra.Composition.Format.{go_format}
use jenkins_to_actions_migra.Composition.Patches.{
  is_null, patch_type, transform, combined_values, items_or_none, store, copy_value, from_field,
  format_combined, combine_fields, named_set, apply_patch, apply_patches,
}
use jenkins_to_actions_migra.Composition.Patches.Rank.{named_set-eq-ok}

-- All patches of a list, as the loop takes them.
abbrev pub Each : (Value → Type 0) → Option Value → Type 0
Each Good patches = (ps : List Value) → items_or_none patches ≡ ok ps → All Good ps

module _ (repr : Value → Text) ⦃u : Unicode⦄ (Good P : Value → Type 0)
    (keeps : (p value target out : Value)
      → Good p
      → P target
      → store p value target ≡ ok out
      → P out)
    (xr : Value) (sets : Fields)
    (good : (k : Text) (set : Value) → get k sets ≡ some set → Each Good (some set)) where
  store-Keeps : (p value target : Value) → Good p → P target → Yields P Any (store p value target)
  store-Keeps p value target g i = Yields-of _ (λ out. keeps p value target out g i) (λ e _. tt)

  from_field-Keeps :
      (p target : Value) → Good p → P target → Yields P Any (from_field repr xr p target)
  unfolding from_field copy_value
  from_field-Keeps p target g i = >>=-Any (subscript p (codes "fromFieldPath")) _ λ path _.
      >>=-Any (read_path xr path) _ λ value _. if-Yields (is_null value) _ _ (ok-Yields target i) (
        >>=-Any (subscript p (codes "toFieldPath")) _ λ to _.
          >>=-Any (entry p (codes "transforms")) _ λ transforms _.
            >>=-Any (transform repr value transforms) _
              λ changed _. store-Keeps p changed target g i)

  combine_fields-Keeps :
      (p target : Value) → Good p → P target → Yields P Any (combine_fields repr xr p target)
  unfolding combine_fields format_combined
  combine_fields-Keeps p target g i = >>=-Any (combined_values xr p) _ λ values _.
      if-Yields (any is_null values) _ _ (ok-Yields target i) (
        >>=-Any (subscript p (codes "toFieldPath")) _ λ path _.
          >>=-Any (subscript p (codes "combine")) _ λ combine _.
            >>=-Any (subscript combine (codes "string")) _ λ spec _.
              >>=-Any (subscript spec (codes "fmt")) _ λ fmt _. >>=-Any (text_of fmt) _ λ text _.
                >>=-Any (go_format repr text values) _
                  λ formatted _. store-Keeps p (string formatted) target g i)

  apply_patch-Keeps :
      (recur : Value → Value → Result Value) (p target : Value)
      → ((set : Value) → Each Good (some set) → Yields P Any (recur set target))
      → Good p
      → P target
      → Yields P Any (apply_patch repr recur xr sets p target)
  unfolding apply_patch
  apply_patch-Keeps recur p target h g i = >>=-Any (patch_type p) _ λ kind _.
      if-Yields (is_text kind _) _ _
        (>>=-Any (named_set sets p) _
          λ set e. let (k, _, found) = named_set-eq-ok sets p set e in h set (good k set found))
        (if-Yields (is_text kind _) _ _ (from_field-Keeps p target g i) (
          if-Yields (is_text kind _) _ _ (combine_fields-Keeps p target g i)
            (if-Yields (is_text kind _) _ _ (ok-Yields target i) (err-Yields exits tt))))

  apply_patches-Keeps :
      (fuel : ℕ) (patches : Option Value) (target : Value)
      → Each Good patches
      → P target
      → Yields P Any (apply_patches repr fuel xr sets patches target)
  unfolding apply_patches
  apply_patches-Keeps zero patches target g i = err-Yields too_deep tt
  apply_patches-Keeps (suc fuel) patches target g i = >>=-Any (items_or_none patches) _ λ ps e.
      each-Yields P Any _ ps target
        (All-weaken _ _ ps
          (λ p gp t it.
            apply_patch-Keeps (λ s. apply_patches repr fuel xr sets (some s)) p t
              (λ set gs. apply_patches-Keeps fuel (some set) t gs it) gp it)
          (g ps e))
        i

  pub apply_patches-keeps :
      (fuel : ℕ) (patches : Option Value) (target out : Value)
      → Each Good patches
      → apply_patches repr fuel xr sets patches target ≡ ok out
      → P target
      → P out
  apply_patches-keeps fuel patches target out g e i =
      Yields-ok _ out (apply_patches-Keeps fuel patches target g i) e

-- A list of patches that is known, and a dict of one patch set.
pub Each-of :
    (Good : Value → Type 0) (patches : Option Value) (ps : List Value)
    → items_or_none patches ≡ ok ps
    → All Good ps
    → Each Good patches
Each-of Good patches ps e h qs e' = rw (← ok_inj (sym e ∙ e')) h

pub get_one : (k j : Text) (v w : Value) → get k (field j v end) ≡ some w → w ≡ v
unfolding get
get_one k j v w h = elim (Bool-cases (equal k j)) [
  | inl e ↦ sym (some_inj (rw e at h))
  | inr e ↦ let absent : none ≡ some w = rw e at h in cc
]
