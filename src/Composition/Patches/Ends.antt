-- ===== src/Composition/Patches/Ends.antt =====
-- hack/render-composition.py: `apply_patches` ends if the patch sets do not name one another in a
-- circle, and does not if one names itself.
use jenkins_to_actions_migra.Prelude.{◌≡◌, Text, List, [], ◌∷◌, All, Option, any}
use jenkins_to_actions_migra.Unicode.{Unicode}
use jenkins_to_actions_migra.Python.{Result, ok, exits, unmodelled}
use jenkins_to_actions_migra.Python.Access.{is_text, is_container}
use jenkins_to_actions_migra.Python.Yields.{
  Ends, Always, Quick, >>=-Ends, >>=-Yields, Yields-err, ok-Ends, or_raise-Ends, traverse-Ends,
  if-Yields, err-Yields, each-Yields,
}
use jenkins_to_actions_migra.Value.{Value, string, Fields}
use jenkins_to_actions_migra.Value.Dict.{get}
use jenkins_to_actions_migra.Composition.Patches.{
  is_null, transform_step, transform, store, copy_value, from_field, combined_values,
  format_combined, combine_fields, named_set, apply_patch,
}
use jenkins_to_actions_migra.Composition.Patches.Steps.{
  subscript-Ends, entry-Ends, entry_or-Ends, iterate-Ends, items_or_none-Ends, text_of-Ends,
  key_of-Ends, read_path-Ends, write_path-Ends, go_format-Ends, transform_step-Ends,
}

module _ (repr : Value → Text) ⦃u : Unicode⦄ where
  transform-Ends : (value : Value) (ts : Option Value) → Ends (transform repr value ts)
  unfolding transform
  transform-Ends value ts = >>=-Ends _ _ (items_or_none-Ends ts) λ ts'.
      each-Yields Always Quick (transform_step repr) ts' value
        (all ts' (λ t v _. transform_step-Ends repr t v)) tt
    where
      all :
          (xs : List Value)
          → ((t v : Value) → Always v → Ends (transform_step repr t v))
          → All (λ t. (v : Value) → Always v → Ends (transform_step repr t v)) xs
      all [] h = tt
      all (x ∷ xs) h = (h x, all xs h)

  store-Ends : (p value target : Value) → Ends (store p value target)
  unfolding store
  store-Ends p value target = >>=-Ends _ _ (subscript-Ends p _) λ path.
      if-Yields (is_container value) _ _ (err-Yields unmodelled tt)
        (write_path-Ends target path value)

  copy_value-Ends : (p value target : Value) → Ends (copy_value repr p value target)
  unfolding copy_value
  copy_value-Ends p value target = >>=-Ends _ _ (subscript-Ends p _) λ path.
      >>=-Ends _ _ (entry-Ends p _) λ transforms.
        >>=-Ends _ _ (transform-Ends value transforms) λ changed. store-Ends p changed target

  from_field-Ends : (xr p target : Value) → Ends (from_field repr xr p target)
  unfolding from_field
  from_field-Ends xr p target = >>=-Ends _ _ (subscript-Ends p _) λ path.
      >>=-Ends _ _ (read_path-Ends xr path)
        λ value. if-Yields (is_null value) _ _ (ok-Ends target) (copy_value-Ends p value target)

  combined_values-Ends : (xr p : Value) → Ends (combined_values xr p)
  unfolding combined_values
  combined_values-Ends xr p = >>=-Ends _ _ (subscript-Ends p _) λ combine.
      >>=-Ends _ _ (subscript-Ends combine _) λ variables.
        >>=-Ends _ _ (iterate-Ends variables) λ vs.
          traverse-Ends _ vs λ v. >>=-Ends _ _ (subscript-Ends v _) λ path. read_path-Ends xr path

  format_combined-Ends :
      (p : Value) (values : List Value) (target : Value)
      → Ends (format_combined repr p values target)
  unfolding format_combined
  format_combined-Ends p values target = >>=-Ends _ _ (subscript-Ends p _) λ path.
      >>=-Ends _ _ (subscript-Ends p _) λ combine. >>=-Ends _ _ (subscript-Ends combine _) λ spec.
        >>=-Ends _ _ (subscript-Ends spec _) λ fmt. >>=-Ends _ _ (text_of-Ends fmt) λ text.
          >>=-Ends _ _ (go_format-Ends repr text values)
            λ formatted. store-Ends p (string formatted) target

  combine_fields-Ends : (xr p target : Value) → Ends (combine_fields repr xr p target)
  unfolding combine_fields
  combine_fields-Ends xr p target = >>=-Ends _ _ (combined_values-Ends xr p) λ values.
      if-Yields (any is_null values) _ _ (ok-Ends target) (format_combined-Ends p values target)

  named_set-Ends : (sets : Fields) (p : Value) → Ends (named_set sets p)
  unfolding named_set
  named_set-Ends sets p =
      >>=-Ends _ _ (subscript-Ends p _)
        λ name. >>=-Ends _ _ (key_of-Ends name) λ k. or_raise-Ends (get k sets)

  -- One patch ends if the call for the patch set that it names does.
  pub apply_patch-Ends :
      (recur : Value → Value → Result Value) (xr : Value) (sets : Fields) (p target : Value)
      → ((set : Value) → named_set sets p ≡ ok set → Ends (recur set target))
      → Ends (apply_patch repr recur xr sets p target)
  unfolding apply_patch
  apply_patch-Ends recur xr sets p target h = >>=-Ends _ _ (entry_or-Ends p _ _) λ kind.
      if-Yields (is_text kind _) _ _
        (>>=-Yields (named_set sets p) _ (λ e. Yields-err _ e (named_set-Ends sets p)) h)
        (if-Yields (is_text kind _) _ _ (from_field-Ends xr p target) (
          if-Yields (is_text kind _) _ _ (combine_fields-Ends xr p target)
            (if-Yields (is_text kind _) _ _ (ok-Ends target) (err-Yields exits tt))))
