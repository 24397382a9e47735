-- ===== src/Skeleton/Plain.antt =====
-- hack/render-skeleton.py and hack/validate-backstage.py: a text without expressions is kept.
use jenkins_to_actions_migra.Prelude.{Text, List, ◌≡◌, ap, ◌∙◌}
use jenkins_to_actions_migra.Unicode.{Unicode}
use jenkins_to_actions_migra.Regex.Starts.{Without, sub-none}
use jenkins_to_actions_migra.Skeleton.{
  literal, value_expression, values, placeholders, expand, render, render_placeholders,
}

module _ ⦃u : Unicode⦄ where
  pub expand-none :
      (table : List (Text × Text)) (text : Text) → Without b'$' text → expand table text ≡ text
  unfolding expand value_expression
  expand-none table text h = sub-none _ _ _ text h

  -- Both scripts keep a text without a dollar sign as it stands, and so a path.
  pub render_lem :
      (text : Text) → Without b'$' text → (render text ≡ text) × (render_placeholders text ≡ text)
  unfolding render render_placeholders literal
  render_lem text h = (
    ap (expand values) (sub-none _ _ _ text h) ∙ expand-none values text h,
    expand-none placeholders text h,
  )
