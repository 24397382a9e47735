-- ===== src/Model.antt =====
-- tools/migration-analyzer/src/migration_analyzer/model.py: categories, findings and reports.
use jenkins_to_actions_migra.Prelude.{
  ℕ, Bool, true, false, List, [], ◌∷◌, map, Option, Text, codes, length, filter,
}

pub data Category : Type 0 where
  auto review manual drop : Category

-- `c.value`
unfoldable pub value : Category → Text
value auto = codes "auto"
value review = codes "review"
value manual = codes "manual"
value drop = codes "drop"

-- `a is b` on members of the enumeration.
abbrev pub same : Category → Category → Bool
same auto auto = true
same review review = true
same manual manual = true
same drop drop = true
same _ _ = false

-- `for c in Category`
abbrev pub categories : List Category
categories = auto ∷ review ∷ manual ∷ drop ∷ []

pub record Finding : Type 0 where
  pub rule : Text
  pub category : Category
  pub line : ℕ
  pub snippet : Text
  pub title : Text
  pub actions_equivalent : Text
  pub note : Text
  pub detail : Text

pub record Report : Type 0 where
  pub source : Text
  pub findings : List Finding
  pub stages : List Text
  pub credential_ids : List Text
  pub shared_library : Option Text
  pub shared_library_steps : List Text
  pub plugin_steps : List Text
  pub lines : ℕ

-- `Report.count`: the generator yields 1 for each finding of the category.
unfoldable pub count : Category → List Finding → ℕ
count c fs = length (filter (λ f. same f.category c) fs)

-- `Report.summary`
unfoldable pub summary : Report → List (Text × ℕ)
unfolding value count
summary report = map (λ c. (value c, count c report.findings)) categories
