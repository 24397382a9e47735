-- ===== src/Rules/Ids.antt =====
-- The ids of the rule table of tools/migration-analyzer/src/migration_analyzer/rules.py.
use jenkins_to_actions_migra.Prelude.{
  false, map, codes, ◌≡◌, refl, contains, Distinct, all_distinct, all_distinct_sound,
}
use jenkins_to_actions_migra.Rules.{rules}
use jenkins_to_actions_migra.Rules.Entry.{Rule}

-- The ids of the table are pairwise different.
pub rules-Distinct : Distinct (map (λ (rule : Rule). rule.id) rules)
unfolding rules all_distinct
rules-Distinct = all_distinct_sound (map (λ (rule : Rule). rule.id) rules) refl

-- No rule of the table has the id of the findings for shared-library steps.
pub rules_free :
    contains (codes "shared-library-step") (map (λ (rule : Rule). rule.id) rules) ≡ false
unfolding rules contains
rules_free = refl
