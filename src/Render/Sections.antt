-- ===== src/Render/Sections.antt =====
-- The sections of the checklist, `to_markdown` of
-- tools/migration-analyzer/src/migration_analyzer/report.py, and the counts of `summary` in model.py.
use mathlib.Core.List.{Perm, perm_middle}
use mathlib.Core.List.Perm
use jenkins_to_actions_migra.Prelude.{
  ℕ, suc, ◌+◌, List, [], ◌∷◌, ◌++◌, ◌≡◌, refl, length, flat_map, Text, arith, if◌then◌else◌,
}
use jenkins_to_actions_migra.Model.{
  Category, auto, review, manual, drop, same, count, summary, Finding, Report,
}
use jenkins_to_actions_migra.Render.{order}
use jenkins_to_actions_migra.Render.Markdown.{items}

-- The findings of all sections, in the order in which the checklist has them.
abbrev pub listed : List Finding → List Finding
listed fs = flat_map (λ cat. items cat fs) order

-- The sections with `f` in front of that of the category `c`.
abbrev with_front : Category → Finding → List Finding → List Finding
with_front c f fs = flat_map (λ cat. if same c cat then f ∷ items cat fs else items cat fs) order

into_third :
    (f : Finding) (a b rest : List Finding) → Perm (a ++ (b ++ f ∷ rest)) (f ∷ (a ++ (b ++ rest)))
into_third f a b rest =
    Perm.trans (Perm.append (Perm.refl a) (perm_middle b rest)) (perm_middle a (b ++ rest))

with_front-perm :
    (c : Category) (f : Finding) (fs : List Finding) → Perm (with_front c f fs) (f ∷ listed fs)
with_front-perm manual f fs = Perm.refl _
with_front-perm review f fs = perm_middle (items manual fs) _
with_front-perm auto f fs = into_third f (items manual fs) (items review fs) _
with_front-perm drop f fs =
    Perm.trans
      (Perm.append (Perm.refl (items manual fs)) (into_third f (items review fs) (items auto fs) _))
      (perm_middle (items manual fs) _)

-- No finding is lost or doubled.
pub listed-perm : (fs : List Finding) → Perm (listed fs) fs
listed-perm [] = Perm.refl []
listed-perm (f ∷ fs) = Perm.trans (with_front-perm f.category f fs) (Perm.cons f (listed-perm fs))

-- The sum of the numbers in a summary.
abbrev pub total : List (Text × ℕ) → ℕ
total [] = 0
total (p ∷ ps) = p.1 + total ps

count-cons :
    (f : Finding) (fs : List Finding)
    → count auto (f ∷ fs) + (count review (f ∷ fs) + (count manual (f ∷ fs) + count drop (f ∷ fs)))
      ≡ suc (count auto fs + (count review fs + (count manual fs + count drop fs)))
unfolding count
count-cons f fs = ground arith

-- The four counts of a summary add up to the number of findings.
pub total-summary : (r : Report) → total (summary r) ≡ length r.findings
unfolding summary
total-summary r = four r.findings
  where
    four :
        (fs : List Finding)
        → count auto fs + (count review fs + (count manual fs + (count drop fs + 0))) ≡ length fs
    four [] = unfold count in refl
    four (f ∷ fs) = omega (arith, four fs, count-cons f fs)
