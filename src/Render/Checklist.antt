-- ===== src/Render/Checklist.antt =====
-- tools/migration-analyzer/src/migration_analyzer/report.py: the items of the checklist that
-- `to_markdown` writes.
use mathlib.Core.List.{Perm, map-append, append-nil}
use jenkins_to_actions_migra.Prelude.{
  Bool, List, [], ◌∷◌, ◌++◌, ◌≡◌, refl, sym, ◌∙◌, map, filter, filter-append, flat_map, newline,
  Text, codes, join, show, starts_with,
}
use jenkins_to_actions_migra.Unicode.{Unicode, rstrip}
use jenkins_to_actions_migra.Model.{Category, auto, review, manual, drop, Finding, Report}
use jenkins_to_actions_migra.Render.{order, box, truncate}
use jenkins_to_actions_migra.Render.Markdown.{
  head_lines, stage_lines, library_lines, secret_lines, plugin_lines, titled, note_lines,
  finding_lines, items, section_lines, sections, to_markdown,
}
use jenkins_to_actions_migra.Render.Sections.{listed, listed-perm}

-- A line of the sections that is an item of the checklist.
abbrev pub is_item : Text → Bool
is_item = starts_with (codes "- [")

-- What is still to do has an open box.
abbrev pub opening : Category → Text
opening manual = codes "- [ ] **L"
opening review = codes "- [ ] **L"
opening auto = codes "- [x] **L"
opening drop = codes "- [x] **L"

abbrev pub subject : Text → Text → Text
subject title [] = title
subject title (c ∷ t) = title ++ codes ": `" ++ (c ∷ t) ++ codes "`"

-- The item of a finding: its box, its line, its title and its detail.
unfoldable pub entry : Finding → Text
unfolding show
entry f = opening f.category ++ show f.line ++ codes "** " ++ subject f.title f.detail

subject_eq : (title detail : Text) → titled title detail ≡ subject title detail
subject_eq title [] = refl
subject_eq title (c ∷ t) = refl

note_none : (note : Text) → filter is_item (note_lines note) ≡ []
unfolding starts_with
note_none [] = refl
note_none (c ∷ t) = refl

first_line :
    (c : Category) (number title : Text) (later : List Text)
    → filter is_item
        ((codes "- " ++ box c ++ codes " **L" ++ number ++ codes "** " ++ title) ∷ later)
      ≡ (opening c ++ number ++ codes "** " ++ title) ∷ filter is_item later
unfolding starts_with box
first_line manual number title later = refl
first_line review number title later = refl
first_line auto number title later = refl
first_line drop number title later = refl

later_lines :
    (actions note snippet : Text)
    → filter is_item
        ((codes "  - Actions: " ++ actions) ∷ note_lines note ++ (codes "  - `" ++ snippet) ∷ [])
      ≡ []
unfolding starts_with
later_lines actions note snippet =
    filter-append is_item (note_lines note) ((codes "  - `" ++ snippet) ∷ [])
    ∙ rw (note_none note) refl

finding_lines_lem : (f : Finding) → filter is_item (finding_lines f) ≡ entry f ∷ []
unfolding finding_lines entry show
finding_lines_lem f =
    first_line f.category (show f.line) (titled f.title f.detail) (
      (codes "  - Actions: " ++ f.actions_equivalent) ∷ note_lines f.note
      ++ (codes "  - `" ++ truncate f.snippet 100 ++ codes "`") ∷ [])
    ∙ rw
        (
          later_lines f.actions_equivalent f.note (truncate f.snippet 100 ++ codes "`"),
          subject_eq f.title f.detail,
        )
        refl

entries_lem : (fs : List Finding) → filter is_item (flat_map finding_lines fs) ≡ map entry fs
entries_lem [] = refl
entries_lem (f ∷ fs) =
    filter-append is_item (finding_lines f) (flat_map finding_lines fs)
    ∙ rw (finding_lines_lem f, entries_lem fs) refl

section_lines_lem :
    (cat : Category) (fs : List Finding) → filter is_item (section_lines cat fs) ≡ map entry fs
unfolding section_lines starts_with
section_lines_lem cat [] = refl
section_lines_lem cat (f ∷ fs) =
    filter-append is_item (flat_map finding_lines (f ∷ fs)) ([] ∷ [])
    ∙ append-nil (filter is_item (flat_map finding_lines (f ∷ fs)))
    ∙ entries_lem (f ∷ fs)

by_category :
    (fs : List Finding) (cats : List Category)
    → filter is_item (flat_map (λ cat. section_lines cat (items cat fs)) cats)
      ≡ map entry (flat_map (λ cat. items cat fs) cats)
by_category fs [] = refl
by_category fs (cat ∷ cats) =
    filter-append is_item (section_lines cat (items cat fs)) _
    ∙ rw (section_lines_lem cat (items cat fs), by_category fs cats) refl
    ∙ sym (map-append entry (items cat fs) (flat_map (λ cat. items cat fs) cats))

module _ ⦃u : Unicode⦄ where
  -- The checklist ends in its sections, at whose end white space is removed. The items among their
  -- lines are those of the findings of a report, the manual ones first, then review, auto and drop, in
  -- each section in the order of the report: every finding has one, and there is no other.
  pub to_markdown-checklist :
      (r : Report)
      → ((front : List Text) × (to_markdown r
            ≡ rstrip (join (newline ∷ []) (front ++ sections r.findings)) ++ newline ∷ []))
        × (filter is_item (sections r.findings) ≡ map entry (listed r.findings))
        × Perm (listed r.findings) r.findings
  unfolding to_markdown sections
  to_markdown-checklist r = (
    (
      head_lines r
          ++ stage_lines r.stages
          ++ library_lines r.shared_library r.shared_library_steps
          ++ secret_lines r.credential_ids
          ++ plugin_lines r.plugin_steps,
      refl,
    ),
    by_category r.findings order,
    listed-perm r.findings,
  )
