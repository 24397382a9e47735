-- ===== src/Analyzer/LibrarySteps.antt =====
-- The shared-library steps and plugin steps of a report of `analyze_text`,
-- tools/migration-analyzer/src/migration_analyzer/analyzer.py.
use jenkins_to_actions_migra.Prelude.{
  ℕ, ◌≤◌, Bool, true, false, not, List, [], ◌∷◌, ◌≡◌, ◌≢◌, ◌↔◌, refl, sym, ap, ◌∙◌, inl, inr, none,
  some, map, Text, All, length, filter, filter_some, filter_some-filter, >>=-eq-some, some_inj,
  Bool-cases, equal, equal_sym, contains, Distinct, text_le, text_le_total, text_le_trans,
  split_lines, arith, ◌&&◌, if◌then◌else◌,
}
use jenkins_to_actions_migra.Prelude.Sorting.{sort, IsSorted, sort-IsSorted}
use jenkins_to_actions_migra.Prelude.TextSets.{
  contains-filter, contains-sort, Distinct-sort, Distinct-filter,
}
use jenkins_to_actions_migra.Unicode.{Unicode, is_upper}
use jenkins_to_actions_migra.Model.{Report}
use jenkins_to_actions_migra.Parser.{
  Calls, Scanned, lookup_calls, calls_from, extract, strip_comments,
}
use jenkins_to_actions_migra.Parser.StepCalls.{
  IsCall, lines_of, call_lines, step_calls-IsCall, step_calls-Distinct, lines_of-step_calls,
}
use jenkins_to_actions_migra.Rules.Names.{known_steps, plugin_names}
use jenkins_to_actions_migra.Analyzer.{
  starts_upper, is_library_step, library_steps, plugin_steps, analyze_text,
}
use jenkins_to_actions_migra.Analyzer.PerRule.{analyze_text-Trace}

names : Calls → List Text
names calls = map (λ c. c.0) calls

contains-names_iff :
    (n : ℕ) (name : Text) (calls : Calls)
    → All (IsCall n) calls
    → (contains name (names calls) ≡ true) ↔ (lines_of name calls ≢ [])
unfolding contains lookup_calls names
contains-names_iff n name [] g = (λ h. cc, λ h. absurd (h refl))
contains-names_iff n name ((m, is) ∷ calls) g = elim (Bool-cases (equal m name)) [
  | inl e ↦ rw (equal_sym name m, e) (λ _. λ nil. nonempty is g.0.called nil, λ _. refl)
  | inr e ↦ rw (equal_sym name m, e) (contains-names_iff n name calls g.1)
]
  where
    nonempty : (is : List ℕ) → 1 ≤ length is → is ≡ [] → ⊥
    nonempty [] h e = absurd (omega arith)
    nonempty (i ∷ is) h e = cc

by_tests :
    (a b c x : Bool)
    → (if a then some false else if b then some false else some (not c)) ≡ some x
    → x ≡ (not a && not b && not c)
by_tests a b c x e = ground arith

nameless :
    (a b x : Bool)
    → (if a then some false else if b then some false else none) ≡ some x
    → x ≡ (not a && not b && true)
nameless a b x e = ground arith

module _ ⦃u : Unicode⦄ where
  -- The first character is an upper-case letter.
  abbrev pub upper_first : Text → Bool
  upper_first [] = false
  upper_first (c ∷ t) = is_upper c

  abbrev is_new : List Text → Text → Bool
  is_new local_defs name =
      not (contains name known_steps) && not (contains name local_defs) && not (upper_first name)

  is_library_step_lem :
      (local_defs : List Text) (name : Text) (b : Bool)
      → is_library_step local_defs name ≡ some b
      → b ≡ is_new local_defs name
  unfolding is_library_step starts_upper
  is_library_step_lem local_defs [] b e =
      nameless (contains [] known_steps) (contains [] local_defs) b e
  is_library_step_lem local_defs (c ∷ name) b e =
      by_tests (contains (c ∷ name) known_steps) (contains (c ∷ name) local_defs) (is_upper c) b e

  library_steps_lem :
      (s : Scanned) (steps : List Text)
      → library_steps s ≡ some steps
      → steps ≡ sort text_le (filter (is_new s.local_defs) (names s.step_calls))
  unfolding library_steps names
  library_steps_lem s steps e =
      let (kept, ek, e') =
        >>=-eq-some (filter_some (is_library_step s.local_defs) (map (λ c. c.0) s.step_calls)) _
          e in
      sym (some_inj e')
      ∙ ap (sort text_le) (
          filter_some-filter (is_library_step s.local_defs) (is_new s.local_defs)
            (is_library_step_lem s.local_defs) (map (λ c. c.0) s.step_calls) kept ek)

module _ ⦃u : Unicode⦄ (text source : Text) (r : Report)
    (analyzed : analyze_text text source ≡ some r) where
  abbrev stripped : List Text
  stripped = split_lines (strip_comments text)

  abbrev pub defined : List Text
  defined = (extract (split_lines text) (split_lines (strip_comments text))).local_defs

  steps_eq :
      r.shared_library_steps
      ≡ sort text_le (filter (is_new defined) (names (calls_from 1 stripped [])))
  unfolding extract
  steps_eq =
      let t = analyze_text-Trace text source r analyzed in
      library_steps_lem t.scanned r.shared_library_steps t.steps
      ∙ ap (λ (s : Scanned). sort text_le (filter (is_new s.local_defs) (names s.step_calls)))
          t.scans

  -- A name is among the shared-library steps of a report exactly when it is called on some line of
  -- the stripped text, is no known step, is not defined in the file, and does not begin with an
  -- upper-case letter.
  pub library_steps_iff :
      (name : Text)
      → (contains name r.shared_library_steps ≡ true) ↔ (
          (call_lines name 1 (split_lines (strip_comments text)) ≢ [])
          × (contains name known_steps ≡ false)
          × (contains name defined ≡ false)
          × (upper_first name ≡ false))
  library_steps_iff name =
      let calls = calls_from 1 stripped [] in
      let member : contains name r.shared_library_steps
          ≡ (contains name (names calls) && is_new defined name) =
        ap (contains name) steps_eq
        ∙ contains-sort text_le name (filter (is_new defined) (names calls))
        ∙ contains-filter (is_new defined) name (names calls) in
      let iff : (contains name (names calls) ≡ true) ↔ (call_lines name 1 stripped ≢ []) =
        rw (← lines_of-step_calls name stripped)
          (contains-names_iff (length stripped) name calls (step_calls-IsCall stripped)) in
      by_parts (contains name r.shared_library_steps) (contains name (names calls))
        (contains name known_steps) (contains name defined) (upper_first name) member iff
    where
      by_parts :
          {Q : Type 0} (m k a b c : Bool)
          → m ≡ (k && (not a && not b && not c))
          → (k ≡ true) ↔ Q
          → (m ≡ true) ↔ (Q × (a ≡ false) × (b ≡ false) × (c ≡ false))
      by_parts m k a b c e iff = (
        λ h. (iff.0 (ground arith), ground arith, ground arith, ground arith),
        λ h. let called = iff.1 h.0 in ground arith,
      )

  -- The shared-library steps of a report are in alphabetical order, and no step is listed twice.
  pub library_steps-IsSorted :
      IsSorted text_le r.shared_library_steps × Distinct r.shared_library_steps
  library_steps-IsSorted = rw steps_eq (
    sort-IsSorted text_le text_le_total text_le_trans _,
    Distinct-sort text_le _ (
        Distinct-filter (is_new defined) (names (calls_from 1 stripped []))
          (unfold names in step_calls-Distinct stripped)),
  )

  abbrev is_plugin : Text → Bool
  is_plugin name = contains name plugin_names

  plugins_eq : r.plugin_steps ≡ sort text_le (filter is_plugin (names (calls_from 1 stripped [])))
  unfolding extract plugin_steps names
  plugins_eq =
      let t = analyze_text-Trace text source r analyzed in t.plugins ∙ ap plugin_steps t.scans

  -- A name is among the plugin steps of a report exactly when it is called on some line of the
  -- stripped text and is one of the known plugin steps; the list is in alphabetical order and lists
  -- no step twice.
  pub plugin_steps_iff :
      ((name : Text)
        → (contains name r.plugin_steps ≡ true) ↔ (
            (call_lines name 1 (split_lines (strip_comments text)) ≢ [])
            × (contains name plugin_names ≡ true)))
      × IsSorted text_le r.plugin_steps
      × Distinct r.plugin_steps
  plugin_steps_iff =
      let calls = calls_from 1 stripped [] in
      let member = λ (name : Text).
        ap (contains name) plugins_eq
        ∙ contains-sort text_le name (filter is_plugin (names calls))
        ∙ contains-filter is_plugin name (names calls) in
      let iff = λ (name : Text).
        contains-names_iff (length stripped) name calls (step_calls-IsCall stripped) in
      (
        λ name. rw (← lines_of-step_calls name stripped) (
            by_both (contains name r.plugin_steps) (contains name (names calls)) (is_plugin name)
              (member name) (iff name)),
        rw plugins_eq (sort-IsSorted text_le text_le_total text_le_trans _),
        rw plugins_eq (
            Distinct-sort text_le _ (
              Distinct-filter is_plugin (names calls)
                (unfold names in step_calls-Distinct stripped))),
      )
    where
      by_both :
          {Q : Type 0} (m k a : Bool)
          → m ≡ (k && a)
          → (k ≡ true) ↔ Q
          → (m ≡ true) ↔ (Q × (a ≡ true))
      by_both m k a e iff =
          (λ h. (iff.0 (ground arith), ground arith), λ h. let called = iff.1 h.0 in ground arith)
