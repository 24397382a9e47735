-- ===== src/Analyzer/PerRule.antt =====
-- The findings of a report of `analyze_text`, tools/migration-analyzer/src/migration_analyzer/analyzer.py,
-- rule by rule, their order, and the findings of the shared-library steps.
use mathlib.Core.List.{Perm, append-nil}
use mathlib.Core.List.Perm
use jenkins_to_actions_migra.Prelude.{
  ℕ, zero, suc, ◌≤◌, true, false, List, [], ◌∷◌, ◌++◌, ◌≡◌, refl, ap, ◌∙◌, some, map, Text, All,
  All-append, All-weaken, length, get_elem?, filter, filter-append, filter-eq_self, filter-eq_nil,
  traverse, traverse-All, >>=-eq-some, some_inj, equal, equal_refl, contains, split_lines, arith,
}
use jenkins_to_actions_migra.Prelude.Sorting.{
  sort, sort-IsSorted, sort-perm, sort-eq_self, sort-All, filter-sort_comm,
}
use jenkins_to_actions_migra.Unicode.{Unicode}
use jenkins_to_actions_migra.Model.{Finding, Report}
use jenkins_to_actions_migra.Parser.{Scanned, lookup_calls, extract, strip_comments}
use jenkins_to_actions_migra.Parser.Lines.{scan-total}
use jenkins_to_actions_migra.Rules.{rules}
use jenkins_to_actions_migra.Rules.Ids.{rules-Distinct, rules_free}
use jenkins_to_actions_migra.Rules.Entry.{Rule}
use jenkins_to_actions_migra.Analyzer.{
  snippet_at, rule_findings, table_findings, library_steps, step_finding, finding_le, plugin_steps,
  report_of, analyze_text,
}
use jenkins_to_actions_migra.Analyzer.Findings.{
  finding_le_total, finding_le_trans, hit_lines, limit, IsFrom, rule_findings_lem, InOrder,
  Pairwise, IsSorted-Pairwise,
}
use jenkins_to_actions_migra.Analyzer.Reported.{
  of_rule, step_rule, ids, rule_findings-IsSorted, table_findings-absent, table_findings-present,
  table_findings-known,
}

-- What `analyze_text` computed on its way to a report.
pub record Trace ⦃u : Unicode⦄ (text source : Text) (r : Report) : Type 0 where
  pub scanned : Scanned
  pub found : List Finding
  pub called : List Finding
  pub scans : scanned ≡ extract (split_lines text) (split_lines (strip_comments text))
  pub finds : table_findings rules scanned ≡ some found
  pub steps : library_steps scanned ≡ some r.shared_library_steps
  pub calls : traverse (step_finding scanned) r.shared_library_steps ≡ some called
  pub findings : r.findings ≡ sort finding_le (found ++ called)
  pub plugins : r.plugin_steps ≡ plugin_steps scanned
  pub lines : r.lines ≡ length scanned.lines

step_finding_lem :
    ⦃u : Unicode⦄
    → (s : Scanned) (name : Text) (f : Finding) → step_finding s name ≡ some f
    → (f.rule ≡ step_rule)
      × (f.detail ≡ name)
      × (snippet_at s.original_lines f.line ≡ some f.snippet)
unfolding step_finding
step_finding_lem s name f e =
    let (is, _, e') = >>=-eq-some (lookup_calls name s.step_calls) _ e in
    let (first, _, e'') = >>=-eq-some (get_elem? is 0) _ e' in
    let (x, ex, e''') = >>=-eq-some (snippet_at s.original_lines first) _ e'' in
    rw (← some_inj e''') (refl, refl, ex)

module _ ⦃u : Unicode⦄ where
  pub analyze_text-Trace :
      (text source : Text) (r : Report) → analyze_text text source ≡ some r → Trace text source r
  unfolding analyze_text report_of
  analyze_text-Trace text source r e =
      let s : Scanned = extract (split_lines text) (split_lines (strip_comments text)) in
      let e' : report_of rules source s ≡ some r = rw (scan-total text) at e in
      let (found, ef, e1) = >>=-eq-some (table_findings rules s) _ e' in
      let (steps, es, e2) = >>=-eq-some (library_steps s) _ e1 in
      let (called, ec, e3) = >>=-eq-some (traverse (step_finding s) steps) _ e2 in
      rw (← some_inj e3) (record {
        scanned = s;
        found = found;
        called = called;
        scans = refl;
        finds = ef;
        steps = es;
        calls = ec;
        findings = refl;
        plugins = refl;
        lines = refl;
      })

module _ ⦃u : Unicode⦄ (text source : Text) (r : Report)
    (analyzed : analyze_text text source ≡ some r) where
  trace : Trace text source r
  trace = analyze_text-Trace text source r analyzed

  called_steps : All (λ f. f.rule ≡ step_rule) trace.called
  called_steps =
      traverse-All (λ f. f.rule ≡ step_rule) (step_finding trace.scanned)
        (λ name f e. (step_finding_lem trace.scanned name f e).0) r.shared_library_steps
        trace.called trace.calls

  -- The findings of a report are sorted by line and then by the text of the rule's id, and each is of
  -- a rule of the table or of a shared-library step.
  pub findings-IsSorted :
      Pairwise InOrder r.findings
      × All (λ f. contains f.rule (step_rule ∷ ids rules) ≡ true) r.findings
  unfolding contains
  findings-IsSorted =
      let Known : Finding → Type 0 = λ f. contains f.rule (step_rule ∷ ids rules) ≡ true in
      let all = trace.found ++ trace.called in
      rw trace.findings (
        IsSorted-Pairwise (sort finding_le all)
            (sort-IsSorted finding_le finding_le_total finding_le_trans all),
        sort-All finding_le Known all (
            All-append Known trace.found trace.called
              (All-weaken (λ f. contains f.rule (ids rules) ≡ true) Known trace.found
                (λ f k. ground arith)
                (table_findings-known rules trace.scanned trace.found trace.finds))
              (All-weaken (λ f. f.rule ≡ step_rule) Known trace.called
                (λ f e. rw (e, equal_refl step_rule) refl) called_steps)),
      )

  -- The findings of a report with a rule's id, for a rule at place `k` of the table.
  module _ (k : ℕ) (rule : Rule) (at_k : get_elem? rules k ≡ some rule) where
    own : List Finding
    own = filter (of_rule rule.id) trace.found

    own_loop : rule_findings rule trace.scanned.original_lines 1 trace.scanned.lines ≡ some own
    unfolding own
    own_loop =
        table_findings-present rules trace.scanned k rule trace.found rules-Distinct at_k
          trace.finds

    called_none : filter (of_rule rule.id) trace.called ≡ []
    called_none = filter-eq_nil (of_rule rule.id) trace.called (
        All-weaken (λ f. f.rule ≡ step_rule) (λ f. of_rule rule.id f ≡ false) trace.called
          (λ f e. rw e (step_rule_ne rules k rule rules_free at_k)) called_steps)
      where
        step_rule_ne :
            (table : List Rule) (k : ℕ) (rule : Rule)
            → contains step_rule (ids table) ≡ false
            → get_elem? table k ≡ some rule
            → equal step_rule rule.id ≡ false
        step_rule_ne [] k rule h e = cc
        step_rule_ne (q ∷ table) zero rule h e = rw (← some_inj e) (unfold contains in ground arith)
        step_rule_ne (q ∷ table) (suc k) rule h e =
            step_rule_ne table k rule (unfold contains in ground arith) e

    reported-eq_own : filter (of_rule rule.id) r.findings ≡ own
    unfolding own
    reported-eq_own = rw trace.findings (
        filter-sort_comm finding_le (of_rule rule.id) finding_le_total finding_le_trans
          (trace.found ++ trace.called)
        ∙ ap (sort finding_le) (
            filter-append (of_rule rule.id) trace.found trace.called
            ∙ ap (λ x. filter (of_rule rule.id) trace.found ++ x) called_none
            ∙ append-nil (filter (of_rule rule.id) trace.found))
        ∙ sort-eq_self finding_le (filter (of_rule rule.id) trace.found) (
            rule_findings-IsSorted rule trace.scanned.original_lines 1 trace.scanned.lines own
              own_loop))

    -- For a rule of the table, the lines of its findings in the report are, in order, the lines of
    -- the stripped text in which its pattern is found, the first alone if the rule reports once.
    pub lines-of_rule :
        map (λ f. f.line) (filter (of_rule rule.id) r.findings)
        ≡ limit rule.once (hit_lines rule.pattern 1 (split_lines (strip_comments text)))
    lines-of_rule =
        ap (map (λ f. f.line)) reported-eq_own
        ∙ (rule_findings_lem rule trace.scanned.original_lines 1 trace.scanned.lines own own_loop).0
        ∙ ap (λ (s : Scanned). limit rule.once (hit_lines rule.pattern 1 s.lines)) trace.scans
        ∙ unfold extract in refl

    -- For a rule of the table, its findings in the report carry the category and the texts of the
    -- rule, and their snippet is their line of the text without the white space around it.
    pub texts-of_rule :
        All
          (λ f. (1 ≤ f.line) × IsFrom rule (split_lines text) f)
          (filter (of_rule rule.id) r.findings)
    texts-of_rule =
        let all =
          (rule_findings_lem rule trace.scanned.original_lines 1 trace.scanned.lines own
            own_loop).1 in
        let originals : trace.scanned.original_lines ≡ split_lines text =
          ap (λ (s : Scanned). s.original_lines) trace.scans ∙ unfold extract in refl in
        rw (reported-eq_own, ← originals) all

  steps_details :
      (s : Scanned) (names : List Text) (fs : List Finding)
      → traverse (step_finding s) names ≡ some fs
      → map (λ f. f.detail) fs ≡ names
  steps_details s [] fs e = rw (← some_inj e) refl
  steps_details s (name ∷ names) fs e =
      let (f, ef, e') = >>=-eq-some (step_finding s name) _ e in
      let (gs, eg, e'') = >>=-eq-some (traverse (step_finding s) names) _ e' in
      rw (← some_inj e'') (rw ((step_finding_lem s name f ef).1, steps_details s names gs eg) refl)

  -- The findings for shared-library steps in a report name each step of its list once.
  pub steps-reported :
      Perm (map (λ f. f.detail) (filter (of_rule step_rule) r.findings)) r.shared_library_steps
  steps-reported =
      let kept : filter (of_rule step_rule) (trace.found ++ trace.called) ≡ trace.called =
        filter-append (of_rule step_rule) trace.found trace.called
        ∙ ap (λ x. x ++ filter (of_rule step_rule) trace.called)
            (table_findings-absent rules trace.scanned step_rule trace.found rules_free trace.finds)
        ∙ filter-eq_self (of_rule step_rule) trace.called (
            All-weaken (λ f. f.rule ≡ step_rule) (λ f. of_rule step_rule f ≡ true) trace.called
              (λ f e. rw e (equal_refl step_rule)) called_steps) in
      let sorted : filter (of_rule step_rule) r.findings ≡ sort finding_le trace.called =
        rw trace.findings (
          filter-sort_comm finding_le (of_rule step_rule) finding_le_total finding_le_trans
            (trace.found ++ trace.called)
          ∙ ap (sort finding_le) kept) in
      rw (sorted, ← steps_details trace.scanned r.shared_library_steps trace.called trace.calls)
        (Perm.map (λ f. f.detail) (sort-perm finding_le trace.called))
