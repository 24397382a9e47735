-- ===== src/Analyzer/Reported.antt =====
-- The report of `analyze_text`, tools/migration-analyzer/src/migration_analyzer/analyzer.py: which
-- findings it has for each rule, and their order.
use mathlib.Core.List.{append-nil}
use jenkins_to_actions_migra.Prelude.{
  ℕ, zero, suc, ◌≤◌, Bool, true, false, List, [], ◌∷◌, ◌++◌, ◌≡◌, refl, sym, ap, ◌∙◌, inl, inr,
  Option, some, map, Text, codes, All, All-append, All-weaken, get_elem?, filter, filter-append,
  filter-eq_self, filter-eq_nil, >>=-eq-some, some_inj, Option-cases, equal, equal_refl, equal_sym,
  contains, Distinct, arith,
}
use jenkins_to_actions_migra.Prelude.Sorting.{IsSorted}
use jenkins_to_actions_migra.Unicode.{Unicode}
use jenkins_to_actions_migra.Regex.Match.{Match, search}
use jenkins_to_actions_migra.Model.{Finding}
use jenkins_to_actions_migra.Parser.{Scanned}
use jenkins_to_actions_migra.Rules.Entry.{Rule}
use jenkins_to_actions_migra.Analyzer.{
  rule_finding, after_match, rule_findings, table_findings, finding_le,
}
use jenkins_to_actions_migra.Analyzer.Findings.{IsFrom, rule_finding_lem, rule_findings_lem}

-- The findings that carry a rule's id.
abbrev pub of_rule : Text → Finding → Bool
of_rule id f = equal f.rule id

abbrev pub step_rule : Text
step_rule = codes "shared-library-step"

abbrev pub ids : List Rule → List Text
ids table = map (λ rule. rule.id) table

before_later :
    (f : Finding) (i : ℕ) (rule : Rule) (originals : List Text) (gs : List Finding)
    → f.line ≡ i
    → All (λ g. (suc i ≤ g.line) × IsFrom rule originals g) gs
    → All (λ g. finding_le f g ≡ true) gs
unfolding finding_le
before_later f i rule originals gs e h =
    All-weaken (λ g. (suc i ≤ g.line) × IsFrom rule originals g) (λ g. finding_le f g ≡ true) gs
      (λ g k. let low = k.0 in ground arith) h

module _ ⦃u : Unicode⦄ where
  after_match-IsSorted :
      (rule : Rule) (originals : List Text) (i : ℕ) (m : Match) (once : Bool)
      (later : Option (List Finding)) (fs : List Finding)
      → after_match once (rule_finding rule originals i m) later ≡ some fs
      → ((gs : List Finding)
          → later ≡ some gs
          → IsSorted finding_le gs × All (λ f. (suc i ≤ f.line) × IsFrom rule originals f) gs)
      → IsSorted finding_le fs
  after_match-IsSorted rule originals i m true later fs e ih =
      let (f, ef, e') = >>=-eq-some (rule_finding rule originals i m) _ e in
      rw (← some_inj e') (tt, tt)
  after_match-IsSorted rule originals i m false later fs e ih =
      let (f, ef, e') = >>=-eq-some (rule_finding rule originals i m) _ e in
      let (gs, eg, e'') = >>=-eq-some later _ e' in
      let (sorted, all) = ih gs eg in
      rw (← some_inj e'') (
        before_later f i rule originals gs (rule_finding_lem rule originals i m f ef).0 all,
        sorted,
      )

  pub rule_findings-IsSorted :
      (rule : Rule) (originals : List Text) (i : ℕ) (lines : List Text) (fs : List Finding)
      → rule_findings rule originals i lines ≡ some fs
      → IsSorted finding_le fs
  unfolding rule_findings
  rule_findings-IsSorted rule originals i [] fs e = rw (← some_inj e) tt
  rule_findings-IsSorted rule originals i (line ∷ lines) fs e =
      elim (Option-cases (search rule.pattern line)) [
        | inl none_found ↦
            rule_findings-IsSorted rule originals (suc i) lines fs
              (rw (rule_findings, none_found) at e)
        | inr (m, hit) ↦
            after_match-IsSorted rule originals i m rule.once
              (rule_findings rule originals (suc i) lines) fs (rw (rule_findings, hit) at e)
              (λ gs eg. (
                rule_findings-IsSorted rule originals (suc i) lines gs eg,
                (rule_findings_lem rule originals (suc i) lines gs eg).1,
              ))
      ]

  of_rule-others :
      (rule : Rule) (id : Text) (originals : List Text) (fs : List Finding)
      → equal rule.id id ≡ false
      → All (λ f. (1 ≤ f.line) × IsFrom rule originals f) fs
      → filter (of_rule id) fs ≡ []
  of_rule-others rule id originals fs ne h = filter-eq_nil (of_rule id) fs (
      All-weaken (λ f. (1 ≤ f.line) × IsFrom rule originals f) (λ f. of_rule id f ≡ false) fs
        (λ f k. rw k.1.rule_id ne) h)

  -- A rule that is not in the table has no findings.
  pub table_findings-absent :
      (table : List Rule) (s : Scanned) (id : Text) (fs : List Finding)
      → contains id (ids table) ≡ false
      → table_findings table s ≡ some fs
      → filter (of_rule id) fs ≡ []
  unfolding table_findings contains
  table_findings-absent [] s id fs h e = rw (← some_inj e) refl
  table_findings-absent (rule ∷ table) s id fs h e =
      let (gs, eg, e') = >>=-eq-some (rule_findings rule s.original_lines 1 s.lines) _ e in
      let (later, el, e'') = >>=-eq-some (table_findings table s) _ e' in
      rw (← some_inj e'') (
        filter-append (of_rule id) gs later
        ∙ ap (λ x. x ++ filter (of_rule id) later)
            (of_rule-others rule id s.original_lines gs (ground (arith, equal_sym id rule.id))
              (rule_findings_lem rule s.original_lines 1 s.lines gs eg).1)
        ∙ table_findings-absent table s id later (ground arith) el)

  -- A rule of the table has the findings of its own loop.
  pub table_findings-present :
      (table : List Rule) (s : Scanned) (k : ℕ) (rule : Rule) (fs : List Finding)
      → Distinct (ids table)
      → get_elem? table k ≡ some rule
      → table_findings table s ≡ some fs
      → rule_findings rule s.original_lines 1 s.lines ≡ some (filter (of_rule rule.id) fs)
  unfolding table_findings
  table_findings-present [] s k rule fs d at_k e = cc
  table_findings-present (r ∷ table) s zero rule fs d at_k e =
      let (gs, eg, e') = >>=-eq-some (rule_findings r s.original_lines 1 s.lines) _ e in
      let (later, el, e'') = >>=-eq-some (table_findings table s) _ e' in
      let all = (rule_findings_lem r s.original_lines 1 s.lines gs eg).1 in
      let own = filter-eq_self (of_rule r.id) gs (
        All-weaken (λ f. (1 ≤ f.line) × IsFrom r s.original_lines f) (λ f. of_rule r.id f ≡ true) gs
          (λ f k. rw k.1.rule_id (equal_refl r.id)) all) in
      rw (← some_inj at_k, ← some_inj e'')
        (eg
          ∙ ap some (
              sym (
                filter-append (of_rule r.id) gs later
                ∙ ap (λ x. x ++ filter (of_rule r.id) later) own
                ∙ ap (λ x. gs ++ x) (table_findings-absent table s r.id later d.0 el)
                ∙ append-nil gs)))
  table_findings-present (r ∷ table) s (suc k) rule fs d at_k e =
      let (gs, eg, e') = >>=-eq-some (rule_findings r s.original_lines 1 s.lines) _ e in
      let (later, el, e'') = >>=-eq-some (table_findings table s) _ e' in
      let none_here =
        of_rule-others r rule.id s.original_lines gs (id_ne r table k rule d.0 at_k)
          (rule_findings_lem r s.original_lines 1 s.lines gs eg).1 in
      rw (← some_inj e'') (
        table_findings-present table s k rule later d.1 at_k el
        ∙ ap some (
            sym (
              filter-append (of_rule rule.id) gs later
              ∙ ap (λ x. x ++ filter (of_rule rule.id) later) none_here)))
    where
      id_ne :
          (r : Rule) (table : List Rule) (k : ℕ) (rule : Rule)
          → contains r.id (ids table) ≡ false
          → get_elem? table k ≡ some rule
          → equal r.id rule.id ≡ false
      id_ne r [] k rule h e = cc
      id_ne r (q ∷ table) zero rule h e =
          rw (← some_inj e) (unfold contains in ground (arith, equal_sym r.id q.id))
      id_ne r (q ∷ table) (suc k) rule h e =
          id_ne r table k rule (unfold contains in ground arith) e

  -- Each finding of the table's loop is of a rule of the table.
  pub table_findings-known :
      (table : List Rule) (s : Scanned) (fs : List Finding)
      → table_findings table s ≡ some fs
      → All (λ f. contains f.rule (ids table) ≡ true) fs
  unfolding table_findings contains
  table_findings-known [] s fs e = rw (← some_inj e) tt
  table_findings-known (rule ∷ table) s fs e =
      let (gs, eg, e') = >>=-eq-some (rule_findings rule s.original_lines 1 s.lines) _ e in
      let (later, el, e'') = >>=-eq-some (table_findings table s) _ e' in
      let Known : Finding → Type 0 = λ f. contains f.rule (ids (rule ∷ table)) ≡ true in
      rw (← some_inj e'') (
        All-append Known gs later
          (All-weaken (λ f. (1 ≤ f.line) × IsFrom rule s.original_lines f) Known gs
            (λ f k. rw (k.1.rule_id, equal_refl rule.id) refl)
            (rule_findings_lem rule s.original_lines 1 s.lines gs eg).1)
          (All-weaken (λ f. contains f.rule (ids table) ≡ true) Known later (λ f k. ground arith)
            (table_findings-known table s later el)))
