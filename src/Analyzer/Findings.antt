-- ===== src/Analyzer/Findings.antt =====
-- What `analyze_text` of tools/migration-analyzer/src/migration_analyzer/analyzer.py reports: the
-- findings of each rule, and the order of all findings.
use jenkins_to_actions_migra.Prelude.{
  ℕ, suc, ◌≤◌, ◌<◌, ◌⊎◌, ltb, text_le, Bool-cases, Bool, true, false, List, [], ◌∷◌, ◌≡◌, refl, ap,
  inl, inr, Option, none, some, map, Text, get_elem?, ◌-◌, All, All-weaken, take, >>=-eq-some,
  some_inj, Option-cases, text_le_total, text_le_trans, arith, if◌then◌else◌,
}
use jenkins_to_actions_migra.Prelude.Sorting.{IsSorted}
use jenkins_to_actions_migra.Unicode.{Unicode}
use jenkins_to_actions_migra.Unicode.Strip.{Stripped, strip-Stripped}
use jenkins_to_actions_migra.Regex.{Regex}
use jenkins_to_actions_migra.Regex.Match.{Match, search}
use jenkins_to_actions_migra.Model.{Finding}
use jenkins_to_actions_migra.Rules.Entry.{Rule}
use jenkins_to_actions_migra.Analyzer.{
  snippet_at, rule_finding, after_match, rule_findings, finding_le,
}

-- The comparison of findings is total and transitive.
pub finding_le_total : (f g : Finding) → finding_le f g ≡ false → finding_le g f ≡ true
unfolding finding_le
finding_le_total f g h = ground (arith, text_le_total f.rule g.rule)

pub finding_le_trans :
    (f g h : Finding) → finding_le f g ≡ true → finding_le g h ≡ true → finding_le f h ≡ true
unfolding finding_le
finding_le_trans f g h p q = ground (arith, text_le_trans f.rule g.rule h.rule)

-- `f` stands on an earlier line, or on the same line with a rule that is not later.
abbrev pub InOrder : Finding → Finding → Type 0
InOrder f g = (f.line < g.line) ⊎ ((f.line ≡ g.line) × (text_le f.rule g.rule ≡ true))

-- Each element is related to all later ones.
abbrev pub Pairwise : (Finding → Finding → Type 0) → List Finding → Type 0
Pairwise R [] = Unit
Pairwise R (f ∷ fs) = All (λ g. R f g) fs × Pairwise R fs

finding_le-InOrder : (f g : Finding) → finding_le f g ≡ true → InOrder f g
unfolding finding_le
finding_le-InOrder f g h = elim (Bool-cases (ltb f.line g.line)) [
  | inl e ↦ inl (ground arith)
  | inr e ↦ inr (ground arith, ground arith)
]

pub IsSorted-Pairwise : (fs : List Finding) → IsSorted finding_le fs → Pairwise InOrder fs
IsSorted-Pairwise [] h = tt
IsSorted-Pairwise (f ∷ fs) h = (
  All-weaken (λ g. finding_le f g ≡ true) (λ g. InOrder f g) fs (finding_le-InOrder f) h.0,
  IsSorted-Pairwise fs h.1,
)

-- The numbers of the lines, counted from `i`, in which the pattern is found.
module _ ⦃u : Unicode⦄ where
  abbrev is_hit : Option Match → Bool
  is_hit none = false
  is_hit (some m) = true

  abbrev pub hit_lines : Regex → ℕ → List Text → List ℕ
  hit_lines pattern i [] = []
  hit_lines pattern i (line ∷ lines) =
      let later = hit_lines pattern (suc i) lines in
      if is_hit (search pattern line) then i ∷ later else later

-- All of them, or the first alone.
abbrev pub limit : Bool → List ℕ → List ℕ
limit once is = if once then take 1 is else is

-- A finding of the rule, whose snippet is the original line without the white space around it.
pub record IsFrom (rule : Rule) (originals : List Text) (f : Finding) : Type 0 where
  pub rule_id : f.rule ≡ rule.id
  pub category : f.category ≡ rule.category
  pub title : f.title ≡ rule.title
  pub equivalent : f.actions_equivalent ≡ rule.actions_equivalent
  pub note : f.note ≡ rule.note
  pub snippet :
      (line : Text) × (get_elem? originals (f.line - 1) ≡ some line) × Stripped line f.snippet

pub snippet_at_lem :
    (originals : List Text) (i : ℕ) (x : Text)
    → snippet_at originals i ≡ some x
    → (line : Text) × (get_elem? originals (i - 1) ≡ some line) × Stripped line x
unfolding snippet_at
snippet_at_lem originals i x e =
    let (line, el, e') = >>=-eq-some (get_elem? originals (i - 1)) _ e in
    (line, el, rw (← some_inj e') (strip-Stripped line))

pub rule_finding_lem :
    (rule : Rule) (originals : List Text) (i : ℕ) (m : Match) (f : Finding)
    → rule_finding rule originals i m ≡ some f
    → (f.line ≡ i) × IsFrom rule originals f
unfolding rule_finding
rule_finding_lem rule originals i m f e =
    let (x, ex, e') = >>=-eq-some (snippet_at originals i) _ e in
    rw (← some_inj e') (
      refl,
      record {
        rule_id = refl;
        category = refl;
        title = refl;
        equivalent = refl;
        note = refl;
        snippet = snippet_at_lem originals i x ex;
      },
    )

-- What the inner loop returns for the lines from `i`.
abbrev pub Reports : Rule → List Text → ℕ → List ℕ → List Finding → Type 0
Reports rule originals i hits fs =
    (map (λ f. f.line) fs ≡ limit rule.once hits)
    × All (λ f. (i ≤ f.line) × IsFrom rule originals f) fs

module _ ⦃u : Unicode⦄ where
  after_match_lem :
      (rule : Rule) (originals : List Text) (i : ℕ) (m : Match) (hits : List ℕ) (once : Bool)
      (later : Option (List Finding)) (fs : List Finding)
      → after_match once (rule_finding rule originals i m) later ≡ some fs
      → ((gs : List Finding)
          → later ≡ some gs
          → (map (λ f. f.line) gs ≡ limit once hits)
            × All (λ f. (suc i ≤ f.line) × IsFrom rule originals f) gs)
      → (map (λ f. f.line) fs ≡ limit once (i ∷ hits))
        × All (λ f. (i ≤ f.line) × IsFrom rule originals f) fs
  after_match_lem rule originals i m hits true later fs e ih =
      let (f, ef, e') = >>=-eq-some (rule_finding rule originals i m) _ e in
      let (at_line, from) = rule_finding_lem rule originals i m f ef in
      rw (← some_inj e') (ap (λ x. x ∷ []) at_line, ((omega arith, from), tt))
  after_match_lem rule originals i m hits false later fs e ih =
      let (f, ef, e') = >>=-eq-some (rule_finding rule originals i m) _ e in
      let (gs, eg, e'') = >>=-eq-some later _ e' in
      let (at_line, from) = rule_finding_lem rule originals i m f ef in
      let (lines, all) = ih gs eg in
      rw (← some_inj e'') (
        rw (at_line, lines) refl,
        (
          (omega arith, from),
          All-weaken (λ f. (suc i ≤ f.line) × IsFrom rule originals f)
              (λ f. (i ≤ f.line) × IsFrom rule originals f) gs (λ f h. (omega arith, h.1)) all,
        ),
      )

  pub rule_findings_lem :
      (rule : Rule) (originals : List Text) (i : ℕ) (lines : List Text) (fs : List Finding)
      → rule_findings rule originals i lines ≡ some fs
      → Reports rule originals i (hit_lines rule.pattern i lines) fs
  unfolding rule_findings
  rule_findings_lem rule originals i [] fs e = rw (← some_inj e) (limit_nil rule.once, tt)
    where
      limit_nil : (b : Bool) → [] ≡ limit b []
      limit_nil true = refl
      limit_nil false = refl
  rule_findings_lem rule originals i (line ∷ lines) fs e =
      elim (Option-cases (search rule.pattern line)) [
        | inl none_found ↦
            let later =
              rule_findings_lem rule originals (suc i) lines fs
                (rw (rule_findings, none_found) at e) in
            rw none_found (
              later.0,
              All-weaken (λ f. (suc i ≤ f.line) × IsFrom rule originals f)
                  (λ f. (i ≤ f.line) × IsFrom rule originals f) fs (λ f h. (omega arith, h.1))
                  later.1,
            )
        | inr (m, hit) ↦ rw hit (
            after_match_lem rule originals i m (hit_lines rule.pattern (suc i) lines) rule.once
              (rule_findings rule originals (suc i) lines) fs (rw (rule_findings, hit) at e)
              (rule_findings_lem rule originals (suc i) lines))
      ]
