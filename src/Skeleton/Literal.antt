-- ===== src/Skeleton/Literal.antt =====
-- hack/render-skeleton.py: a quoted literal of the template language is rendered to the text in it.
use jenkins_to_actions_migra.Prelude.{
  ℕ, zero, suc, ◌-◌, ◌≤◌, true, false, not, Bool-cases, ltb, Text, codes, [], ◌∷◌, ◌++◌, List, ◌≡◌,
  refl, ap, ◌∙◌, inl, inr, some, none, ◌==◌, ==_iff, length, length-append, flat_map, map, take,
  arith,
}
use jenkins_to_actions_migra.Unicode.{Unicode}
use jenkins_to_actions_migra.Regex.{
  Regex, Test, char, seq, alt, star, group, one_of, none_of, space, span, accepts,
}
use jenkins_to_actions_migra.Regex.Match.{
  State, Match, between, capture, run, eat, rounds, search_from, sub, group_text,
}
use jenkins_to_actions_migra.Regex.Steps.{at}
use jenkins_to_actions_migra.Regex.Once.{sub-once}
use jenkins_to_actions_migra.Regex.Starts.{Without}
use jenkins_to_actions_migra.Skeleton.{literal, values, expand, single_quotes, render}
use jenkins_to_actions_migra.Skeleton.Plain.{expand-none}
use jenkins_to_actions_migra.Skeleton.Quotes.{doubled, single_quotes-doubled}

-- What stands behind the text of a literal.
abbrev closing : Text
closing = codes "' }}"

abbrev quote : Test
quote = one_of (span b'\'' b'\'' ∷ [])

abbrev unquoted : Test
unquoted = none_of (span b'\'' b'\'' ∷ [])

-- One character of a literal: no quote, or two.
abbrev letter : Regex
letter = alt (char unquoted) (seq (char quote) (char quote))

accepts-quote : (c : ℕ) → accepts quote c ≡ (c == b'\'')
unfolding accepts
accepts-quote c = ground arith

accepts-unquoted : (c : ℕ) → accepts unquoted c ≡ not (c == b'\'')
unfolding accepts
accepts-unquoted c = ground arith

accepts_self : (c : ℕ) → accepts (one_of (span c c ∷ [])) c ≡ true
unfolding accepts
accepts_self c = ground arith

shorter_one : (n : ℕ) → ltb n (suc n) ≡ true
shorter_one n = ground arith

shorter_two : (n : ℕ) → ltb n (suc (suc n)) ≡ true
shorter_two n = ground arith

module _ ⦃u : Unicode⦄ where
  plain_letter :
      (f c : ℕ) (b s : Text) (g : List (ℕ × Text))
      → (c == b'\'') ≡ false
      → rounds true (run letter) (suc f) (at b (c ∷ s) g)
        ≡ rounds true (run letter) f (at (c ∷ b) s g) ++ [] ++ at b (c ∷ s) g ∷ []
  unfolding rounds run eat
  plain_letter f c b s g e =
      rw (accepts-unquoted c, accepts-quote c, e, shorter_one (length s)) refl

  quote_letter :
      (f : ℕ) (b s : Text) (g : List (ℕ × Text))
      → rounds true (run letter) (suc f) (at b (b'\'' ∷ b'\'' ∷ s) g)
        ≡ rounds true (run letter) f (at (b'\'' ∷ b'\'' ∷ b) s g)
          ++ []
          ++ at b (b'\'' ∷ b'\'' ∷ s) g ∷ []
  unfolding rounds run eat accepts
  quote_letter f b s g = rw (shorter_two (length s)) refl

  -- The greedy repetition takes the text first.
  all_letters :
      (f : ℕ) (b t : Text) (g : List (ℕ × Text))
      → length (doubled t ++ closing) ≤ f
      → (b' : Text) × (more : List State) × (rounds true
            (run letter)
            f
            (at b (doubled t ++ closing) g)
          ≡ at b' closing g ∷ more)
  unfolding rounds run eat doubled accepts
  all_letters zero b [] g h = absurd (omega arith)
  all_letters zero b (c ∷ t) g h = elim (Bool-cases (c == b'\'')) [
    | inl e ↦
        let h' : suc (suc (length (doubled t ++ closing))) ≤ 0 = rw e at h in absurd (omega arith)
    | inr e ↦ let h' : suc (length (doubled t ++ closing)) ≤ 0 = rw e at h in absurd (omega arith)
  ]
  all_letters (suc f) b [] g h = (b, [], refl)
  all_letters (suc f) b (c ∷ t) g h = elim (Bool-cases (c == b'\'')) [
    | inl e ↦
        let same : c ≡ b'\'' = (==_iff c b'\'').0 e in
        let h' : suc (suc (length (doubled t ++ closing))) ≤ suc f = rw same at h in
        let (b', more, k) = all_letters f (b'\'' ∷ b'\'' ∷ b) t g (omega arith) in
        rw same (
          b',
          more ++ [] ++ at b (b'\'' ∷ b'\'' ∷ doubled t ++ closing) g ∷ [],
          quote_letter f b (doubled t ++ closing) g
              ∙ ap (λ x. x ++ [] ++ at b (b'\'' ∷ b'\'' ∷ doubled t ++ closing) g ∷ []) k,
        )
    | inr e ↦
        let h' : suc (length (doubled t ++ closing)) ≤ suc f = rw e at h in
        let (b', more, k) = all_letters f (c ∷ b) t g (omega arith) in
        rw e (
          b',
          more ++ [] ++ at b (c ∷ doubled t ++ closing) g ∷ [],
          plain_letter f c b (doubled t ++ closing) g e
              ∙ ap (λ x. x ++ [] ++ at b (c ∷ doubled t ++ closing) g ∷ []) k,
        )
  ]

take-length : (s t : Text) → take (length (s ++ t) - length t) (s ++ t) ≡ s
take-length [] t = let e : length t - length t ≡ 0 = omega arith in rw e refl
take-length (c ∷ s) t =
    let e : suc (length (s ++ t)) - length t ≡ suc (length (s ++ t) - length t) =
      omega (arith, length-append s t) in
    rw e (ap (λ x. c ∷ x) (take-length s t))

-- The first of the ways to match.
abbrev First : List State → State → Type 0
First ways s = (more : List State) × (ways ≡ s ∷ more)

abbrev one : ℕ → Regex
one c = char (one_of (span c c ∷ []))

abbrev spaces : Regex
spaces = star true (char (one_of (space ∷ [])))

module _ ⦃u : Unicode⦄ where
  seq-First :
      (a r : Regex) (s s' s'' : State)
      → First (run a s) s'
      → First (run r s') s''
      → First (run (seq a r) s) s''
  unfolding run
  seq-First a r s s' s'' (more, e) (more', e') = (
    more' ++ flat_map (run r) more,
    ap (flat_map (run r)) e ∙ ap (λ x. x ++ flat_map (run r) more) e',
  )

  one-First :
      (c : ℕ) (b s : Text) (g : List (ℕ × Text))
      → First (run (one c) (at b (c ∷ s) g)) (at (c ∷ b) s g)
  unfolding run eat
  one-First c b s g = ([], rw (accepts_self c) refl)

  spaces-First :
      (c : ℕ) (b s : Text) (g : List (ℕ × Text))
      → accepts (one_of (space ∷ [])) c ≡ false
      → First (run spaces (at b (b' ' ∷ c ∷ s) g)) (at (b' ' ∷ b) (c ∷ s) g)
  unfolding run eat accepts rounds
  spaces-First c b s g h = (at b (b' ' ∷ c ∷ s) g ∷ [], rw (shorter_one (suc (length s)), h) refl)

  group-First :
      (a : Regex) (s : State) (b t : Text)
      → First (run a s) (at b t [])
      → First (run (group 1 a) s) (at b t ((1, between s (at b t [])) ∷ []))
  unfolding run
  group-First a s b t (more, e) = (map (capture 1 s) more, ap (map (capture 1 s)) e)

module _ ⦃u : Unicode⦄ (t : Text) where
  abbrev quoted_literal : Text
  quoted_literal = codes "${{ '" ++ doubled t ++ closing

  -- The first way to match takes the whole text, with the text of the literal as its group.
  run-literal :
      (b : Text) × First (run literal (at [] quoted_literal [])) (at b [] ((1, doubled t) ∷ []))
  unfolding literal accepts
  run-literal =
      let (b, more, e) =
        all_letters (length (doubled t ++ closing)) (codes "' {{$") t [] (omega arith) in
      let s : State = at (codes "' {{$") (doubled t ++ closing) [] in
      let inner : First (run (star true letter) s) (at b closing []) = unfold run in (more, e) in
      let kept = take-length (doubled t) closing in
      let grouped : First (run (group 1 (star true letter)) s)
          (at b closing ((1, doubled t) ∷ [])) =
        (let whole = group-First (star true letter) s b closing inner in rw kept at whole) in
      (
        codes "}} '" ++ b,
        seq-First _ _ _ _ _ (one-First _ _ _ _) (
            seq-First _ _ _ _ _ (one-First _ _ _ _) (
              seq-First _ _ _ _ _ (one-First _ _ _ _) (
                seq-First _ _ _ _ _ (spaces-First _ _ _ _ refl) (
                  seq-First _ _ _ _ _ (one-First _ _ _ _) (
                    seq-First _ _ _ _ _ grouped (
                      seq-First _ _ _ _ _ (one-First _ _ _ _) (
                        seq-First _ _ _ _ _ (spaces-First _ _ _ _ refl)
                          (seq-First _ _ _ _ _ (one-First _ _ _ _) (one-First _ _ _ _))))))))),
      )

  abbrev found : Text → Match
  found b = record {
    skipped = [];
    text = between (at [] quoted_literal []) (at b [] ((1, doubled t) ∷ []));
    final = at b [] ((1, doubled t) ∷ []);
  }

  search-literal : (b : Text) × (search_from literal [] quoted_literal ≡ some (found b))
  unfolding search_from
  search-literal = let (b, first) = run-literal in (b, rw (search_from, first.1) refl)

  search_end : (b : Text) → search_from literal b [] ≡ none
  unfolding search_from run eat literal
  search_end b = refl

  -- A text without a dollar sign that is written as a quoted literal, its quotes doubled, is rendered
  -- to the text.
  pub render-literal : Without b'$' t → render (codes "${{ '" ++ doubled t ++ codes "' }}") ≡ t
  unfolding render group_text
  render-literal h =
      let (b, e) = search-literal in
      let read : sub literal (λ m. single_quotes false (group_text 1 m)) quoted_literal ≡ t =
        sub-once literal (λ m. single_quotes false (group_text 1 m)) b'$'
          (codes "{{ '" ++ doubled t ++ closing) (found b) e refl (search_end b)
        ∙ single_quotes-doubled t in
      ap (expand values) read ∙ expand-none values t h
