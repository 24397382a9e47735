-- ===== src/Regex/Spans.antt =====
-- What a match takes from the text, and what holds between its two ends.
use mathlib.Core.List.{append_assoc}
use jenkins_to_actions_migra.Prelude.{
  ℕ, ◌-◌, List, [], ◌∷◌, ◌++◌, ◌≡◌, refl, sym, ap, ◌∙◌, inl, inr, Option, none, some, Option-cases,
  some_inj, Text, All, length, length-append, take, arith,
}
use jenkins_to_actions_migra.Unicode.{Unicode}
use jenkins_to_actions_migra.Regex.{Regex}
use jenkins_to_actions_migra.Regex.Match.{
  State, run, between, Match, first_match, skip, start_at, match_at, search_from,
}
use jenkins_to_actions_migra.Regex.Steps.{Each-Always, Always, run-steps}

-- The second position is behind the first one.
abbrev pub Behind : State → State → Type 0
Behind s t = (w : Text) × (s.rest ≡ w ++ t.rest)

Behind-trans : (s t v : State) → Behind s t → Behind t v → Behind s v
Behind-trans s t v (w, e) (w', e') =
    (w ++ w', e ∙ ap (λ x. w ++ x) e' ∙ sym (append_assoc w w' v.rest))

pub run-Behind : ⦃u : Unicode⦄ → (r : Regex) (s : State) → All (Behind s) (run r s)
run-Behind r s =
    run-steps Behind Always Always (λ s. ([], refl)) Behind-trans (λ n s t g h. h)
      (λ t c b s g p e. (c ∷ [], refl)) r s (Each-Always r)

take-length_append : (w v : Text) → take (length w) (w ++ v) ≡ w
take-length_append [] v = refl
take-length_append (c ∷ w) v = ap (λ x. c ∷ x) (take-length_append w v)

-- The text between two positions and the text after the second make up the text after the first.
pub between-append : (s t : State) → Behind s t → between s t ++ t.rest ≡ s.rest
between-append s t (w, e) =
    let n : length s.rest - length t.rest ≡ length w =
      omega (arith, ap length e, length-append w t.rest) in
    rw (n, e) (ap (λ x. x ++ t.rest) (take-length_append w t.rest))

-- A match found from `s`: where it begins, and what holds between its ends.
pub record Found (Q : State → State → Type 0) (s : Text) (m : Match) : Type 0 where
  pub left : Text
  pub begin : Text
  pub skips : s ≡ m.skipped ++ begin
  pub holds : Q (start_at left begin) m.final
  pub takes : m.text ≡ between (start_at left begin) m.final

first_match-Found :
    (Q : State → State → Type 0) (b s : Text) (ts : List State) (m : Match)
    → All (Q (start_at b s)) ts
    → first_match (start_at b s) ts ≡ some m
    → Found Q s m
first_match-Found Q b s [] m h e = cc
first_match-Found Q b s (t ∷ ts) m h e =
    rw (← some_inj e) (record { left = b; begin = s; skips = refl; holds = h.0; takes = refl })

skip-Found :
    (Q : State → State → Type 0) (c : ℕ) (s : Text) (o : Option Match) (m : Match)
    → ((n : Match) → o ≡ some n → Found Q s n)
    → skip c o ≡ some m
    → Found Q (c ∷ s) m
skip-Found Q c s none m h e = cc
skip-Found Q c s (some n) m h e =
    let f = h n refl in
    rw (← some_inj e) (record {
      left = f.left;
      begin = f.begin;
      skips = ap (λ x. c ∷ x) f.skips;
      holds = f.holds;
      takes = f.takes;
    })

module _ ⦃u : Unicode⦄ (Q : State → State → Type 0) (r : Regex)
    (runs : (s : State) → All (Q s) (run r s)) where
  pub search_from-Found : (b s : Text) (m : Match) → search_from r b s ≡ some m → Found Q s m
  unfolding search_from
  search_from-Found b [] m e =
      first_match-Found Q b [] (run r (start_at b [])) m (runs (start_at b [])) e
  search_from-Found b (c ∷ s) m e = elim (Option-cases (match_at r b (c ∷ s))) [
    | inl h ↦
        skip-Found Q c s (search_from r (c ∷ b) s) m (search_from-Found (c ∷ b) s)
          (rw (search_from, h) at e)
    | inr (n, h) ↦
        first_match-Found Q b (c ∷ s) (run r (start_at b (c ∷ s))) m (runs (start_at b (c ∷ s)))
          (h ∙ (rw (search_from, h) at e))
  ]

module _ ⦃u : Unicode⦄ (r : Regex) where
  -- A match splits the text into what was skipped, what was matched and what is left.
  pub search_from-splits :
      (b s : Text) (m : Match)
      → search_from r b s ≡ some m
      → s ≡ m.skipped ++ (m.text ++ m.final.rest)
  search_from-splits b s m e =
      let f = search_from-Found Behind r (run-Behind r) b s m e in
      f.skips
      ∙ ap (λ x. m.skipped ++ x)
          (sym (between-append (start_at f.left f.begin) m.final f.holds)
            ∙ ap (λ x. x ++ m.final.rest) (sym f.takes))
