-- ===== src/Regex/Sub.antt =====
-- `finditer` and `sub`: what a property of every match gives for all matches and for the new text.
use jenkins_to_actions_migra.Prelude.{
  ℕ, zero, suc, ◌+◌, List, [], ◌∷◌, ◌++◌, ◌≡◌, refl, ap, inl, inr, none, some, map, Option-cases,
  Text, All, All-append, length, count, concat, arith,
}
use jenkins_to_actions_migra.Unicode.{Unicode}
use jenkins_to_actions_migra.Regex.{Regex}
use jenkins_to_actions_migra.Regex.Match.{Match, search_from, matches_from, find_iter, sub}
use jenkins_to_actions_migra.Regex.Spans.{search_from-splits}

pub count-append : (c : ℕ) (s t : Text) → count c (s ++ t) ≡ count c s + count c t
unfolding count
count-append c [] t = omega arith
count-append c (x ∷ s) t = ground (arith, count-append c s t)

pub All-prefix {ℓ} : {A : Type 0} (P : A → Type ℓ) (s t : List A) → All P (s ++ t) → All P s
All-prefix P [] t h = tt
All-prefix P (x ∷ s) t h = (h.0, All-prefix P s t h.1)

pub All-suffix {ℓ} : {A : Type 0} (P : A → Type ℓ) (s t : List A) → All P (s ++ t) → All P t
All-suffix P [] t h = h
All-suffix P (x ∷ s) t h = All-suffix P s t h.1

module _ ⦃u : Unicode⦄ (r : Regex) where
  -- The matches and the tail put together again, with `replacement` in place of each match.
  abbrev pub rebuilt : (Match → Text) → List Match × Text → Text
  rebuilt replacement p = concat (map (λ m. m.skipped ++ replacement m) p.0) ++ p.1

  pub matches_from-none :
      (f : ℕ) (b s : Text) → search_from r b s ≡ none → matches_from (suc f) r b s ≡ ([], s)
  unfolding matches_from
  matches_from-none f b s e = rw (matches_from, e) refl

  pub matches_from-some :
      (f : ℕ) (b s : Text) (m : Match)
      → search_from r b s ≡ some m
      → matches_from (suc f) r b s ≡ (
        m ∷ (matches_from f r m.final.before m.final.rest).0,
        (matches_from f r m.final.before m.final.rest).1,
      )
  unfolding matches_from
  matches_from-some f b s m e = rw (matches_from, e) refl

  -- A substitution that keeps the number of `c` in each match keeps it in the text.
  module _ (c : ℕ) (replacement : Match → Text)
      (keeps : (b s : Text) (m : Match)
        → search_from r b s ≡ some m
        → count c (replacement m) ≡ count c m.text) where
    count-rebuilt :
        (f : ℕ) (b s : Text) → count c (rebuilt replacement (matches_from f r b s)) ≡ count c s
    unfolding matches_from
    count-rebuilt zero b s = refl
    count-rebuilt (suc f) b s = elim (Option-cases (search_from r b s)) [
      | inl e ↦ rw (matches_from-none f b s e) refl
      | inr (m, e) ↦
          let later = matches_from f r m.final.before m.final.rest in
          let body = concat (map (λ m. m.skipped ++ replacement m) later.0) in
          rw (matches_from-some f b s m e) (
            omega (
              arith,
              keeps b s m e,
              ap (count c) (search_from-splits r b s m e),
              count-append c m.skipped (m.text ++ m.final.rest),
              count-append c m.text m.final.rest,
              count-append c ((m.skipped ++ replacement m) ++ body) later.1,
              count-append c (m.skipped ++ replacement m) body,
              count-append c m.skipped (replacement m),
              count-append c body later.1,
              count-rebuilt f m.final.before m.final.rest,
            ))
    ]

    pub count-sub : (s : Text) → count c (sub r replacement s) ≡ count c s
    unfolding sub
    count-sub s = count-rebuilt (length s) [] s

  -- A substitution whose replacements have only characters of a text in `P` stays in `P`.
  module _ (P : ℕ → Type 0) (replacement : Match → Text)
      (stays : (b s : Text) (m : Match)
        → search_from r b s ≡ some m
        → All P s
        → All P (replacement m)) where
    rebuilt-All :
        (f : ℕ) (b s : Text) → All P s → All P (rebuilt replacement (matches_from f r b s))
    unfolding matches_from
    rebuilt-All zero b s h = h
    rebuilt-All (suc f) b s h = elim (Option-cases (search_from r b s)) [
      | inl e ↦ rw (matches_from-none f b s e) h
      | inr (m, e) ↦
          let later = matches_from f r m.final.before m.final.rest in
          let body = concat (map (λ m. m.skipped ++ replacement m) later.0) in
          let parts = rw (search_from-splits r b s m e) at h in
          let behind = All-suffix P m.text m.final.rest (All-suffix P m.skipped _ parts) in
          let ih = rebuilt-All f m.final.before m.final.rest behind in
          rw (matches_from-some f b s m e) (
            All-append P ((m.skipped ++ replacement m) ++ body) later.1
              (All-append P (m.skipped ++ replacement m) body
                (All-append P m.skipped (replacement m) (All-prefix P m.skipped _ parts)
                  (stays b s m e h))
                (All-prefix P body later.1 ih))
              (All-suffix P body later.1 ih))
    ]

    pub sub-All : (s : Text) → All P s → All P (sub r replacement s)
    unfolding sub
    sub-All s h = rebuilt-All (length s) [] s h

  -- A property of every match of the pattern holds of all that `finditer` yields.
  module _ {ℓ} (Q : Match → Type ℓ)
      (each : (b s : Text) (m : Match) → search_from r b s ≡ some m → Q m) where
    matches_from-All : (f : ℕ) (b s : Text) → All Q (matches_from f r b s).0
    unfolding matches_from
    matches_from-All zero b s = tt
    matches_from-All (suc f) b s = elim (Option-cases (search_from r b s)) [
      | inl e ↦ rw (matches_from-none f b s e) tt
      | inr (m, e) ↦
          rw (matches_from-some f b s m e)
            (each b s m e, matches_from-All f m.final.before m.final.rest)
    ]

    pub find_iter-All : (s : Text) → All Q (find_iter r s)
    unfolding find_iter
    find_iter-All s = matches_from-All (length s) [] s
