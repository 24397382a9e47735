-- ===== src/Regex/Avoids.antt =====
-- Patterns that cannot take a given character, and what the groups of a match consist of.
use jenkins_to_actions_migra.Prelude.{
  ℕ, Bool, true, false, not, ◌&&◌, [], ◌∷◌, ◌++◌, ◌≡◌, refl, sym, ap, ◌∙◌, some, Text, All,
  All-take, count, &&-eq_true, arith, ◌==◌, ==_iff, if◌then◌else◌,
}
use jenkins_to_actions_migra.Unicode.{Unicode}
use jenkins_to_actions_migra.Regex.{Test, Regex, char, seq, alt, star, group, accepts}
use jenkins_to_actions_migra.Regex.Match.{
  Groups, State, Match, run, search_from, find_group, group_text, text_or_empty,
}
use jenkins_to_actions_migra.Regex.Steps.{Each, Each-Always, Always, run-steps}
use jenkins_to_actions_migra.Regex.Spans.{search_from-Found, search_from-splits}
use jenkins_to_actions_migra.Regex.Sub.{count-append, All-suffix}

-- No test of the expression accepts `c`.
unfoldable pub avoids : ℕ → Regex → Bool
avoids c (char t) = not (accepts t c)
avoids c (seq a b) = avoids c a && avoids c b
avoids c (alt a b) = avoids c a && avoids c b
avoids c (star g a) = avoids c a
avoids c (group n a) = avoids c a
avoids c _ = true

abbrev Rejects : ℕ → Test → Type 0
Rejects c t = accepts t c ≡ false

avoids-Each : (c : ℕ) (r : Regex) → avoids c r ≡ true → Each (Rejects c) Always r
unfolding avoids
avoids-Each c (char t) h = ground arith
avoids-Each c (seq a b) h =
    let (p, q) = &&-eq_true (avoids c a) (avoids c b) h in (avoids-Each c a p, avoids-Each c b q)
avoids-Each c (alt a b) h =
    let (p, q) = &&-eq_true (avoids c a) (avoids c b) h in (avoids-Each c a p, avoids-Each c b q)
avoids-Each c (star g a) h = avoids-Each c a h
avoids-Each c (group n a) h = (tt, avoids-Each c a h)
avoids-Each c _ h = tt

count-cons_ne :
    (t : Test) (c x : ℕ) (s : Text) → Rejects c t → accepts t x ≡ true → count c (x ∷ s) ≡ count c s
unfolding count
count-cons_ne t c x s h k =
    let ne : (x == c) ≡ true → true ≡ false = λ e. sym k ∙ ap (accepts t) ((==_iff x c).0 e) ∙ h in
    ground (arith, ne)

abbrev SameCount : ℕ → State → State → Type 0
SameCount c s t = count c s.rest ≡ count c t.rest

module _ ⦃u : Unicode⦄ where
  run-SameCount :
      (c : ℕ) (r : Regex) → avoids c r ≡ true → (s : State) → All (SameCount c s) (run r s)
  run-SameCount c r h s =
      run-steps (SameCount c) (Rejects c) Always (λ s. refl) (λ s t v e e'. e ∙ e') (λ n s t g e. e)
        (λ t x b s g p k. count-cons_ne t c x s p k) r s (avoids-Each c r h)

  -- A match of a pattern that avoids `c` has no `c` in it.
  pub avoids-match :
      (c : ℕ) (r : Regex) (b s : Text) (m : Match)
      → avoids c r ≡ true
      → search_from r b s ≡ some m
      → count c m.text ≡ 0
  avoids-match c r b s m h e =
      let f = search_from-Found (SameCount c) r (run-SameCount c r h) b s m e in
      omega (
        arith,
        f.holds,
        ap (count c) (search_from-splits r b s m e),
        ap (count c) f.skips,
        count-append c m.skipped (m.text ++ m.final.rest),
        count-append c m.skipped f.begin,
        count-append c m.text m.final.rest,
      )

-- The text left and the groups have only characters in `P`.
abbrev Within : (ℕ → Type 0) → State → Type 0
Within P s = All P s.rest × All (λ g. All P g.1) s.groups

abbrev KeepsWithin : (ℕ → Type 0) → State → State → Type 0
KeepsWithin P s t = Within P s → Within P t

find_group-All :
    (P : ℕ → Type 0) (n : ℕ) (gs : Groups)
    → All (λ g. All P g.1) gs
    → All P (text_or_empty (find_group n gs))
unfolding find_group
find_group-All P n [] h = tt
find_group-All P n ((k, t) ∷ gs) h =
    elim (k == n) as (λ b. All P (text_or_empty (if b then some t else find_group n gs))) [
      | true ↦ h.0
      | false ↦ find_group-All P n gs h.1
    ]

module _ ⦃u : Unicode⦄ (P : ℕ → Type 0) (r : Regex) where
  run-KeepsWithin : (s : State) → All (KeepsWithin P s) (run r s)
  run-KeepsWithin s =
      run-steps (KeepsWithin P) Always Always (λ s h. h) (λ s t v f g h. g (f h))
        (λ n s t i f h. ((f h).0, (All-take P _ s.rest h.0, (f h).1)))
        (λ t c b s g p e h. (h.0.1, h.1)) r s (Each-Always r)

  -- The groups of a match consist of characters of the text.
  pub group_text-All :
      (n : ℕ) (b s : Text) (m : Match)
      → search_from r b s ≡ some m
      → All P s
      → All P (group_text n m)
  unfolding group_text
  group_text-All n b s m e h =
      let f = search_from-Found (KeepsWithin P) r run-KeepsWithin b s m e in
      find_group-All P n m.final.groups
        (f.holds (All-suffix P m.skipped f.begin (rw f.skips at h), tt)).1
