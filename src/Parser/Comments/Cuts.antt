-- ===== src/Parser/Comments/Cuts.antt =====
-- tools/migration-analyzer/src/migration_analyzer/parser.py: the line comment pattern at one position
-- of a line.
use jenkins_to_actions_migra.Prelude.{
  ℕ, zero, suc, ◌-◌, ◌≤◌, true, false, not, ◌&&◌, Bool-cases, inl, inr, Text, List, [], ◌∷◌, ◌++◌,
  ◌≡◌, refl, ◌==◌, length, flat_map, map, arith, &&-eq_true, ltb, take,
}
use jenkins_to_actions_migra.Unicode.{Unicode}
use jenkins_to_actions_migra.Regex.{
  Regex, Test, char, seq, star, line_end, not_newline, none_of, one_of, span, accepts,
}
use jenkins_to_actions_migra.Regex.Match.{State, run, eat, rounds, capture, at_start, at_end}
use jenkins_to_actions_migra.Regex.Steps.{at}
use jenkins_to_actions_migra.Parser.Patterns.{line_comment}
use jenkins_to_actions_migra.Parser.Lines.{IsLine}
use jenkins_to_actions_migra.Parser.Comments.{slashes, is_guard}

shorter : (n : ℕ) → ltb n (suc n) ≡ true
shorter n = ground arith

-- A greedy run of `.` takes the rest of a line first.
rest_of_line :
    (f : ℕ) (b s : Text) (g : List (ℕ × Text))
    → IsLine s
    → length s ≤ f
    → (b' : Text) × (more : List State) × (rounds true
          (λ t. eat not_newline t.before t.rest t.groups)
          f
          (at b s g)
        ≡ at b' [] g ∷ more)
unfolding rounds eat accepts
rest_of_line zero b [] g h k = (b, [], refl)
rest_of_line zero b (c ∷ s) g h k = absurd (omega arith)
rest_of_line (suc f) b [] g h k = (b, [], refl)
rest_of_line (suc f) b (c ∷ s) g h k =
    let (b', more, e) = rest_of_line f (c ∷ b) s g h.1 (omega arith) in
    (b', (more ++ []) ++ at b (c ∷ s) g ∷ [], rw (h.0, shorter (length s), e) refl)

abbrev slash : Regex
slash = char (one_of (span b'/' b'/' ∷ []))

-- The pattern behind its group.
abbrev comment : Regex
comment = seq slash (seq slash (seq (star true (char not_newline)) (line_end false)))

abbrev opening : Test
opening = none_of (span b'"' b'"' ∷ span b'\'' b'\'' ∷ span b':' b':' ∷ [])

accepts-slash : (c : ℕ) → accepts (one_of (span b'/' b'/' ∷ [])) c ≡ (c == b'/')
unfolding accepts
accepts-slash c = ground arith

accepts-opening : (c : ℕ) → accepts opening c ≡ not (is_guard c)
unfolding accepts is_guard
accepts-opening c = ground arith

module _ ⦃u : Unicode⦄ where
  comment_none :
      (b s : Text) (g : List (ℕ × Text)) → slashes s ≡ false → run comment (at b s g) ≡ []
  unfolding run eat slashes
  comment_none b [] g h = refl
  comment_none b (x ∷ []) g h = elim (Bool-cases (x == b'/')) [
    | inl e ↦ rw (accepts-slash x, e) refl
    | inr e ↦ rw (accepts-slash x, e) refl
  ]
  comment_none b (x ∷ y ∷ s) g h = elim (Bool-cases (x == b'/')) [
    | inl e ↦
        let k : (y == b'/') ≡ false = rw e at h in rw (accepts-slash x, e, accepts-slash y, k) refl
    | inr e ↦ rw (accepts-slash x, e) refl
  ]

  comment_some :
      (b s : Text) (g : List (ℕ × Text))
      → slashes s ≡ true
      → IsLine s
      → (b' : Text) × (more : List State) × (run comment (at b s g) ≡ at b' [] g ∷ more)
  unfolding run eat slashes at_end
  comment_some b [] g h l = cc
  comment_some b (x ∷ []) g h l = cc
  comment_some b (x ∷ y ∷ s) g h l =
      let (b', more, e) = rest_of_line (length s) (y ∷ x ∷ b) s g l.1.1 (omega arith) in
      let both = &&-eq_true (x == b'/') (y == b'/') h in
      (
        b',
        (flat_map (run (line_end false)) more ++ []) ++ [],
        rw (accepts-slash x, both.0, accepts-slash y, both.1, e) refl,
      )

between_self : (s : Text) → take (length s - length s) s ≡ []
between_self s = let e : length s - length s ≡ 0 = omega arith in rw e refl

between_one : (c : ℕ) (t : Text) → take (suc (length t) - length t) (c ∷ t) ≡ c ∷ []
between_one c t = let e : suc (length t) - length t ≡ 1 = omega arith in rw e refl

-- The first way to match keeps `k` in its group and takes the rest of the line.
abbrev pub Cuts : Text → List State → Type 0
Cuts k ways = (b' : Text) × (more : List State) × (ways ≡ at b' [] ((1, k) ∷ []) ∷ more)

module _ ⦃u : Unicode⦄ where
  -- Behind the start of the line, or where no comment begins at the start.
  pub later-Cuts :
      (b : Text) (c : ℕ) (t : Text)
      → IsLine (c ∷ t)
      → (at_start false b && slashes (c ∷ t)) ≡ false
      → is_guard c ≡ false
      → slashes t ≡ true
      → Cuts (c ∷ []) (run line_comment (at b (c ∷ t) []))
  unfolding run eat line_comment at_start
  later-Cuts [] c t l n g h =
      let (b', more, e) = comment_some (c ∷ []) t ((1, c ∷ []) ∷ []) h l.1 in
      (
        b',
        more ++ [],
        rw
            (
              between_self (c ∷ t),
              comment_none [] (c ∷ t) ((1, []) ∷ []) n,
              accepts-opening c,
              g,
              between_one c t,
              e,
            )
            refl,
      )
  later-Cuts (d ∷ b) c t l n g h =
      let (b', more, e) = comment_some (c ∷ d ∷ b) t ((1, c ∷ []) ∷ []) h l.1 in
      (b', more ++ [], rw (accepts-opening c, g, between_one c t, e) refl)

  pub start-Cuts :
      (c : ℕ) (t : Text)
      → IsLine (c ∷ t)
      → slashes (c ∷ t) ≡ true
      → Cuts [] (run line_comment (at [] (c ∷ t) []))
  unfolding run eat line_comment at_start
  start-Cuts c t l h =
      let (b', more, e) = comment_some [] (c ∷ t) ((1, []) ∷ []) h l in
      (
        b',
        more
            ++ flat_map (run comment)
                (map (capture 1 (at [] (c ∷ t) [])) (eat opening [] (c ∷ t) [])),
        rw (between_self (c ∷ t), e) refl,
      )

  -- No comment begins here.
  pub no_cut :
      (b : Text) (c : ℕ) (t : Text)
      → (at_start false b && slashes (c ∷ t)) ≡ false
      → (not (is_guard c) && slashes t) ≡ false
      → run line_comment (at b (c ∷ t) []) ≡ []
  unfolding run eat line_comment at_start
  no_cut [] c t n h = elim (Bool-cases (is_guard c)) [
    | inl g ↦
        rw (between_self (c ∷ t), comment_none [] (c ∷ t) ((1, []) ∷ []) n, accepts-opening c, g)
          refl
    | inr g ↦
        rw
          (
            between_self (c ∷ t),
            comment_none [] (c ∷ t) ((1, []) ∷ []) n,
            accepts-opening c,
            g,
            between_one c t,
          )
          (rw (comment_none (c ∷ []) t ((1, c ∷ []) ∷ []) (rw g at h)) refl)
  ]
  no_cut (d ∷ b) c t n h = elim (Bool-cases (is_guard c)) [
    | inl g ↦ rw (accepts-opening c, g) refl
    | inr g ↦
        rw (accepts-opening c, g, between_one c t)
          (rw (comment_none (c ∷ d ∷ b) t ((1, c ∷ []) ∷ []) (rw g at h)) refl)
  ]

  pub no_cut_end : (b : Text) → run line_comment (at b [] []) ≡ []
  unfolding run eat line_comment at_start
  no_cut_end [] = refl
  no_cut_end (d ∷ b) = refl
