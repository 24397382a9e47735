-- ===== src/Regex/Captures.antt =====
-- Patterns of which every match captures a group, and how wide the captured text is at least.
use jenkins_to_actions_migra.Prelude.{
  ℕ, ◌+◌, ◌-◌, ◌≤◌, Bool, true, false, not, ◌&&◌, ◌||◌, [], ◌∷◌, ◌≡◌, ap, ◌∙◌, inl, inr, some, Text,
  All, All-append, All-flat_map, All-map, All-weaken, All-tabulate, length, length-append,
  length-take, Bool-cases, &&-eq_true, arith, leb, leb→le, ◌==◌,
}
use Prim.Native.Nat.{min}
use jenkins_to_actions_migra.Unicode.{Unicode}
use jenkins_to_actions_migra.Regex.{
  Test, Regex, empty, char, seq, alt, star, group, boundary, line_start, line_end, never, accepts,
}
use jenkins_to_actions_migra.Regex.Match.{
  Groups, State, Match, between, capture, eat, when, run, search_from, find_group, group_text,
  start_at,
}
use jenkins_to_actions_migra.Regex.Steps.{Each, Always, run-steps}
use jenkins_to_actions_migra.Regex.Spans.{search_from-Found, Behind, run-Behind}

-- The least number of characters that a match takes.
unfoldable pub min_width : Regex → ℕ
min_width (char t) = 1
min_width (seq a b) = min_width a + min_width b
min_width (alt a b) = min (min_width a) (min_width b)
min_width (group n a) = min_width a
min_width _ = 0

abbrev Consumes : ℕ → State → State → Type 0
Consumes n s t = n + length t.rest ≤ length s.rest

eat-Consumes :
    (t : Test) (b s : Text) (g : Groups) → All (λ v. 1 + length v.rest ≤ length s) (eat t b s g)
unfolding eat
eat-Consumes t b [] g = tt
eat-Consumes t b (c ∷ s) g = elim (Bool-cases (accepts t c)) [
  | inl e ↦ rw e (omega arith, tt)
  | inr e ↦ rw e tt
]

when-Consumes : (b : Bool) (s : State) → All (Consumes 0 s) (when b s)
when-Consumes true s = (omega arith, tt)
when-Consumes false s = tt

Consumes-Behind : (s t : State) → Behind s t → Consumes 0 s t
Consumes-Behind s t (w, e) = omega (arith, ap length e, length-append w t.rest)

module _ ⦃u : Unicode⦄ where
  pub run-Consumes : (r : Regex) (s : State) → All (Consumes (min_width r) s) (run r s)
  unfolding run min_width
  run-Consumes empty s = (omega arith, tt)
  run-Consumes (char t) s = eat-Consumes t s.before s.rest s.groups
  run-Consumes (seq a b) s =
      All-flat_map (Consumes (min_width a + min_width b) s) (run b) (run a s) (
        All-weaken (Consumes (min_width a) s)
          (λ t. All (Consumes (min_width a + min_width b) s) (run b t)) (run a s)
          (λ t h.
            All-weaken (Consumes (min_width b) t) (Consumes (min_width a + min_width b) s) (run b t)
              (λ v k. omega arith) (run-Consumes b t))
          (run-Consumes a s))
  run-Consumes (alt a b) s =
      All-append (Consumes (min (min_width a) (min_width b)) s) (run a s) (run b s)
        (All-weaken (Consumes (min_width a) s) _ (run a s) (λ t h. omega arith) (run-Consumes a s))
        (All-weaken (Consumes (min_width b) s) _ (run b s) (λ t h. omega arith) (run-Consumes b s))
  run-Consumes (star g a) s =
      All-weaken (Behind s) (Consumes 0 s) (run (star g a) s) (λ t h. Consumes-Behind s t h)
        (run-Behind (star g a) s)
  run-Consumes (group n a) s =
      All-map (Consumes (min_width a) s) (capture n s) (run a s) (run-Consumes a s)
  run-Consumes boundary s = when-Consumes _ s
  run-Consumes (line_start m) s = when-Consumes _ s
  run-Consumes (line_end m) s = when-Consumes _ s
  run-Consumes never s = tt

-- Group `n` occurs in the expression.
unfoldable pub mentions : ℕ → Regex → Bool
mentions n (seq a b) = mentions n a || mentions n b
mentions n (alt a b) = mentions n a || mentions n b
mentions n (star g a) = mentions n a
mentions n (group k a) = k == n || mentions n a
mentions n _ = false

abbrev Other : ℕ → ℕ → Type 0
Other n k = (k == n) ≡ false

mentions-Each : (n : ℕ) (r : Regex) → mentions n r ≡ false → Each Always (Other n) r
unfolding mentions
mentions-Each n (char t) h = tt
mentions-Each n (seq a b) h = (mentions-Each n a (ground arith), mentions-Each n b (ground arith))
mentions-Each n (alt a b) h = (mentions-Each n a (ground arith), mentions-Each n b (ground arith))
mentions-Each n (star g a) h = mentions-Each n a h
mentions-Each n (group k a) h = (ground arith, mentions-Each n a (ground arith))
mentions-Each n _ h = tt

-- Every match sets group `n`, to a text of at least `w` characters.
unfoldable pub captures : ℕ → ℕ → Regex → Bool
unfolding mentions min_width
captures n w (seq a b) = captures n w b || captures n w a && not (mentions n b)
captures n w (alt a b) = captures n w a && captures n w b
captures n w (group k a) = k == n && leb w (min_width a)
captures n w _ = false

-- The group is set, and wide enough.
abbrev pub Sets : ℕ → ℕ → State → Type 0
Sets n w t = (g : Text) × (find_group n t.groups ≡ some g) × (w ≤ length g)

length-between : (s t : State) (w : ℕ) → Consumes w s t → w ≤ length (between s t)
length-between s t w h = omega (arith, length-take (length s.rest - length t.rest) s.rest)

Sets-capture : (n w : ℕ) (s t : State) → Consumes w s t → Sets n w (capture n s t)
unfolding find_group
Sets-capture n w s t h = (between s t, ground arith, length-between s t w h)

module _ ⦃u : Unicode⦄ where
  run-Sets_kept :
      (n w : ℕ) (r : Regex)
      → mentions n r ≡ false
      → (s : State) → Sets n w s
      → All (Sets n w) (run r s)
  run-Sets_kept n w r h s k =
      All-weaken (λ t. Sets n w s → Sets n w t) (Sets n w) (run r s) (λ t f. f k)
        (run-steps (λ s t. Sets n w s → Sets n w t) Always (Other n) (λ s x. x)
          (λ s t v f g x. g (f x))
          (λ m s t other f x.
            let (g, e, wide) = f x in (g, skip_other n m (between s t) t.groups other ∙ e, wide))
          (λ t c b s g p e x. x) r s (mentions-Each n r h))
    where
      skip_other :
          (n m : ℕ) (t : Text) (gs : Groups)
          → Other n m
          → find_group n ((m, t) ∷ gs) ≡ find_group n gs
      skip_other n m t gs h = unfold find_group in ground arith

  run-Sets : (n w : ℕ) (r : Regex) → captures n w r ≡ true → (s : State) → All (Sets n w) (run r s)
  unfolding captures run
  run-Sets n w empty h s = cc
  run-Sets n w (char t) h s = cc
  run-Sets n w (seq a b) h s = elim (Bool-cases (captures n w b)) [
    | inl e ↦
        All-flat_map (Sets n w) (run b) (run a s)
          (All-tabulate (λ t. All (Sets n w) (run b t)) (run a s) (run-Sets n w b e))
    | inr e ↦ All-flat_map (Sets n w) (run b) (run a s) (
        All-weaken (Sets n w) (λ t. All (Sets n w) (run b t)) (run a s)
          (run-Sets_kept n w b (ground arith)) (run-Sets n w a (ground arith) s))
  ]
  run-Sets n w (alt a b) h s =
      let (p, q) = &&-eq_true (captures n w a) (captures n w b) h in
      All-append (Sets n w) (run a s) (run b s) (run-Sets n w a p s) (run-Sets n w b q s)
  run-Sets n w (star g a) h s = cc
  run-Sets n w (group k a) h s = All-map (Sets n w) (capture k s) (run a s) (
      All-weaken (Consumes (min_width a) s) (λ t. Sets n w (capture k s t)) (run a s)
        (λ t c. Sets-capture_of n w k a s t h c) (run-Consumes a s))
    where
      Sets-capture_of :
          (n w k : ℕ) (a : Regex) (s t : State)
          → (k == n && leb w (min_width a)) ≡ true
          → Consumes (min_width a) s t
          → Sets n w (capture k s t)
      Sets-capture_of n w k a s t h c =
          let (p, q) = &&-eq_true (k == n) (leb w (min_width a)) h in
          let e : k ≡ n = ground arith in
          rw e (Sets-capture n w s t (omega (arith, leb→le w (min_width a) q)))
  run-Sets n w boundary h s = cc
  run-Sets n w (line_start m) h s = cc
  run-Sets n w (line_end m) h s = cc
  run-Sets n w never h s = cc

  -- A pattern that captures group `n` gives it a text of at least `w` characters in every match.
  pub length-group_text :
      (n w : ℕ) (r : Regex) (b s : Text) (m : Match)
      → captures n w r ≡ true
      → search_from r b s ≡ some m
      → w ≤ length (group_text n m)
  unfolding group_text
  length-group_text n w r b s m h e =
      let f = search_from-Found (λ s t. Sets n w t) r (run-Sets n w r h) b s m e in
      let (g, set, wide) = f.holds in rw set wide

  -- A match takes at least as many characters as the least width of the pattern.
  pub length-match :
      (r : Regex) (b s : Text) (m : Match)
      → search_from r b s ≡ some m
      → min_width r ≤ length m.text
  length-match r b s m e =
      let f = search_from-Found (Consumes (min_width r)) r (run-Consumes r) b s m e in
      rw f.takes (length-between (start_at f.left f.begin) m.final (min_width r) f.holds)
