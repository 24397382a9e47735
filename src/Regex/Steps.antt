-- ===== src/Regex/Steps.antt =====
-- Induction over the matcher: a relation between positions that holds for one character and for a
-- capture, and composes, holds between the start and every way to match.
use jenkins_to_actions_migra.Prelude.{
  ℕ, zero, suc, Bool, true, false, List, [], ◌∷◌, ◌≡◌, inl, inr, filter, flat_map, Text, All,
  All-append, All-map, All-flat_map, All-weaken, Bool-cases, length,
}
use jenkins_to_actions_migra.Unicode.{Unicode}
use jenkins_to_actions_migra.Regex.{
  Test, Regex, empty, char, seq, alt, star, group, boundary, line_start, line_end, never, accepts,
}
use jenkins_to_actions_migra.Regex.Match.{Groups, State, eat, rounds, run, capture, progress, when}

-- Every test of the expression satisfies `P`, and the number of every group `G`.
abbrev pub Each : (Test → Type 0) → (ℕ → Type 0) → Regex → Type 0
Each P G (char t) = P t
Each P G (seq a b) = Each P G a × Each P G b
Each P G (alt a b) = Each P G a × Each P G b
Each P G (star g a) = Each P G a
Each P G (group n a) = G n × Each P G a
Each P G _ = Unit

abbrev pub Always {ℓ} : {A : Type ℓ} → A → Type 0
Always a = Unit

pub Each-Always : (r : Regex) → Each Always Always r
Each-Always (char t) = tt
Each-Always (seq a b) = (Each-Always a, Each-Always b)
Each-Always (alt a b) = (Each-Always a, Each-Always b)
Each-Always (star g a) = Each-Always a
Each-Always (group n a) = (tt, Each-Always a)
Each-Always _ = tt

pub All-filter {ℓ κ} :
    {A : Type ℓ} (Q : A → Type κ) (p : A → Bool) (xs : List A) → All Q xs → All Q (filter p xs)
All-filter Q p [] h = tt
All-filter Q p (x ∷ xs) h = elim (Bool-cases (p x)) [
  | inl e ↦ rw e (h.0, All-filter Q p xs h.1)
  | inr e ↦ rw e (All-filter Q p xs h.1)
]

abbrev pub at : Text → Text → Groups → State
at b s g = record { before = b; rest = s; groups = g }

module _ (R : State → State → Type 0) (P : Test → Type 0) (G : ℕ → Type 0)
    (R-refl : (s : State) → R s s) (R-trans : (s t v : State) → R s t → R t v → R s v)
    (R-capture : (n : ℕ) (s t : State) → G n → R s t → R s (capture n s t))
    (R-eat : (t : Test) (c : ℕ) (b s : Text) (g : Groups)
      → P t
      → accepts t c ≡ true
      → R (at b (c ∷ s) g) (at (c ∷ b) s g)) where
  All-then :
      (f : State → List State) (s : State) (ts : List State)
      → ((t : State) → All (R t) (f t))
      → All (R s) ts
      → All (R s) (flat_map f ts)
  All-then f s ts hf h = All-flat_map (R s) f ts (
      All-weaken (R s) (λ t. All (R s) (f t)) ts
        (λ t ht. All-weaken (R t) (R s) (f t) (λ v hv. R-trans s t v ht hv) (hf t)) h)

  eat-steps : (t : Test) (b s : Text) (g : Groups) → P t → All (R (at b s g)) (eat t b s g)
  unfolding eat
  eat-steps t b [] g p = tt
  eat-steps t b (c ∷ s) g p = elim (Bool-cases (accepts t c)) [
    | inl e ↦ rw e (R-eat t c b s g p e, tt)
    | inr e ↦ rw e tt
  ]

  when-steps : (b : Bool) (s : State) → All (R s) (when b s)
  when-steps true s = (R-refl s, tt)
  when-steps false s = tt

  rounds-steps :
      (greedy : Bool) (step : State → List State)
      → ((s : State) → All (R s) (step s))
      → (f : ℕ) (s : State) → All (R s) (rounds greedy step f s)
  unfolding rounds
  rounds-steps greedy step h zero s = (R-refl s, tt)
  rounds-steps true step h (suc f) s =
      All-append (R s) (flat_map (rounds true step f) (filter (progress s) (step s))) (s ∷ [])
        (All-then (rounds true step f) s (filter (progress s) (step s)) (rounds-steps true step h f)
          (All-filter (R s) (progress s) (step s) (h s)))
        (R-refl s, tt)
  rounds-steps false step h (suc f) s = (
    R-refl s,
    All-then (rounds false step f) s (filter (progress s) (step s)) (rounds-steps false step h f)
        (All-filter (R s) (progress s) (step s) (h s)),
  )

  module _ ⦃u : Unicode⦄ where
    pub run-steps : (r : Regex) (s : State) → Each P G r → All (R s) (run r s)
    unfolding run
    run-steps empty s h = (R-refl s, tt)
    run-steps (char t) s h = eat-steps t s.before s.rest s.groups h
    run-steps (seq a b) s h =
        All-then (run b) s (run a s) (λ t. run-steps b t h.1) (run-steps a s h.0)
    run-steps (alt a b) s h =
        All-append (R s) (run a s) (run b s) (run-steps a s h.0) (run-steps b s h.1)
    run-steps (star greedy a) s h =
        rounds-steps greedy (run a) (λ t. run-steps a t h) (length s.rest) s
    run-steps (group n a) s h = All-map (R s) (capture n s) (run a s) (
        All-weaken (R s) (λ t. R s (capture n s t)) (run a s) (λ t ht. R-capture n s t h.0 ht)
          (run-steps a s h.1))
    run-steps boundary s h = when-steps _ s
    run-steps (line_start m) s h = when-steps _ s
    run-steps (line_end m) s h = when-steps _ s
    run-steps never s h = tt
