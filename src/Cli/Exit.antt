-- ===== src/Cli/Exit.antt =====
-- The exit codes of `main`, tools/migration-analyzer/src/migration_analyzer/cli.py.
use jenkins_to_actions_migra.Prelude.{
  ◌≤◌, Bool, true, false, List, [], ◌∷◌, ◌≡◌, ◌↔◌, refl, inl, inr, none, some, Bool-cases, any,
  arith, ◌||◌, leb, leb→le, le→leb,
}
use jenkins_to_actions_migra.Model.{Category, Finding}
use jenkins_to_actions_migra.Cli.{severity, exit_code}

-- A finding of the list has the property.
pub data Some (P : Finding → Type 0) : List Finding → Type 0 where
  here : {f : Finding} {fs : List Finding} → P f → Some P (f ∷ fs)
  there : {f : Finding} {fs : List Finding} → Some P fs → Some P (f ∷ fs)

-- The finding is of the category or of a more severe one.
abbrev pub AtLeast : Category → Finding → Type 0
AtLeast c f = severity c ≤ severity f.category

any→Some :
    (c : Category) (fs : List Finding)
    → any (λ (f : Finding). leb (severity c) (severity f.category)) fs ≡ true
    → Some (AtLeast c) fs
any→Some c [] h = cc
any→Some c (f ∷ fs) h = elim (Bool-cases (leb (severity c) (severity f.category))) [
  | inl e ↦ here (leb→le (severity c) (severity f.category) e)
  | inr e ↦ there (any→Some c fs (rw e at h))
]

Some→any :
    (c : Category) {fs : List Finding}
    → Some (AtLeast c) fs
    → any (λ (f : Finding). leb (severity c) (severity f.category)) fs ≡ true
Some→any c (here {f} h) = rw (le→leb (severity c) (severity f.category) h) refl
Some→any c (there {f} h) = rw (Some→any c h) (or_true (leb (severity c) (severity f.category)))
  where
    or_true : (b : Bool) → (b || true) ≡ true
    or_true true = refl
    or_true false = refl

-- With a category given, the exit code is 2 exactly when some finding is of that category or a more
-- severe one, and 0 otherwise; with none given it is 0.
pub exit_code_iff :
    (c : Category) (fs : List Finding)
    → ((exit_code (some c) fs ≡ 2) ↔ Some (AtLeast c) fs)
      × ((exit_code (some c) fs ≡ 0) ↔ (¬ Some (AtLeast c) fs))
      × (exit_code none fs ≡ 0)
unfolding exit_code
exit_code_iff c fs =
    elim (Bool-cases (any (λ (f : Finding). leb (severity c) (severity f.category)) fs)) [
      | inl e ↦ (
        (λ _. any→Some c fs e, λ s. rw e refl),
        (λ z. absurd (unfold exit_code in ground (arith, e)), λ n. absurd (n (any→Some c fs e))),
        refl,
      )
      | inr e ↦ (
        (λ z. absurd (unfold exit_code in ground (arith, e)), λ s. cc (e, Some→any c s)),
        (λ _. λ s. cc (e, Some→any c s), λ n. rw e refl),
        refl,
      )
    ]

Some-weaken :
    (c d : Category) {fs : List Finding}
    → severity d ≤ severity c
    → Some (AtLeast c) fs
    → Some (AtLeast d) fs
Some-weaken c d h (here k) = here (omega arith)
Some-weaken c d h (there s) = there (Some-weaken c d h s)

-- A threshold that is not more severe fails too: `--fail-on manual` failing implies that
-- `--fail-on` fails with every category, and so down the order.
pub exit_code_mono :
    (c d : Category) (fs : List Finding)
    → severity d ≤ severity c
    → exit_code (some c) fs ≡ 2
    → exit_code (some d) fs ≡ 2
exit_code_mono c d fs h e =
    (exit_code_iff d fs).0.1 (Some-weaken c d h ((exit_code_iff c fs).0.0 e))
