-- ===== src/Backstage/Counts.antt =====
-- hack/validate-backstage.py: when the number of errors is zero.
use jenkins_to_actions_migra.Prelude.{
  ℕ, ◌+◌, true, false, Text, List, [], ◌∷◌, ◌≡◌, refl, sym, ◌∙◌, ◌↔◌, inl, inr, arith, ◌==◌,
  Bool-cases,
}
use jenkins_to_actions_migra.Prelude.Sorting.{insert, sort}
use jenkins_to_actions_migra.Python.{ok, err, unmodelled, ok_inj}
use jenkins_to_actions_migra.Backstage.{SchemaError, sorted_errors, outcome, error_le, comparable}

insert-cons : (e : SchemaError) (es : List SchemaError) → insert error_le e es ≡ [] → ⊥
unfolding insert
insert-cons e [] h = cc
insert-cons e (f ∷ es) h = elim (Bool-cases (error_le e f)) [
  | inl k ↦ let g : e ∷ f ∷ es ≡ [] = rw k at h in cc
  | inr k ↦ let g : f ∷ insert error_le e es ≡ [] = rw k at h in cc
]

sort-nil : (es : List SchemaError) → sort error_le es ≡ [] → es ≡ []
unfolding sort
sort-nil [] h = refl
sort-nil (e ∷ es) h = absurd (insert-cons e (sort error_le es) h)

pub sorted-nil :
    (es found : List SchemaError) → sorted_errors es ≡ ok found → (found ≡ []) ↔ (es ≡ [])
unfolding sorted_errors sort
sorted-nil es found h = elim (Bool-cases (comparable es)) [
  | inl k ↦
      let s : sort error_le es ≡ found = ok_inj (rw k at h) in
      (λ e. sort-nil es (s ∙ e), λ e. sym s ∙ (rw e refl))
  | inr k ↦ let g : err unmodelled ≡ ok found = rw k at h in cc
]

pub outcome-nil :
    (place kind : Text) (found : List SchemaError)
    → ((outcome place kind found).0 ≡ 0) ↔ (found ≡ [])
unfolding outcome
outcome-nil place kind [] = (λ h. refl, λ h. refl)
outcome-nil place kind (e ∷ es) = (λ h. absurd (omega arith), λ h. cc)

pub zero-of : (n : ℕ) → (n == 0) ≡ true → n ≡ 0
zero-of n h = ground arith

pub zero-of_not : (n : ℕ) → (n == 0) ≡ false → n ≡ 0 → ⊥
zero-of_not n h z = ground arith

pub sum-nil : {P Q : Type 0} (m n : ℕ) → (m ≡ 0) ↔ P → (n ≡ 0) ↔ Q → (m + n ≡ 0) ↔ (P × Q)
sum-nil m n p q = (
  λ h. (p.0 (omega arith), q.0 (omega arith)),
  λ h. let a = p.1 h.0 in let b = q.1 h.1 in omega arith,
)
