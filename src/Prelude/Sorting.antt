-- ===== src/Prelude/Sorting.antt =====
-- Python's stable sort, as an insertion sort: an element goes in front of those it is equal to.
use mathlib.Core.Path.{◌≡◌, refl, sym, ap, ◌∙◌}
use mathlib.Core.Bool.{Bool, true, false}
use mathlib.Core.Logic.{inl, inr}
use mathlib.Core.List.{List, [], ◌∷◌, Perm}
use mathlib.Core.List.Perm
use native.Mathlib.Omega.{arith}
use jenkins_to_actions_migra.Prelude.Tests.{if◌then◌else◌, Bool-cases}
use jenkins_to_actions_migra.Prelude.Lists.{All, All-weaken, filter}

module _ {ℓ} {A : Type ℓ} (le : A → A → Bool) where
  unfoldable pub insert : A → List A → List A
  insert x [] = x ∷ []
  insert x (y ∷ ys) = let rest = insert x ys in if le x y then x ∷ y ∷ ys else y ∷ rest

  unfoldable pub sort : List A → List A
  unfolding insert
  sort [] = []
  sort (x ∷ xs) = insert x (sort xs)

  -- Each element stands before all later ones.
  abbrev pub IsSorted : List A → Type ℓ
  IsSorted [] = Unit
  IsSorted (x ∷ xs) = All (λ y. le x y ≡ true) xs × IsSorted xs

  insert-All {κ} : (P : A → Type κ) (x : A) (ys : List A) → P x → All P ys → All P (insert x ys)
  unfolding insert
  insert-All P x [] h k = (h, tt)
  insert-All P x (y ∷ ys) h k = elim (Bool-cases (le x y)) [
    | inl e ↦ rw e (h, k)
    | inr e ↦ rw e (k.0, insert-All P x ys h k.1)
  ]

  pub sort-All {κ} : (P : A → Type κ) (xs : List A) → All P xs → All P (sort xs)
  unfolding sort
  sort-All P [] h = tt
  sort-All P (x ∷ xs) h = insert-All P x (sort xs) h.0 (sort-All P xs h.1)

  insert-perm : (x : A) (ys : List A) → Perm (insert x ys) (x ∷ ys)
  unfolding insert
  insert-perm x [] = Perm.refl (x ∷ [])
  insert-perm x (y ∷ ys) = elim (Bool-cases (le x y)) [
    | inl e ↦ rw e (Perm.refl (x ∷ y ∷ ys))
    | inr e ↦ rw e (Perm.trans (Perm.cons y (insert-perm x ys)) (Perm.swap x y ys))
  ]

  -- Sorting rearranges.
  pub sort-perm : (xs : List A) → Perm (sort xs) xs
  unfolding sort
  sort-perm [] = Perm.refl []
  sort-perm (x ∷ xs) = Perm.trans (insert-perm x (sort xs)) (Perm.cons x (sort-perm xs))

  module _ (total : (x y : A) → le x y ≡ false → le y x ≡ true)
      (trans : (x y z : A) → le x y ≡ true → le y z ≡ true → le x z ≡ true) where
    insert-IsSorted : (x : A) (ys : List A) → IsSorted ys → IsSorted (insert x ys)
    unfolding insert
    insert-IsSorted x [] h = (tt, tt)
    insert-IsSorted x (y ∷ ys) h = elim (Bool-cases (le x y)) [
      | inl e ↦ rw e (
        (e, All-weaken (λ z. le y z ≡ true) (λ z. le x z ≡ true) ys (λ z k. trans x y z e k) h.0),
        h,
      )
      | inr e ↦
          rw e (insert-All (λ z. le y z ≡ true) x ys (total x y e) h.0, insert-IsSorted x ys h.1)
    ]

    -- Sorting sorts, if the comparison is total and transitive.
    pub sort-IsSorted : (xs : List A) → IsSorted (sort xs)
    unfolding sort
    sort-IsSorted [] = tt
    sort-IsSorted (x ∷ xs) = insert-IsSorted x (sort xs) (sort-IsSorted xs)

  module _ (p : A → Bool) (tied : (x y : A) → p x ≡ true → p y ≡ true → le x y ≡ true) where
    filter-insert : (x : A) (ys : List A) → filter p (insert x ys) ≡ filter p (x ∷ ys)
    unfolding insert
    filter-insert x [] = refl
    filter-insert x (y ∷ ys) = ground (arith, filter-insert x ys, tied x y)

    -- Sorting is stable: elements that are tied keep their order.
    pub filter-sort : (xs : List A) → filter p (sort xs) ≡ filter p xs
    unfolding sort
    filter-sort [] = refl
    filter-sort (x ∷ xs) = filter-insert x (sort xs) ∙ ap (keep_if (p x)) (filter-sort xs)
      where
        keep_if : Bool → List A → List A
        keep_if b rest = if b then x ∷ rest else rest

  insert-front : (x : A) (ys : List A) → All (λ y. le x y ≡ true) ys → insert x ys ≡ x ∷ ys
  unfolding insert
  insert-front x [] h = refl
  insert-front x (y ∷ ys) h = rw h.0 refl

  -- Sorting changes nothing in a sorted list.
  pub sort-eq_self : (xs : List A) → IsSorted xs → sort xs ≡ xs
  unfolding sort
  sort-eq_self [] h = refl
  sort-eq_self (x ∷ xs) h = rw (sort-eq_self xs h.1) (insert-front x xs h.0)

  filter-All {κ} : (P : A → Type κ) (p : A → Bool) (xs : List A) → All P xs → All P (filter p xs)
  filter-All P p [] h = tt
  filter-All P p (x ∷ xs) h = elim (Bool-cases (p x)) [
    | inl e ↦ rw e (h.0, filter-All P p xs h.1)
    | inr e ↦ rw e (filter-All P p xs h.1)
  ]

  module _ (p : A → Bool) (total : (x y : A) → le x y ≡ false → le y x ≡ true)
      (trans : (x y z : A) → le x y ≡ true → le y z ≡ true → le x z ≡ true) where
    filter-insert_kept :
        (x : A) (ys : List A)
        → IsSorted ys
        → p x ≡ true
        → filter p (insert x ys) ≡ insert x (filter p ys)
    unfolding insert
    filter-insert_kept x [] h k = rw k refl
    filter-insert_kept x (y ∷ ys) h k = elim (Bool-cases (le x y)) [
      | inl e ↦
          rw (e, k)
            (sym (
              insert-front x (filter p (y ∷ ys)) (
                filter-All (λ z. le x z ≡ true) p (y ∷ ys)
                  (
                    e,
                    All-weaken (λ z. le y z ≡ true) (λ z. le x z ≡ true) ys (λ z t. trans x y z e t)
                        h.0,
                  ))))
      | inr e ↦ ground (arith, filter-insert_kept x ys h.1 k)
    ]

    filter-insert_dropped :
        (x : A) (ys : List A) → p x ≡ false → filter p (insert x ys) ≡ filter p ys
    unfolding insert
    filter-insert_dropped x [] k = rw k refl
    filter-insert_dropped x (y ∷ ys) k = ground (arith, filter-insert_dropped x ys k)

    -- What is kept of a sorted list is what is kept of the list, sorted.
    pub filter-sort_comm : (xs : List A) → filter p (sort xs) ≡ sort (filter p xs)
    unfolding sort
    filter-sort_comm [] = refl
    filter-sort_comm (x ∷ xs) = elim (Bool-cases (p x)) [
      | inl e ↦ rw e (
          filter-insert_kept x (sort xs) (sort-IsSorted total trans xs) e
          ∙ ap (insert x) (filter-sort_comm xs))
      | inr e ↦ rw e (filter-insert_dropped x (sort xs) e ∙ filter-sort_comm xs)
    ]
