-- ===== src/Unicode/Strip.antt =====
-- What `str.strip` of Python leaves of a text.
use jenkins_to_actions_migra.Prelude.{
  ℕ, true, false, Bool-cases, inl, inr, Text, [], ◌∷◌, ◌++◌, ◌≡◌, refl, ap, ◌∙◌, All,
}
use jenkins_to_actions_migra.Unicode.{is_space, drop_while, end_with, rstrip, strip}

abbrev Blank : Text → Type 0
Blank = All (λ c. is_space c ≡ true)

-- No white space at the start, and none at the end.
abbrev pub NoSpaceFirst : Text → Type 0
NoSpaceFirst [] = Unit
NoSpaceFirst (c ∷ t) = is_space c ≡ false

abbrev pub NoSpaceLast : Text → Type 0
NoSpaceLast [] = Unit
NoSpaceLast (c ∷ []) = is_space c ≡ false
NoSpaceLast (c ∷ d ∷ t) = NoSpaceLast (d ∷ t)

-- `t` is `line` without the white space around it.
pub record Stripped (line t : Text) : Type 0 where
  pub before : Text
  pub after : Text
  pub whole : line ≡ before ++ (t ++ after)
  pub before_blank : Blank before
  pub after_blank : Blank after
  pub first : NoSpaceFirst t
  pub last : NoSpaceLast t

left :
    (t : Text)
    → (b : Text) × (t ≡ b ++ drop_while is_space t) × Blank b × NoSpaceFirst (drop_while is_space t)
left [] = ([], refl, tt, tt)
left (c ∷ t) = elim (Bool-cases (is_space c)) [
  | inl e ↦ let (b, w, s, n) = left t in rw e (c ∷ b, ap (λ x. c ∷ x) w, (e, s), n)
  | inr e ↦ rw e ([], refl, tt, e)
]

right : (t : Text) → (a : Text) × (t ≡ rstrip t ++ a) × Blank a × NoSpaceLast (rstrip t)
unfolding rstrip
right [] = ([], refl, tt, tt)
right (c ∷ t) = let (a, w, s, n) = right t in end c t (rstrip t) a w s n
  where
    end :
        (c : ℕ) (t kept a : Text)
        → t ≡ kept ++ a
        → Blank a
        → NoSpaceLast kept
        → (a' : Text) × (c ∷ t ≡ end_with c kept ++ a') × Blank a' × NoSpaceLast (end_with c kept)
    end c t [] a w s n = elim (Bool-cases (is_space c)) [
      | inl e ↦ rw e (c ∷ a, ap (λ x. c ∷ x) w, (e, s), tt)
      | inr e ↦ rw e (a, ap (λ x. c ∷ x) w, s, e)
    ]
    end c t (d ∷ kept) a w s n = (a, ap (λ x. c ∷ x) w, s, n)

first_kept : (t : Text) → NoSpaceFirst t → NoSpaceFirst (rstrip t)
unfolding rstrip
first_kept [] h = tt
first_kept (c ∷ t) h = kept (rstrip t)
  where
    kept : (r : Text) → NoSpaceFirst (end_with c r)
    kept [] = rw h h
    kept (d ∷ r) = h

pub strip-Stripped : (line : Text) → Stripped line (strip line)
unfolding strip
strip-Stripped line =
    let (b, w, s, n) = left line in
    let (a, w', s', n') = right (drop_while is_space line) in
    record {
      before = b;
      after = a;
      whole = w ∙ ap (λ x. b ++ x) w';
      before_blank = s;
      after_blank = s';
      first = first_kept (drop_while is_space line) n;
      last = n';
    }
