-- ===== src/Render/Names.antt =====
-- `_secret_name` and `_truncate` of tools/migration-analyzer/src/migration_analyzer/report.py.
use jenkins_to_actions_migra.Prelude.{
  ℕ, zero, suc, ◌-◌, ◌≤◌, ◌<◌, true, false, [], ◌∷◌, ◌++◌, ◌≡◌, refl, ap, ◌∙◌, map, length,
  length-append, length-take, take, Text, codes, All, leb, le→leb, ◌==◌, ◌||◌, if◌then◌else◌, arith,
}
use jenkins_to_actions_migra.Unicode.{Unicode, is_alnum, to_upper, ascii_upper, ascii_digit}
use jenkins_to_actions_migra.Render.{truncate, secret_letter, secret_name}

abbrev pub IsAscii : Text → Type 0
IsAscii t = All (λ c. c < 128) t

-- A character of a GitHub secret's name: A-Z, 0-9 or `_`.
abbrev pub IsSecret : ℕ → Type 0
IsSecret c = (ascii_upper c || ascii_digit c || c == b'_') ≡ true

abbrev secret_char : ℕ → ℕ
secret_char c =
    if leb b'a' c
    then (if leb c b'z' then c - 32 else b'_')
    else if ascii_upper c || ascii_digit c
    then c
    else b'_'

module _ ⦃u : Unicode⦄ where
  secret_char_lem : (c : ℕ) → c < 128 → to_upper (secret_letter c) ≡ secret_char c ∷ []
  unfolding to_upper secret_letter is_alnum
  secret_char_lem c h = ground arith

  secret_name-eq_map : (t : Text) → IsAscii t → secret_name t ≡ map secret_char t
  unfolding secret_name
  secret_name-eq_map [] h = refl
  secret_name-eq_map (c ∷ t) h =
      rw (secret_char_lem c h.0) (ap (λ x. secret_char c ∷ x) (secret_name-eq_map t h.1))

secret_char-IsSecret : (c : ℕ) → c < 128 → IsSecret (secret_char c)
secret_char-IsSecret c h = ground arith

secret_char_fixed : (c : ℕ) → IsSecret c → secret_char c ≡ c
secret_char_fixed c h = ground arith

length-map_secret : (t : Text) → length (map secret_char t) ≡ length t
length-map_secret [] = refl
length-map_secret (c ∷ t) = ap suc (length-map_secret t)

map-IsSecret : (t : Text) → IsAscii t → All IsSecret (map secret_char t)
map-IsSecret [] h = tt
map-IsSecret (c ∷ t) h = (secret_char-IsSecret c h.0, map-IsSecret t h.1)

map-eq_self : (t : Text) → All IsSecret t → map secret_char t ≡ t
map-eq_self [] h = refl
map-eq_self (c ∷ t) h = rw (secret_char_fixed c h.0, map-eq_self t h.1) refl

IsSecret-IsAscii : (t : Text) → All IsSecret t → IsAscii t
IsSecret-IsAscii [] h = tt
IsSecret-IsAscii (c ∷ t) h = (below c h.0, IsSecret-IsAscii t h.1)
  where
    below : (c : ℕ) → IsSecret c → c < 128
    below c h = ground arith

module _ ⦃u : Unicode⦄ (t : Text) (ascii : IsAscii t) where
  -- For an ASCII credential ID, the suggested secret name has only A-Z, 0-9 and `_`, has the length
  -- of the ID, and is its own suggested name.
  pub secret_name_lem :
      All IsSecret (secret_name t)
      × (length (secret_name t) ≡ length t)
      × (secret_name (secret_name t) ≡ secret_name t)
  secret_name_lem =
      let e = secret_name-eq_map t ascii in
      let secret = map-IsSecret t ascii in
      rw e (
        secret,
        length-map_secret t,
        secret_name-eq_map (map secret_char t) (IsSecret-IsAscii (map secret_char t) secret)
            ∙ map-eq_self (map secret_char t) secret,
      )

take-append : (n : ℕ) (s t : Text) → length s ≡ n → take n (s ++ t) ≡ s
take-append zero [] t e = refl
take-append zero (c ∷ s) t e = absurd (omega arith)
take-append (suc n) [] t e = absurd (omega arith)
take-append (suc n) (c ∷ s) t e = ap (λ x. c ∷ x) (take-append n s t (omega arith))

-- For a limit of at least one character, a text within the limit is kept whole, and a longer one is
-- cut to exactly the limit: its first n - 1 characters and the ellipsis.
pub truncate_lem :
    (s : Text) (n : ℕ)
    → 1 ≤ n
    → (length s ≤ n → truncate s n ≡ s)
      × (n < length s
          → (length (truncate s n) ≡ n)
            × (take (n - 1) (truncate s n) ≡ take (n - 1) s)
            × (truncate s n ≡ take (n - 1) s ++ codes "…"))
unfolding truncate
truncate_lem s n h = (
  λ short. rw (le→leb (length s) n short) refl,
  λ long. rw (above long) (
    omega (arith, length-append (take (n - 1) s) (codes "…"), length-take (n - 1) s),
    take-append (n - 1) (take (n - 1) s) (codes "…") (omega (arith, length-take (n - 1) s)),
    refl,
  ),
)
  where
    above : n < length s → leb (length s) n ≡ false
    above long = ground arith
