-- ===== src/Parser/Credentials.antt =====
-- The credential IDs of a file, as `scan` of tools/migration-analyzer/src/migration_analyzer/parser.py
-- collects them in `seen`.
use jenkins_to_actions_migra.Prelude.{
  false, List, [], ◌∷◌, ◌++◌, ◌≡◌, refl, ap, ◌∙◌, inl, inr, Text, Bool-cases, equal_sym, contains,
  contains-cong, Distinct, join, newline, arith, ◌||◌,
}
use jenkins_to_actions_migra.Unicode.{Unicode}
use jenkins_to_actions_migra.Parser.Patterns.{credentials, credentials_id}
use jenkins_to_actions_migra.Parser.{add_seen, find_all, extract}

contains-append :
    (t : Text) (us vs : List Text) → contains t (us ++ vs) ≡ (contains t us || contains t vs)
unfolding contains
contains-append t [] vs = refl
contains-append t (u ∷ us) vs = ground (arith, contains-append t us vs)

Distinct-concat :
    (name : Text) (us : List Text)
    → contains name us ≡ false
    → Distinct us
    → Distinct (us ++ name ∷ [])
Distinct-concat name [] h d = (unfold contains in refl, tt)
Distinct-concat name (u ∷ us) h d = (
  contains-append u us (name ∷ []) ∙ unfold contains in ground (arith, equal_sym u name, d.0),
  Distinct-concat name us (unfold contains in ground arith) d.1,
)

add_seen-Distinct : (seen names : List Text) → Distinct seen → Distinct (add_seen seen names)
unfolding add_seen
add_seen-Distinct seen [] d = d
add_seen-Distinct seen (name ∷ names) d = elim (Bool-cases (contains name seen)) [
  | inl e ↦ rw e (add_seen-Distinct seen names d)
  | inr e ↦ rw e (add_seen-Distinct (seen ++ name ∷ []) names (Distinct-concat name seen e d))
]

contains-add_seen :
    (t : Text) (seen names : List Text)
    → contains t (add_seen seen names) ≡ (contains t seen || contains t names)
unfolding add_seen
contains-add_seen t seen [] = unfold contains in ground arith
contains-add_seen t seen (name ∷ names) = elim (Bool-cases (contains name seen)) [
  | inl e ↦ rw e (
      contains-add_seen t seen names ∙ unfold contains in ground (arith, contains-cong t name seen))
  | inr e ↦ rw e (
      contains-add_seen t (seen ++ name ∷ []) names
      ∙ ap (λ b. b || contains t names) (contains-append t seen (name ∷ []))
      ∙ unfold contains in ground arith)
]

module _ ⦃u : Unicode⦄ (original cleaned : List Text) where
  -- A text is among the credential IDs of a scan exactly when one of the two credential patterns finds
  -- it in the joined lines, and no ID is listed twice.
  pub credential_ids_lem :
      ((t : Text)
        → contains t (extract original cleaned).credential_ids ≡ (
            contains t (find_all credentials (join (newline ∷ []) cleaned))
            || contains t (find_all credentials_id (join (newline ∷ []) cleaned))))
      × Distinct (extract original cleaned).credential_ids
  unfolding extract
  credential_ids_lem =
      let joined = join (newline ∷ []) cleaned in
      let seen = add_seen [] (find_all credentials joined) in
      (
        λ t.
            contains-add_seen t seen (find_all credentials_id joined)
            ∙ ap (λ b. b || contains t (find_all credentials_id joined))
                (contains-add_seen t [] (find_all credentials joined) ∙ unfold contains in refl),
        add_seen-Distinct seen (find_all credentials_id joined)
            (add_seen-Distinct [] (find_all credentials joined) tt),
      )
