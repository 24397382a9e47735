-- ===== src/Backstage/Valid.antt =====
-- hack/validate-backstage.py: what the exit code says of the documents.
use jenkins_to_actions_migra.Prelude.{
  ℕ, suc, ◌+◌, Text, codes, Option, none, some, List, [], ◌∷◌, All, ◌≡◌, sym, ap, some_inj, ◌∙◌,
  ◌↔◌, ◌⊎◌, inl, inr, arith, ◌==◌, Bool-cases, show, ◌++◌, newline,
}
use jenkins_to_actions_migra.Unicode.{Unicode}
use jenkins_to_actions_migra.Python.{Result, ok, >>=-eq-ok, ok_inj}
use jenkins_to_actions_migra.Python.Access.{or_else, str}
use jenkins_to_actions_migra.Value.{Value, null, dict, Fields}
use jenkins_to_actions_migra.Value.Dict.{get}
use jenkins_to_actions_migra.Backstage.{
  SchemaError, schema_for, sorted_errors, outcome, place_of, known_document, no_schema,
  validate_document, validate_documents, documents, validate_file, validate_files, validate_all,
}
use jenkins_to_actions_migra.Backstage.Counts.{
  sorted-nil, outcome-nil, zero-of, zero-of_not, sum-nil,
}

module _ {Registry : Type 0} (load_all : Text → Result (List Value))
    (contents : Registry → Text → Result Value)
    (iter_errors : Registry → Value → Value → Result (List SchemaError)) (repr : Value → Text)
    (registry : Registry) where
  -- No error is found against the schema for the kind of a document. Other documents are not looked at.
  abbrev pub IsValid : Value → Type 0
  IsValid (dict d) =
      (id : Text) (schema : Value)
      → schema_for (or_else null (get (codes "apiVersion") d)) (or_else null (get (codes "kind") d))
        ≡ ok (some id)
      → contents registry id ≡ ok schema
      → iter_errors registry schema (dict d) ≡ ok []
  IsValid _ = Unit

  known-IsValid :
      (place : Text) (kind : Value) (id : Text) (doc : Value) (n : ℕ) (out : Text)
      → known_document load_all contents iter_errors repr registry place kind id doc ≡ ok (n, out)
      → (n ≡ 0) ↔ (
          (schema : Value)
          → contents registry id ≡ ok schema
          → iter_errors registry schema doc ≡ ok [])
  unfolding known_document
  known-IsValid place kind id doc n out h =
      let (schema, e1, h1) = >>=-eq-ok (contents registry id) _ h in
      let (errors, e2, h2) = >>=-eq-ok (iter_errors registry schema doc) _ h1 in
      let (found, e3, h3) = >>=-eq-ok (sorted_errors errors) _ h2 in
      let o = outcome-nil place (str repr kind) found in
      let s = sorted-nil errors found e3 in
      let k : (outcome place (str repr kind) found).0 ≡ n = ap (λ p. p.0) (ok_inj h3) in
      (
        λ z schema' c.
            ap (λ x. iter_errors registry x doc) (ok_inj (sym c ∙ e1))
            ∙ e2
            ∙ ap ok (s.0 (o.0 (k ∙ z))),
        λ all. sym k ∙ o.1 (s.1 (ok_inj (sym e2 ∙ all schema e1))),
      )

  with_schema :
      (place : Text) (d : Fields) (version kind : Value) (n : ℕ) (out : Text) (found : Option Text)
      → schema_for version kind ≡ ok found
      → elim found [
        | none ↦ ok (no_schema load_all contents iter_errors repr registry place version kind)
        | some id ↦
            known_document load_all contents iter_errors repr registry place kind id (dict d)
      ]
        ≡ ok (n, out)
      → (n ≡ 0) ↔ (
          (id : Text) (schema : Value)
          → schema_for version kind ≡ ok (some id)
          → contents registry id ≡ ok schema
          → iter_errors registry schema (dict d) ≡ ok [])
  unfolding no_schema
  with_schema place d version kind n out none e h = (
    λ z id schema e' c. (let no : none ≡ some id = ok_inj (sym e ∙ e') in cc),
    λ z. ap (λ p. p.0) (ok_inj (sym h)),
  )
  with_schema place d version kind n out (some id) e h =
      let iff = known-IsValid place kind id (dict d) n out h in
      (
        λ z id' schema e' c.
            (let same : some id ≡ some id' = ok_inj (sym e ∙ e') in
              iff.0 z schema (rw (some_inj same) c)),
        λ all. iff.1 (λ schema c. all id schema e c),
      )

  document-IsValid :
      (place : Text) (doc : Value) (n : ℕ) (out : Text)
      → validate_document load_all contents iter_errors repr registry place doc ≡ ok (n, out)
      → (n ≡ 0) ↔ IsValid doc
  unfolding validate_document
  document-IsValid place (dict d) n out h =
      let version = or_else null (get (codes "apiVersion") d) in
      let kind = or_else null (get (codes "kind") d) in
      let (found, e, k) = >>=-eq-ok (schema_for version kind) _ h in
      with_schema place d version kind n out found e k
  document-IsValid place null n out h = (λ z. tt, λ z. ap (λ p. p.0) (ok_inj (sym h)))
  document-IsValid place _ n out h = (λ z. tt, λ z. ap (λ p. p.0) (ok_inj (sym h)))

  documents-IsValid :
      (path : Text) (i : ℕ) (docs : List Value) (n : ℕ) (out : Text)
      → validate_documents load_all contents iter_errors repr registry path i docs ≡ ok (n, out)
      → (n ≡ 0) ↔ All IsValid docs
  unfolding validate_documents
  documents-IsValid path i [] n out h = (λ z. tt, λ z. ap (λ p. p.0) (ok_inj (sym h)))
  documents-IsValid path i (doc ∷ docs) n out h =
      let ((m, o), e, k) =
        >>=-eq-ok
          (validate_document load_all contents iter_errors repr registry (place_of path i) doc) _
          h in
      let ((more, o'), e', k') =
        >>=-eq-ok (validate_documents load_all contents iter_errors repr registry path (suc i) docs)
          _ k in
      let q : m + more ≡ n = ap (λ p. p.0) (ok_inj k') in
      let both =
        sum-nil m more (document-IsValid (place_of path i) doc m o e)
          (documents-IsValid path (suc i) docs more o' e') in
      rw q at both

  module _ ⦃u : Unicode⦄ (read_text : Text → Result Text) where
    -- Every document of the file is valid.
    abbrev pub FileIsValid : Text → Type 0
    FileIsValid path =
        (docs : List Value)
        → documents load_all contents iter_errors repr registry read_text path ≡ ok docs
        → All IsValid docs

    file-FileIsValid :
        (path : Text) (n : ℕ) (out : Text)
        → validate_file load_all contents iter_errors repr registry read_text path ≡ ok (n, out)
        → (n ≡ 0) ↔ FileIsValid path
    unfolding validate_file
    file-FileIsValid path n out h =
        let (docs, e, k) =
          >>=-eq-ok (documents load_all contents iter_errors repr registry read_text path) _ h in
        let iff = documents-IsValid path 0 docs n out k in
        (
          λ z docs' e'. (let same : docs ≡ docs' = ok_inj (sym e ∙ e') in rw same at iff.0 z),
          λ all. iff.1 (all docs e),
        )

    files-FileIsValid :
        (paths : List Text) (n : ℕ) (out : Text)
        → validate_files load_all contents iter_errors repr registry read_text paths ≡ ok (n, out)
        → (n ≡ 0) ↔ All FileIsValid paths
    unfolding validate_files
    files-FileIsValid [] n out h = (λ z. tt, λ z. ap (λ p. p.0) (ok_inj (sym h)))
    files-FileIsValid (path ∷ paths) n out h =
        let ((m, o), e, k) =
          >>=-eq-ok (validate_file load_all contents iter_errors repr registry read_text path) _
            h in
        let ((more, o'), e', k') =
          >>=-eq-ok (validate_files load_all contents iter_errors repr registry read_text paths) _
            k in
        let q : m + more ≡ n = ap (λ p. p.0) (ok_inj k') in
        let both =
          sum-nil m more (file-FileIsValid path m o e) (files-FileIsValid paths more o' e') in
        rw q at both

    -- If validate_all ends without a fault, its exit code is 0 exactly when no document of any file
    -- has an error against the schema for its kind, and 1 otherwise.
    pub validate_all_iff :
        (paths : List Text) (code : ℕ) (out errors : Text)
        → validate_all load_all contents iter_errors repr registry read_text paths
          ≡ ok (code, out, errors)
        → ((code ≡ 0) ↔ All FileIsValid paths) × ((code ≡ 0) ⊎ (code ≡ 1))
    unfolding validate_all
    validate_all_iff paths code out errors h =
        let ((total, o), e, k) =
          >>=-eq-ok (validate_files load_all contents iter_errors repr registry read_text paths) _
            h in
        let iff = files-FileIsValid paths total o e in
        elim (Bool-cases (total == 0)) [
          | inl z ↦
              let passed : ok (0, o, []) ≡ ok (code, out, errors) = rw z at k in
              let c : 0 ≡ code = ap (λ p. p.0) (ok_inj passed) in
              let none_found : total ≡ 0 = zero-of total z in
              ((λ y. iff.0 none_found, λ all. sym c), inl (sym c))
          | inr z ↦
              let failed : ok (1, o, show total ++ codes " schema error(s)" ++ newline ∷ [])
                  ≡ ok (code, out, errors) =
                rw z at k in
              let c : 1 ≡ code = ap (λ p. p.0) (ok_inj failed) in
              (
                (λ y. absurd (omega arith), λ all. (absurd (zero-of_not total z (iff.1 all)))),
                inr (sym c),
              )
        ]
