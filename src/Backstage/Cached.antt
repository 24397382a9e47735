-- ===== src/Backstage/Cached.antt =====
-- hack/validate-backstage.py: a run of `fetch_schemas` whose schemas are all in the cache.
use jenkins_to_actions_migra.Prelude.{
  false, Text, equal, equal_sound, equal_refl, Option, none, some, List, [], ◌∷◌, ◌≡◌, refl, sym,
  ap, ◌∙◌, inl, inr, Bool-cases,
}
use jenkins_to_actions_migra.Python.{Result, ok, each, >>=-eq-ok, ok_inj}
use jenkins_to_actions_migra.Value.{Value}
use jenkins_to_actions_migra.Backstage.Fetch.{
  schemas, base_name, schema_url, Cache, cached_text, read_newlines, cached_schema, raw_schema,
  register_schema, add_schema, fetch_schemas,
}

-- A file that is there stays as it is.
abbrev Extends : Cache → Cache → Type 0
Extends c c' = (name t : Text) → cached_text name c ≡ some t → cached_text name c' ≡ some t

new-Extends :
    (name raw : Text) (c : Cache) → cached_text name c ≡ none → Extends c ((name, raw) ∷ c)
unfolding cached_text
new-Extends name raw c h n t k = elim (Bool-cases (equal n name)) [
  | inl e ↦
      (let absent : none ≡ some t = sym h ∙ (let same = equal_sound n name e in rw same at k) in cc)
  | inr e ↦ rw e k
]

module _ (loads : Text → Result Value)
    (loads_lem : (t : Text) → loads (read_newlines false t) ≡ loads t)
    (download : Text → Result Text) (ref : Text) where
  -- The file that a schema is read from next time.
  abbrev Kept : Text → Text → Cache → Type 0
  Kept rel raw c =
      (t : Text) × (cached_text (base_name rel) c ≡ some t)
      × (loads (read_newlines false t) ≡ loads raw)

  cached-Kept :
      (rel raw : Text) (c : Cache) (after : Option Cache) (found : Option Text)
      → cached_text (base_name rel) c ≡ found
      → cached_schema download ref rel c found ≡ ok (raw, after)
      → (c' : Cache) × (after ≡ some c') × Extends c c' × Kept rel raw c'
  unfolding cached_schema cached_text
  cached-Kept rel raw c after (some t) e h =
      let g = ok_inj h in (c, sym (ap (λ p. p.1) g), λ n u k. k, (t, e, ap (λ p. loads p.0) g))
  cached-Kept rel raw c after none e h =
      let (r, e', k) = >>=-eq-ok (download (schema_url ref rel)) _ h in
      let g = ok_inj k in
      let same : r ≡ raw = ap (λ p. p.0) g in
      (
        (base_name rel, r) ∷ c,
        sym (ap (λ p. p.1) g),
        new-Extends (base_name rel) r c e,
        (r, rw (equal_refl (base_name rel)) refl, loads_lem r ∙ ap loads same),
      )

  -- Another run, whatever it downloads.
  module _ {Resource Registry : Type 0} (from_contents : Value → Result Resource)
      (with_resource : Value → Resource → Registry → Result Registry)
      (download' : Text → Result Text) (ref' : Text) where
    abbrev Again : List (Text × Text) → Registry → Registry → Cache → Type 0
    Again ss registry grown c =
        (b : Cache)
        → Extends c b
        → each (add_schema loads from_contents with_resource download' ref') ss (registry, some b)
          ≡ ok (grown, some b)

    add_schema-Again :
        (s : Text × Text) (registry grown : Registry) (c : Cache) (after : Option Cache)
        → add_schema loads from_contents with_resource download ref s (registry, some c)
          ≡ ok (grown, after)
        → (c' : Cache) × (after ≡ some c')
          × Extends c c'
          × ((b : Cache)
              → Extends c' b
              → add_schema loads from_contents with_resource download' ref' s (registry, some b)
                ≡ ok (grown, some b))
    unfolding add_schema raw_schema cached_schema
    add_schema-Again (name, rel) registry grown c after h =
        let ((raw, a), e, k) = >>=-eq-ok (raw_schema download ref rel (some c)) _ h in
        let (doc, e', k') = >>=-eq-ok (loads raw) _ k in
        let (g, e'', k'') =
          >>=-eq-ok (register_schema loads from_contents with_resource name doc registry) _ k' in
        let (c', q, ext, (t, there, same)) =
          cached-Kept rel raw c a (cached_text (base_name rel) c) refl e in
        (
          c',
          ap (λ p. p.1) (sym (ok_inj k'')) ∙ q,
          ext,
          λ b more.
              rw (more (base_name rel) t there, same, e', e'')
                (ap (λ x. ok (x, some b)) (ap (λ p. p.0) (ok_inj k''))),
        )

    schemas-Again :
        (ss : List (Text × Text)) (registry grown : Registry) (c : Cache) (after : Option Cache)
        → each (add_schema loads from_contents with_resource download ref) ss (registry, some c)
          ≡ ok (grown, after)
        → (c' : Cache) × (after ≡ some c') × Extends c c' × Again ss registry grown c'
    unfolding each
    schemas-Again [] registry grown c after h =
        let g = ok_inj h in
        (c, sym (ap (λ p. p.1) g), λ n u k. k, λ b more. ap (λ x. ok (x, some b)) (ap (λ p. p.0) g))
    schemas-Again (s ∷ ss) registry grown c after h =
        let ((middle, a), e, k) =
          >>=-eq-ok (add_schema loads from_contents with_resource download ref s (registry, some c))
            _ h in
        let (c', q, ext, again) = add_schema-Again s registry middle c a e in
        let (c'', q', ext', rest) = schemas-Again ss middle grown c' after (
          ap (λ x. each (add_schema loads from_contents with_resource download ref) ss (middle, x))
            (sym q)
          ∙ k) in
        (
          c'',
          q',
          λ n u l. ext' n u (ext n u l),
          λ b more. rw (again b λ n u l. more n u (ext' n u l)) (rest b more),
        )

    -- If json.loads does not mind how lines end: once fetch_schemas has succeeded with a cache, a run
    -- with that cache, for whatever ref and whatever a download gives, ends with the same registry and
    -- leaves the cache as it is.
    pub fetch_schemas-cached :
        (empty registry : Registry) (c : Cache) (after : Option Cache)
        → fetch_schemas loads from_contents with_resource download ref empty (some c)
          ≡ ok (registry, after)
        → fetch_schemas loads from_contents with_resource download' ref' empty after
          ≡ ok (registry, after)
    unfolding fetch_schemas
    fetch_schemas-cached empty registry c after h =
        let (c', q, ext, again) = schemas-Again schemas empty registry c after h in
        rw q (again c' λ n u k. k)
