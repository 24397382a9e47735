-- ===== src/Composition/Pipeline/Objects.antt =====
-- hack/render-composition.py: the name of a composed object, and what it keeps of its base.
use jenkins_to_actions_migra.Prelude.{
  ℕ, ◌≡◌, refl, sym, ap, ◌∙◌, Text, false, Bool-cases, inl, inr, ◌⊎◌, codes, equal, List, [], ◌∷◌,
  Option, none, some,
}
use jenkins_to_actions_migra.Unicode.{Unicode}
use jenkins_to_actions_migra.Python.{ok, >>=-eq-ok, or_raise-eq-ok, if-eq-ok, ok_inj}
use jenkins_to_actions_migra.Python.Access.{subscript, entry, or_else, is_container}
use jenkins_to_actions_migra.Value.{
  Value, null, boolean, integer, other, string, list, dict, nil, Fields, end,
}
use jenkins_to_actions_migra.Value.Dict.{get, has, truthy}
use jenkins_to_actions_migra.Value.Dict.Laws.{get-put_other}
use jenkins_to_actions_migra.Composition.{Seg, key, child, get_path, assign}
use jenkins_to_actions_migra.Composition.Paths.{get_path-child, child-assign}
use jenkins_to_actions_migra.Composition.Apart.{get_path-other}
use jenkins_to_actions_migra.Composition.Patches.{apply_patches}
use jenkins_to_actions_migra.Composition.Patches.Keeps.{Each}
use jenkins_to_actions_migra.Composition.Patches.Spares.{Spares, apply_patches-Spares}
use jenkins_to_actions_migra.Composition.Pipeline.{
  Yaml, with_metadata, set_metadata, composed_name, set_namespace, resource_object,
}

abbrev pub metadata_key : Text
metadata_key = codes "metadata"

abbrev pub name_path : List Seg
name_path = key metadata_key ∷ key (codes "name") ∷ []

child-subscript :
    (v : Value) (k : Text) (w : Value) → subscript v k ≡ ok w → child v (key k) ≡ some w
unfolding subscript child
child-subscript (dict d) k w h = or_raise-eq-ok (get k d) h
child-subscript (list vs) k w h = cc
child-subscript null k w h = cc
child-subscript (boolean b) k w h = cc
child-subscript (integer b n) k w h = cc
child-subscript (other b t) k w h = cc
child-subscript (string t) k w h = cc

-- What `set_metadata` writes is read back.
get_path-set_metadata :
    (k : Text) (v obj out : Value)
    → set_metadata k v obj ≡ ok out
    → get_path out (key metadata_key ∷ key k ∷ []) ≡ v
unfolding set_metadata get_path
get_path-set_metadata k v obj out h =
    let (m, e, h') = >>=-eq-ok (subscript obj metadata_key) _ h in
    let (c, e', h'') = >>=-eq-ok (assign (list nil) m (key k) v) _ h' in
    get_path-child out c (key metadata_key) (key k ∷ []) (child-assign _ obj _ c out h'')
    ∙ get_path-child c v (key k) [] (child-assign _ m _ v c e')

-- Another entry of the metadata is left alone.
set_metadata_other :
    (j k : Text) (v obj out : Value)
    → equal j k ≡ false
    → set_metadata k v obj ≡ ok out
    → get_path out (key metadata_key ∷ key j ∷ []) ≡ get_path obj (key metadata_key ∷ key j ∷ [])
unfolding set_metadata
set_metadata_other j k v obj out ne h =
    let (m, e, h') = >>=-eq-ok (subscript obj metadata_key) _ h in
    let (c, e', h'') = >>=-eq-ok (assign (list nil) m (key k) v) _ h' in
    get_path-child out c (key metadata_key) (key j ∷ []) (child-assign _ obj _ c out h'')
    ∙ get_path-other j k ne (list nil) m v c [] e'
    ∙ sym (get_path-child obj m (key metadata_key) (key j ∷ []) (child-subscript obj _ m e))

-- What stands beside the metadata is left alone.
module _ (j : Text) (ne : equal j metadata_key ≡ false) (r : List Seg) where
  set_metadata_beside :
      (k : Text) (v obj out : Value)
      → set_metadata k v obj ≡ ok out
      → get_path out (key j ∷ r) ≡ get_path obj (key j ∷ r)
  unfolding set_metadata
  set_metadata_beside k v obj out h =
      let (m, e, h') = >>=-eq-ok (subscript obj metadata_key) _ h in
      let (c, e', h'') = >>=-eq-ok (assign (list nil) m (key k) v) _ h' in
      get_path-other j metadata_key ne (list nil) obj c out r h''

  with_metadata_beside :
      (obj out : Value)
      → with_metadata obj ≡ ok out
      → get_path out (key j ∷ r) ≡ get_path obj (key j ∷ r)
  unfolding with_metadata get_path child
  with_metadata_beside (dict d) out h = rw (← ok_inj h) (
      ap {A = Option Value} (λ o. elim o [ none ↦ null | some v ↦ get_path v r ])
        (elim (Bool-cases (has metadata_key d)) [
          | inl e ↦ rw e refl
          | inr e ↦ rw e (get-put_other j metadata_key ne (dict end) d)
        ]))
  with_metadata_beside (list vs) out h = cc
  with_metadata_beside null out h = cc
  with_metadata_beside (boolean b) out h = cc
  with_metadata_beside (integer b n) out h = cc
  with_metadata_beside (other b t) out h = cc
  with_metadata_beside (string t) out h = cc

-- The namespace is written, or nothing is.
set_namespace_cases :
    (xr obj out : Value)
    → set_namespace xr obj ≡ ok out
    → (obj ≡ out) ⊎ ((v : Value) × (set_metadata (codes "namespace") v obj ≡ ok out))
unfolding set_namespace
set_namespace_cases xr obj out h =
    let (m, e, h') = >>=-eq-ok (subscript xr metadata_key) _ h in
    let (found, e', h'') = >>=-eq-ok (entry m (codes "namespace")) _ h' in
    let v = or_else null found in
    elim (Bool-cases (truthy v)) [
      | inl t ↦ inr (v, if-eq-ok _ (is_container v) _ (rw t at h''))
      | inr t ↦ inl (ok_inj (rw t at h''))
    ]

-- No patch of the resource, and none of a patch set, writes to `q` or above or below it.
abbrev pub Untouched : ⦃u : Unicode⦄ → Fields → Value → List Seg → Type 0
Untouched sets res q =
    ((patches : Option Value) → entry res (codes "patches") ≡ ok patches → Each (Spares q) patches)
    × ((k : Text) (set : Value) → get k sets ≡ some set → Each (Spares q) (some set))

-- The steps of `resource_object`, from the base on.
pub record Composed (yaml : Yaml) (repr : Value → Text) ⦃u : Unicode⦄ (fuel : ℕ) (xr : Value)
    (sets : Fields) (res obj : Value) : Type 0 where
  pub base : Value
  pub loaded : Value
  pub labelled : Value
  pub named : Value
  pub placed : Value
  pub name : Text
  pub patches : Option Value
  pub has_base : subscript res (codes "base") ≡ ok base
  pub loads : yaml.reload base ≡ ok loaded
  pub labels : with_metadata loaded ≡ ok labelled
  pub has_name : composed_name repr xr res ≡ ok name
  pub names : set_metadata (codes "name") (string name) labelled ≡ ok named
  pub places : set_namespace xr named ≡ ok placed
  pub has_patches : entry res (codes "patches") ≡ ok patches
  pub patched : apply_patches repr fuel xr sets patches placed ≡ ok obj

module _ (yaml : Yaml) (repr : Value → Text) ⦃u : Unicode⦄ (fuel : ℕ) (xr : Value) (sets : Fields)
    (res obj : Value) (h : resource_object yaml repr fuel xr sets res ≡ ok obj) where
  composed : Composed yaml repr fuel xr sets res obj
  unfolding resource_object
  composed =
      let (base, e1, h1) = >>=-eq-ok (subscript res (codes "base")) _ h in
      let (loaded, e2, h2) = >>=-eq-ok (yaml.reload base) _ h1 in
      let (labelled, e3, h3) = >>=-eq-ok (with_metadata loaded) _ h2 in
      let (name, e4, h4) = >>=-eq-ok (composed_name repr xr res) _ h3 in
      let (named, e5, h5) = >>=-eq-ok (set_metadata (codes "name") (string name) labelled) _ h4 in
      let (placed, e6, h6) = >>=-eq-ok (set_namespace xr named) _ h5 in
      let (patches, e7, h7) = >>=-eq-ok (entry res (codes "patches")) _ h6 in
      record {
        base = base;
        loaded = loaded;
        labelled = labelled;
        named = named;
        placed = placed;
        name = name;
        patches = patches;
        has_base = e1;
        loads = e2;
        labels = e3;
        has_name = e4;
        names = e5;
        places = e6;
        has_patches = e7;
        patched = h7;
      }

  -- A composed object has the name of the XR and of the resource, joined by a dash, where no patch
  -- writes to the name.
  pub object_name :
      (name : Text)
      → composed_name repr xr res ≡ ok name
      → Untouched sets res name_path
      → get_path obj name_path ≡ string name
  unfolding equal
  object_name name e spared =
      let c = composed in
      apply_patches-Spares repr name_path xr sets spared.1 fuel c.patches c.placed obj
        (spared.0 c.patches c.has_patches) c.patched
      ∙ elim (set_namespace_cases xr c.named c.placed c.places) [
        | inl same ↦ rw (← same) refl
        | inr (v, set) ↦
            set_metadata_other (codes "name") (codes "namespace") v c.named c.placed refl set
      ]
      ∙ get_path-set_metadata (codes "name") (string c.name) c.labelled c.named c.names
      ∙ ap string (ok_inj (sym c.has_name ∙ e))

  -- If reloading a value keeps what can be read from it that is no list and no dict (safe_dump sorts
  -- the keys of a dict): beside the metadata, a composed object has the values of its base that are no
  -- list and no dict, a missing one included, wherever no patch writes.
  pub object_base :
      (base : Value) (j : Text) (r : List Seg)
      → ((v w : Value) (q : List Seg)
          → yaml.reload v ≡ ok w
          → is_container (get_path v q) ≡ false
          → get_path w q ≡ get_path v q)
      → subscript res (codes "base") ≡ ok base
      → equal j metadata_key ≡ false
      → Untouched sets res (key j ∷ r)
      → is_container (get_path base (key j ∷ r)) ≡ false
      → get_path obj (key j ∷ r) ≡ get_path base (key j ∷ r)
  object_base base j r keeps e ne spared scalar =
      let c = composed in
      apply_patches-Spares repr (key j ∷ r) xr sets spared.1 fuel c.patches c.placed obj
        (spared.0 c.patches c.has_patches) c.patched
      ∙ elim (set_namespace_cases xr c.named c.placed c.places) [
        | inl same ↦ rw (← same) refl
        | inr (v, set) ↦ set_metadata_beside j ne r (codes "namespace") v c.named c.placed set
      ]
      ∙ set_metadata_beside j ne r (codes "name") (string c.name) c.labelled c.named c.names
      ∙ with_metadata_beside j ne r c.loaded c.labelled c.labels
      ∙ keeps base c.loaded (key j ∷ r) (ap yaml.reload (ok_inj (sym e ∙ c.has_base)) ∙ c.loads)
          scalar
