-- ===== src/Composition/Patches/Spares.antt =====
-- hack/render-composition.py: `apply_patches` changes nothing at a path from which all paths that the
-- patches write to part.
use jenkins_to_actions_migra.Prelude.{
  ℕ, ◌≡◌, refl, sym, ◌∙◌, Text, false, codes, equal, List, ◌∷◌, ◌++◌, Option, some,
}
use jenkins_to_actions_migra.Unicode.{Unicode}
use jenkins_to_actions_migra.Python.{Fault, ok, err, ok_inj, >>=-eq-ok, if-eq-ok}
use jenkins_to_actions_migra.Python.Access.{subscript, text_of, is_container}
use jenkins_to_actions_migra.Value.{Value, string, Fields}
use jenkins_to_actions_migra.Value.Dict.{get}
use jenkins_to_actions_migra.Composition.{Seg, key, get_path, set_path}
use jenkins_to_actions_migra.Composition.Apart.{get_path-set_path_apart}
use jenkins_to_actions_migra.Composition.Segments.{segments, write_path}
use jenkins_to_actions_migra.Composition.Patches.{store, apply_patches}
use jenkins_to_actions_migra.Composition.Patches.Keeps.{Each, apply_patches-keeps}

-- Two paths that have a beginning in common and go on with different keys.
pub record Parts (q segs : List Seg) : Type 0 where
  pub common : List Seg
  pub j : Text
  pub r : List Seg
  pub k : Text
  pub s : List Seg
  pub read : q ≡ common ++ key j ∷ r
  pub written : segs ≡ common ++ key k ∷ s
  pub differ : equal j k ≡ false

set_path-Parts :
    {q : List Seg} (segs : List Seg) (target value out : Value)
    → Parts q segs
    → set_path target segs value ≡ ok out
    → get_path out q ≡ get_path target q
set_path-Parts segs target value out a h = rw a.read (
    get_path-set_path_apart a.j a.k a.differ a.common a.s a.r target value out (rw (← a.written) h))

module _ ⦃u : Unicode⦄ (q : List Seg) where
  -- The path that a patch writes to parts from `q`.
  abbrev pub Spares : Value → Type 0
  Spares p =
      (path : Value) (t : Text) (segs : List Seg)
      → subscript p (codes "toFieldPath") ≡ ok path
      → text_of path ≡ ok t
      → segments t ≡ ok segs
      → Parts q segs

  store-Spares :
      (v p value target out : Value)
      → Spares p
      → get_path target q ≡ v
      → store p value target ≡ ok out
      → get_path out q ≡ v
  unfolding store write_path
  store-Spares v p value target out g i h =
      let (path, e, h') = >>=-eq-ok (subscript p (codes "toFieldPath")) _ h in
      let written = if-eq-ok _ (is_container value) (write_path target path value) h' in
      let (t, e', w) = >>=-eq-ok (text_of path) _ written in
      let (segs, e'', set) = >>=-eq-ok (segments t) _ w in
      set_path-Parts segs target value out (g path t segs e e' e'') set ∙ i

module _ (repr : Value → Text) ⦃u : Unicode⦄ (q : List Seg) (xr : Value) (sets : Fields)
    (spared : (k : Text) (set : Value) → get k sets ≡ some set → Each (Spares q) (some set)) where
  -- Where the patches, those of the patch sets included, write only to paths that part from `q`,
  -- `apply_patches` leaves what `get_path` reads at `q`.
  pub apply_patches-Spares :
      (fuel : ℕ) (patches : Option Value) (target out : Value)
      → Each (Spares q) patches
      → apply_patches repr fuel xr sets patches target ≡ ok out
      → get_path out q ≡ get_path target q
  apply_patches-Spares fuel patches target out g h =
      apply_patches-keeps repr (Spares q) (λ t. get_path t q ≡ get_path target q)
        (λ p value t o gp i e. store-Spares q (get_path target q) p value t o gp i e) xr sets spared
        fuel patches target out g h refl

-- A patch with a path that is known, and one without a path.
module _ ⦃u : Unicode⦄ (q : List Seg) (p : Value) where
  pub Spares-of :
      (t : Text) (segs : List Seg)
      → subscript p (codes "toFieldPath") ≡ ok (string t)
      → segments t ≡ ok segs
      → Parts q segs
      → Spares q p
  unfolding text_of
  Spares-of t segs e e' a path t' segs' h h' h'' =
      let same : t ≡ t' = ok_inj (rw (← ok_inj (sym e ∙ h)) at h') in
      rw (ok_inj (sym h'' ∙ rw same at e')) a

  pub Spares-none : (f : Fault) → subscript p (codes "toFieldPath") ≡ err f → Spares q p
  Spares-none f e path t segs h h' h'' = cc
