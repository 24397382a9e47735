-- ===== src/Composition/Patches/Rank.antt =====
-- hack/render-composition.py: `apply_patches` ends if the patch sets do not name one another in a
-- circle, and never if a set names itself first.
use jenkins_to_actions_migra.Prelude.{
  ℕ, zero, suc, ◌<◌, ◌≡◌, ◌≢◌, refl, Text, codes, List, All, All-weaken, Option, some, arith,
}
use jenkins_to_actions_migra.Unicode.{Unicode}
use jenkins_to_actions_migra.Python.{ok, err, too_deep, or_raise-eq-ok, >>=-eq-ok}
use jenkins_to_actions_migra.Python.Access.{subscript, key_of}
use jenkins_to_actions_migra.Python.Yields.{
  Ends, Always, Quick, >>=-Yields, Yields-err, each-Yields,
}
use jenkins_to_actions_migra.Value.{
  Value, null, boolean, integer, other, string, list, dict, Items, cons, Fields,
}
use jenkins_to_actions_migra.Value.Dict.{get}
use jenkins_to_actions_migra.Composition.Patches.{
  items_or_none, patch_type, named_set, apply_patches,
}
use jenkins_to_actions_migra.Composition.Patches.Steps.{items_or_none-Ends}
use jenkins_to_actions_migra.Composition.Patches.Ends.{apply_patch-Ends}

key_of-eq-ok : (v : Value) (k : Text) → key_of v ≡ ok k → v ≡ string k
unfolding key_of
key_of-eq-ok (string t) k h = cc
key_of-eq-ok (list vs) k h = cc
key_of-eq-ok (dict d) k h = cc
key_of-eq-ok null k h = cc
key_of-eq-ok (boolean b) k h = cc
key_of-eq-ok (integer b n) k h = cc
key_of-eq-ok (other b t) k h = cc

-- A patch that finds its patch set names it by a text.
pub named_set-eq-ok :
    (sets : Fields) (p set : Value)
    → named_set sets p ≡ ok set
    → (k : Text) × (subscript p (codes "patchSetName") ≡ ok (string k)) × (get k sets ≡ some set)
unfolding named_set
named_set-eq-ok sets p set h =
    let (name, e, h') = >>=-eq-ok (subscript p (codes "patchSetName")) _ h in
    let (k, e', h'') = >>=-eq-ok (key_of name) _ h' in
    (k, rw (← key_of-eq-ok name k e') e, or_raise-eq-ok (get k sets) h'')

module _ (rank : Text → ℕ) where
  -- The patch sets that a list of patches names have ranks below `n`.
  abbrev pub NamesBelow : ℕ → Option Value → Type 0
  NamesBelow n patches =
      (ps : List Value)
      → items_or_none patches ≡ ok ps
      → All (λ p. (k : Text) → subscript p (codes "patchSetName") ≡ ok (string k) → rank k < n) ps

  -- A patch set names only sets of lower rank.
  abbrev pub Ranked : Fields → Type 0
  Ranked sets = (k : Text) (set : Value) → get k sets ≡ some set → NamesBelow (rank k) (some set)

  module _ (repr : Value → Text) ⦃u : Unicode⦄ (xr : Value) (sets : Fields) (r : Ranked sets) where
    apply_patches-Ends :
        (fuel n : ℕ) (patches : Option Value) (target : Value)
        → NamesBelow n patches
        → n < fuel
        → Ends (apply_patches repr fuel xr sets patches target)
    unfolding apply_patches
    apply_patches-Ends zero n patches target b h = absurd (omega arith)
    apply_patches-Ends (suc fuel) n patches target b h =
        >>=-Yields (items_or_none patches) _ (λ e. Yields-err _ e (items_or_none-Ends patches))
          λ ps e.
            each-Yields Always Quick _ ps target
              (All-weaken _ _ ps
                (λ p below t _.
                  apply_patch-Ends repr (λ s. apply_patches repr fuel xr sets (some s)) xr sets p t
                    λ set e'.
                      let (k, named, found) = named_set-eq-ok sets p set e' in
                      let lt = below k named in
                      apply_patches-Ends fuel (rank k) (some set) t (r k set found) (omega arith))
                (b ps e))
              tt

    -- Where every patch set names only sets of lower rank, and the patches only sets of a rank below
    -- `n`, more than `n` nested calls are enough: `apply_patches` does not run out of them.
    pub apply_patches-ends :
        (fuel n : ℕ) (patches : Option Value) (target : Value)
        → NamesBelow n patches
        → n < fuel
        → apply_patches repr fuel xr sets patches target ≢ err too_deep
    apply_patches-ends fuel n patches target b h e =
        Yields-err _ too_deep (apply_patches-Ends fuel n patches target b h) e

-- With a patch set whose first patch names that set, no number of nested calls is enough.
pub apply_patches-circle :
    (repr : Value → Text) ⦃u : Unicode⦄ (xr : Value) (sets : Fields) (p : Value) (ps : Items)
    → patch_type p ≡ ok (string (codes "PatchSet"))
    → named_set sets p ≡ ok (list (cons p ps))
    → (fuel : ℕ) (target : Value)
    → apply_patches repr fuel xr sets (some (list (cons p ps))) target ≡ err too_deep
unfolding apply_patches
apply_patches-circle repr xr sets p ps t s zero target = refl
apply_patches-circle repr xr sets p ps t s (suc fuel) target =
    rw (t, s, apply_patches-circle repr xr sets p ps t s fuel target) refl
