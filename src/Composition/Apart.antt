-- ===== src/Composition/Apart.antt =====
-- hack/render-composition.py: `set_path` leaves alone what `get_path` reads at a path that parts from
-- its own.
use jenkins_to_actions_migra.Prelude.{
  zero, suc, ℕ, Text, false, Option, none, some, List, [], ◌∷◌, ◌++◌, ◌≡◌, refl, sym, ap, ◌∙◌, inl,
  inr, equal, ◌⊎◌,
}
use jenkins_to_actions_migra.Python.{ok, or_raise, or_raise-eq-ok, ok_inj}
use jenkins_to_actions_migra.Value.{
  Value, null, boolean, integer, other, string, list, dict, Items, nil, cons,
}
use jenkins_to_actions_migra.Value.Dict.{get}
use jenkins_to_actions_migra.Value.Dict.Laws.{get-put_other}
use jenkins_to_actions_migra.Composition.{
  Seg, key, index, item, padded, child, get_path, empty_for, assign, or_empty, descend, set_path,
}
use jenkins_to_actions_migra.Composition.Paths.{steps, get_path-child, child-assign, item-padded}

get_path-empty_for : (nxt t : Seg) (r : List Seg) → get_path (empty_for nxt) (t ∷ r) ≡ null
unfolding get_path empty_for child item get
get_path-empty_for (index i) (index n) r = refl
get_path-empty_for (index i) (key k) r = refl
get_path-empty_for (key k) (index n) r = refl
get_path-empty_for (key k) (key k') r = refl

-- Filling up a list adds the filler or changes nothing that is read.
item-padded_cases :
    (n : ℕ) (w : Value) (vs : Items)
    → ((item n vs ≡ none) × (item n (padded (suc n) w vs) ≡ some w))
      ⊎ (item n (padded (suc n) w vs) ≡ item n vs)
unfolding item padded
item-padded_cases zero w nil = inl (refl, refl)
item-padded_cases zero w (cons v vs) = inr refl
item-padded_cases (suc n) w nil = inl (refl, item-padded n w)
item-padded_cases (suc n) w (cons v vs) = item-padded_cases n w vs

child-null : (t : Seg) → child null t ≡ none
unfolding child
child-null t = refl

get_path-none :
    (cur : Value) (seg : Seg) (r : List Seg) → child cur seg ≡ none → get_path cur (seg ∷ r) ≡ null
unfolding get_path
get_path-none cur seg r h = rw (h, get_path) refl

-- Opening a child makes it where it is missing, which no reading below it sees.
get_path-or_empty :
    (nxt t : Seg) (r : List Seg) (o : Option Value)
    → get_path (or_empty (empty_for nxt) o) (t ∷ r)
      ≡ elim o [ none ↦ null | some v ↦ get_path v (t ∷ r) ]
unfolding or_empty
get_path-or_empty nxt t r none = get_path-empty_for nxt t r
get_path-or_empty nxt t r (some null) =
    get_path-empty_for nxt t r ∙ sym (get_path-none null t r (child-null t))
get_path-or_empty nxt t r (some (boolean b)) = refl
get_path-or_empty nxt t r (some (integer b n)) = refl
get_path-or_empty nxt t r (some (other b s)) = refl
get_path-or_empty nxt t r (some (string s)) = refl
get_path-or_empty nxt t r (some (list vs)) = refl
get_path-or_empty nxt t r (some (dict d)) = refl

get_path-descend :
    (nxt : Seg) (cur : Value) (seg : Seg) (below : Value) (t : Seg) (r : List Seg)
    → descend (empty_for nxt) cur seg ≡ ok below
    → get_path below (t ∷ r) ≡ get_path cur (seg ∷ t ∷ r)
unfolding get_path descend child
get_path-descend nxt (list vs) (index i) below t r h =
    elim (item-padded_cases i (empty_for nxt) vs) [
      | inl (e, p) ↦
          rw (← ok_inj (ap or_raise (sym p) ∙ h))
            (get_path-empty_for nxt t r ∙ sym (get_path-none (list vs) (index i) (t ∷ r) e))
      | inr p ↦ sym (get_path-child (list vs) below (index i) (t ∷ r) (sym p ∙ or_raise-eq-ok _ h))
    ]
get_path-descend nxt (dict d) (key k) below t r h =
    rw (← ok_inj h) (get_path-or_empty nxt t r (get k d))
get_path-descend nxt (list vs) (key k) below t r h = cc
get_path-descend nxt (dict d) (index i) below t r h = cc
get_path-descend nxt null seg below t r h = cc
get_path-descend nxt (boolean b) seg below t r h = cc
get_path-descend nxt (integer b n) seg below t r h = cc
get_path-descend nxt (other b s) seg below t r h = cc
get_path-descend nxt (string s) seg below t r h = cc

module _ (j k : Text) (ne : equal j k ≡ false) where
  child-assign_other :
      (w cur c out : Value)
      → assign w cur (key k) c ≡ ok out
      → child out (key j) ≡ child cur (key j)
  unfolding assign child
  child-assign_other w (dict d) c out h = rw (← ok_inj h) (get-put_other j k ne c d)
  child-assign_other w (list vs) c out h = cc
  child-assign_other w null c out h = cc
  child-assign_other w (boolean b) c out h = cc
  child-assign_other w (integer b n) c out h = cc
  child-assign_other w (other b t) c out h = cc
  child-assign_other w (string t) c out h = cc

  pub get_path-other :
      (w cur c out : Value) (r : List Seg)
      → assign w cur (key k) c ≡ ok out
      → get_path out (key j ∷ r) ≡ get_path cur (key j ∷ r)
  unfolding get_path
  get_path-other w cur c out r h = rw (child-assign_other w cur c out h, get_path) refl

  -- What `set_path` writes at a path is not seen at a path that parts from it at a key: all that
  -- `get_path` reads there is what it read before.
  pub get_path-set_path_apart :
      (common s r : List Seg) (cur v out : Value)
      → set_path cur (common ++ key k ∷ s) v ≡ ok out
      → get_path out (common ++ key j ∷ r) ≡ get_path cur (common ++ key j ∷ r)
  unfolding set_path
  get_path-set_path_apart [] [] r cur v out h = get_path-other (list nil) cur v out r h
  get_path-set_path_apart [] (nxt ∷ s) r cur v out h =
      let (below, b, changed, c, e) = steps cur (key k) nxt s v out h in
      get_path-other (empty_for nxt) cur changed out r e
  get_path-set_path_apart (seg ∷ []) s r cur v out h =
      let (below, b, changed, c, e) = steps cur seg (key k) s v out h in
      get_path-child out changed seg (key j ∷ r)
        (child-assign (empty_for (key k)) cur seg changed out e)
      ∙ get_path-set_path_apart [] s r below v changed c
      ∙ get_path-descend (key k) cur seg below (key j) r b
  get_path-set_path_apart (seg ∷ nxt ∷ common) s r cur v out h =
      let (below, b, changed, c, e) = steps cur seg nxt (common ++ key k ∷ s) v out h in
      get_path-child out changed seg (nxt ∷ common ++ key j ∷ r)
        (child-assign (empty_for nxt) cur seg changed out e)
      ∙ get_path-set_path_apart (nxt ∷ common) s r below v changed c
      ∙ get_path-descend nxt cur seg below nxt (common ++ key j ∷ r) b
