-- ===== src/Composition/Paths.antt =====
-- hack/render-composition.py: what `get_path` reads after `set_path`, and that a missing path is made.
use jenkins_to_actions_migra.Prelude.{ℕ, zero, suc, some, List, [], ◌∷◌, ◌≡◌, refl, ap, ◌∙◌}
use jenkins_to_actions_migra.Python.{ok, or_raise, >>=-eq-ok, ok_inj}
use jenkins_to_actions_migra.Value.{
  Value, null, boolean, integer, other, string, list, dict, Items, nil, cons,
}
use jenkins_to_actions_migra.Value.Dict.Laws.{get-put}
use jenkins_to_actions_migra.Composition.{
  Seg, key, index, item, set_item, padded, child, get_path, empty_for, assign, descend, set_path,
}

item-set_item :
    (n : ℕ) (v w : Value) (vs : Items) → item n (set_item n v (padded (suc n) w vs)) ≡ some v
unfolding item set_item padded
item-set_item zero v w nil = refl
item-set_item zero v w (cons x vs) = refl
item-set_item (suc n) v w nil = item-set_item n v w nil
item-set_item (suc n) v w (cons x vs) = item-set_item n v w vs

pub item-padded : (n : ℕ) (w : Value) → item n (padded (suc n) w nil) ≡ some w
unfolding item padded
item-padded zero w = refl
item-padded (suc n) w = item-padded n w

pub child-assign :
    (w cur : Value) (seg : Seg) (v out : Value)
    → assign w cur seg v ≡ ok out
    → child out seg ≡ some v
unfolding assign child
child-assign w (list vs) (index i) v out h = rw (← ok_inj h) (item-set_item i v w vs)
child-assign w (dict d) (key k) v out h = rw (← ok_inj h) (get-put k v d)
child-assign w (list vs) (key k) v out h = cc
child-assign w (dict d) (index i) v out h = cc
child-assign w null seg v out h = cc
child-assign w (boolean b) seg v out h = cc
child-assign w (integer b n) seg v out h = cc
child-assign w (other b t) seg v out h = cc
child-assign w (string t) seg v out h = cc

-- A longer path: the value below is opened, changed and put back.
abbrev pub Steps : Value → Seg → Seg → List Seg → Value → Value → Type 0
Steps cur seg nxt segs v out =
    (below : Value) × (descend (empty_for nxt) cur seg ≡ ok below)
    × (changed : Value) × (set_path below (nxt ∷ segs) v ≡ ok changed)
    × (assign (empty_for nxt) cur seg changed ≡ ok out)

pub steps :
    (cur : Value) (seg nxt : Seg) (segs : List Seg) (v out : Value)
    → set_path cur (seg ∷ nxt ∷ segs) v ≡ ok out
    → Steps cur seg nxt segs v out
unfolding set_path
steps cur seg nxt segs v out h =
    let (below, b, h') = >>=-eq-ok (descend (empty_for nxt) cur seg) _ h in
    let (changed, c, h'') = >>=-eq-ok (set_path below (nxt ∷ segs) v) _ h' in
    (below, b, changed, c, h'')

-- Reading goes on with the child.
pub get_path-child :
    (cur v : Value) (seg : Seg) (segs : List Seg)
    → child cur seg ≡ some v
    → get_path cur (seg ∷ segs) ≡ get_path v segs
unfolding get_path
get_path-child cur v seg segs h = rw (h, get_path) refl

-- After `set_path` has written a value at a path, `get_path` reads that value at that path.
pub get_path-set_path :
    (cur : Value) (seg : Seg) (segs : List Seg) (v out : Value)
    → set_path cur (seg ∷ segs) v ≡ ok out
    → get_path out (seg ∷ segs) ≡ v
unfolding set_path get_path
get_path-set_path cur seg [] v out h =
    get_path-child out v seg [] (child-assign (list nil) cur seg v out h)
get_path-set_path cur seg (nxt ∷ segs) v out h =
    let (below, b, changed, c, e) = steps cur seg nxt segs v out h in
    get_path-child out changed seg (nxt ∷ segs) (child-assign (empty_for nxt) cur seg changed out e)
    ∙ get_path-set_path below nxt segs v changed c

-- Every path can be written in an empty document of its kind, which makes all that is missing.
item-descend : (w : Value) (seg : Seg) → descend w (empty_for seg) seg ≡ ok w
unfolding descend empty_for
item-descend w (index i) = ap or_raise (item-padded i w)
item-descend w (key k) = refl

assign-empty : (w v : Value) (seg : Seg) → (out : Value) × (assign w (empty_for seg) seg v ≡ ok out)
unfolding assign empty_for
assign-empty w v (index i) = (_, refl)
assign-empty w v (key k) = (_, refl)

-- In an empty document, a list if the path begins with an index and a dict if it begins with a key,
-- `set_path` raises for no path and no value, and `get_path` then reads the value at the path.
pub set_path-total :
    (seg : Seg) (segs : List Seg) (v : Value)
    → (out : Value) × ((set_path (empty_for seg) (seg ∷ segs) v ≡ ok out)
        × (get_path out (seg ∷ segs) ≡ v))
unfolding set_path
set_path-total seg segs v =
    let (out, h) = written seg segs in
    (out, (h, get_path-set_path (empty_for seg) seg segs v out h))
  where
    written :
        (seg : Seg) (segs : List Seg)
        → (out : Value) × (set_path (empty_for seg) (seg ∷ segs) v ≡ ok out)
    written seg [] = assign-empty (list nil) v seg
    written seg (nxt ∷ segs) =
        let (changed, c) = written nxt segs in
        let (out, e) = assign-empty (empty_for nxt) changed seg in
        (out, rw (item-descend (empty_for nxt) seg, c) e)
