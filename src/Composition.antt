-- ===== src/Composition.antt =====
-- hack/render-composition.py: reading and writing a document at a path, `get_path` and `set_path`.
-- Writing changes the document in place; here it returns the changed document. Keys are texts: an
-- index that would become a key of a dict leaves the model.
pub mod Paths
pub mod Segments
pub mod Format
pub mod Patches
pub mod Pipeline
pub mod Apart
use jenkins_to_actions_migra.Prelude.{
  ℕ, zero, suc, Text, Option, none, some, leb, if◌then◌else◌, List, [], ◌∷◌,
}
use jenkins_to_actions_migra.Python.{raises, unmodelled, Result, ok, err, ◌>>=◌, or_raise}
use jenkins_to_actions_migra.Value.{
  Value, null, boolean, integer, other, string, list, dict, Items, nil, cons, end,
}
use jenkins_to_actions_migra.Value.Dict.{get, put, size}

-- A segment of a path, `.key` or `[i]`.
pub data Seg : Type 0 where
  key : Text → Seg
  index : ℕ → Seg

-- `cur[i]` on a list, with `none` past the end.
unfoldable pub item : ℕ → Items → Option Value
item n nil = none
item zero (cons v vs) = some v
item (suc n) (cons v vs) = item n vs

-- `cur[i] = v` on a list.
unfoldable pub set_item : ℕ → Value → Items → Items
set_item n w nil = nil
set_item zero w (cons v vs) = cons w vs
set_item (suc n) w (cons v vs) = cons v (set_item n w vs)

-- `while len(cur) < n: cur.append(w)`
unfoldable pub padded : ℕ → Value → Items → Items
padded zero w vs = vs
padded (suc n) w nil = cons w (padded n w nil)
padded (suc n) w (cons v vs) = cons v (padded n w vs)

-- One step of `get_path`.
unfoldable pub child : Value → Seg → Option Value
unfolding item get
child (list vs) (index i) = item i vs
child (dict d) (key k) = get k d
child _ _ = none

-- The loop of `get_path`; None is the value `null`.
unfoldable pub get_path : Value → List Seg → Value
unfolding child
get_path cur [] = cur
get_path cur (seg ∷ segs) = elim (child cur seg) [ none ↦ null | some v ↦ get_path v segs ]

-- `[] if isinstance(nxt, int) else {}`
unfoldable pub empty_for : Seg → Value
empty_for (index i) = list nil
empty_for (key k) = dict end

-- `cur[seg] = v`, where a list is first filled up with `w`. At a dict with few keys the filling up
-- raises; at another the index becomes a key.
unfoldable pub assign : Value → Value → Seg → Value → Result Value
unfolding set_item padded put size
assign w (list vs) (index i) v = ok (list (set_item i v (padded (suc i) w vs)))
assign w (dict d) (key k) v = ok (dict (put k v d))
assign w (dict d) (index i) v = err (if leb (size d) i then raises else unmodelled)
assign w _ _ v = err raises

-- The value under a key, where a missing one or None gives way to `w`.
unfoldable pub or_empty : Value → Option Value → Value
or_empty w none = w
or_empty w (some null) = w
or_empty w (some v) = v

-- The value that the next segment is looked up in, once it is there.
unfoldable pub descend : Value → Value → Seg → Result Value
unfolding item padded or_empty get
descend w (list vs) (index i) = or_raise (item i (padded (suc i) w vs))
descend w (dict d) (key k) = ok (or_empty w (get k d))
descend w _ _ = err raises

-- The loop of `set_path`.
unfoldable pub set_path : Value → List Seg → Value → Result Value
unfolding assign descend empty_for
set_path cur [] v = ok cur
set_path cur (seg ∷ []) v = assign (list nil) cur seg v
set_path cur (seg ∷ nxt ∷ segs) v = do
  below ← descend (empty_for nxt) cur seg
  changed ← set_path below (nxt ∷ segs) v
  assign (empty_for nxt) cur seg changed
