-- ===== src/Tests/Reload.antt =====
-- A function like `yaml.safe_load(yaml.safe_dump(v))` of hack/render-composition.py: the keys of every
-- dict are sorted, and all else is kept.
use jenkins_to_actions_migra.Prelude.{
  ℕ, zero, suc, false, Bool-cases, inl, inr, List, [], ◌∷◌, Option, none, some, Text, equal,
  equal_sound, text_le, text_le_refl, ◌≡◌, refl, sym, ap, ◌∙◌, if◌then◌else◌,
}
use jenkins_to_actions_migra.Python.Access.{is_container}
use jenkins_to_actions_migra.Value.{
  Value, null, boolean, integer, other, string, list, dict, Items, nil, cons, Fields, end, field,
}
use jenkins_to_actions_migra.Value.Dict.{get}
use jenkins_to_actions_migra.Composition.{Seg, key, index, item, child, get_path}

unfoldable add_field : Text → Value → Fields → Fields
unfolding text_le
add_field k v end = field k v end
add_field k v (field k' v' d) =
    let rest = add_field k v d in
    if text_le k k' then field k v (field k' v' d) else field k' v' rest

unfoldable mutual
  unfolding add_field

  pub reloaded : Value → Value
  reloaded (list vs) = list (reloaded_items vs)
  reloaded (dict d) = dict (reloaded_fields d)
  reloaded null = null
  reloaded (boolean b) = boolean b
  reloaded (integer s n) = integer s n
  reloaded (other b t) = other b t
  reloaded (string t) = string t

  reloaded_items : Items → Items
  reloaded_items nil = nil
  reloaded_items (cons v vs) = cons (reloaded v) (reloaded_items vs)

  reloaded_fields : Fields → Fields
  reloaded_fields end = end
  reloaded_fields (field k v d) = add_field k (reloaded v) (reloaded_fields d)

abbrev each : Option Value → Option Value
each none = none
each (some v) = some (reloaded v)

get-add_field :
    (j k : Text) (v : Value) (d : Fields)
    → get j (add_field k v d) ≡ (if equal j k then some v else get j d)
unfolding get add_field
get-add_field j k v end = refl
get-add_field j k v (field k' v' d) = elim (Bool-cases (text_le k k')) [
  | inl e ↦ rw e refl
  | inr e ↦ elim (Bool-cases (equal j k)) [
    | inl same ↦ elim (Bool-cases (equal j k')) [
      | inl same' ↦
          let at_k = equal_sound j k same in
          let at_k' = equal_sound j k' same' in
          let k_k' : k ≡ k' = sym at_k ∙ at_k' in cc (sym (text_le_refl k) ∙ ap (text_le k) k_k', e)
      | inr other' ↦ rw (e, other', get-add_field j k v d, same) refl
    ]
    | inr other' ↦ rw (e, get-add_field j k v d, other') refl
  ]
]

get-reloaded : (j : Text) (d : Fields) → get j (reloaded_fields d) ≡ each (get j d)
unfolding get reloaded_fields
get-reloaded j end = refl
get-reloaded j (field k v d) =
    get-add_field j k (reloaded v) (reloaded_fields d)
    ∙ elim (Bool-cases (equal j k)) [ inl e ↦ rw e refl | inr e ↦ rw e (get-reloaded j d) ]

item-reloaded : (n : ℕ) (vs : Items) → item n (reloaded_items vs) ≡ each (item n vs)
unfolding item reloaded_items
item-reloaded n nil = refl
item-reloaded zero (cons v vs) = refl
item-reloaded (suc n) (cons v vs) = item-reloaded n vs

child-reloaded : (v : Value) (s : Seg) → child (reloaded v) s ≡ each (child v s)
unfolding child reloaded
child-reloaded (list vs) (index i) = item-reloaded i vs
child-reloaded (list vs) (key k) = refl
child-reloaded (dict d) (key k) = get-reloaded k d
child-reloaded (dict d) (index i) = refl
child-reloaded null s = refl
child-reloaded (boolean b) s = refl
child-reloaded (integer b n) s = refl
child-reloaded (other b t) s = refl
child-reloaded (string t) s = refl

below :
    (q : List Seg) (o : Option Value)
    → ((w : Value) → get_path (reloaded w) q ≡ reloaded (get_path w q))
    → elim (each o) [ none ↦ null | some w ↦ get_path w q ]
      ≡ reloaded (elim o [ none ↦ null | some w ↦ get_path w q ])
unfolding reloaded
below q none h = refl
below q (some w) h = h w

get_path-reloaded : (v : Value) (q : List Seg) → get_path (reloaded v) q ≡ reloaded (get_path v q)
unfolding get_path reloaded
get_path-reloaded v [] = refl
get_path-reloaded v (s ∷ q) =
    ap {A = Option Value} (λ o. elim o [ none ↦ null | some w ↦ get_path w q ]) (child-reloaded v s)
    ∙ below q (child v s) (λ w. get_path-reloaded w q)

scalar-reloaded : (v : Value) → is_container v ≡ false → reloaded v ≡ v
unfolding reloaded
scalar-reloaded (list vs) h = cc
scalar-reloaded (dict d) h = cc
scalar-reloaded null h = refl
scalar-reloaded (boolean b) h = refl
scalar-reloaded (integer b n) h = refl
scalar-reloaded (other b t) h = refl
scalar-reloaded (string t) h = refl

pub get_path-reloaded_scalar :
    (v : Value) (q : List Seg)
    → is_container (get_path v q) ≡ false
    → get_path (reloaded v) q ≡ get_path v q
get_path-reloaded_scalar v q h = get_path-reloaded v q ∙ scalar-reloaded (get_path v q) h
