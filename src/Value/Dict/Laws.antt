-- ===== src/Value/Dict/Laws.antt =====
-- How reading a key of a dict sees item assignment and `pop`.
use jenkins_to_actions_migra.Prelude.{
  true, false, ◌≡◌, refl, sym, inl, inr, Text, equal, equal_refl, equal_iff, some, Bool-cases,
}
use jenkins_to_actions_migra.Value.{Value, Fields, end, field}
use jenkins_to_actions_migra.Value.Dict.{get, put, remove}

pub get-put : (k : Text) (v : Value) (d : Fields) → get k (put k v d) ≡ some v
unfolding get put
get-put k v end = rw (equal_refl k) refl
get-put k v (field k' w d) = elim (Bool-cases (equal k k')) [
  | inl h ↦ rw (h, h) refl
  | inr h ↦ rw (h, h) (get-put k v d)
]

-- Two keys that differ: one is read, the other is written.
module _ (j k : Text) (ne : equal j k ≡ false) where
  apart : (k' : Text) → equal k k' ≡ true → equal j k' ≡ false
  apart k' h = rw (sym ((equal_iff k k').0 h)) ne

  pub get-put_other : (v : Value) (d : Fields) → get j (put k v d) ≡ get j d
  unfolding get put
  get-put_other v end = rw ne refl
  get-put_other v (field k' w d) = elim (Bool-cases (equal k k')) [
    | inl h ↦ rw (h, apart k' h) refl
    | inr h ↦ rw h (rw (get-put_other v d) refl)
  ]

  pub get-remove_other : (d : Fields) → get j (remove k d) ≡ get j d
  unfolding get remove
  get-remove_other end = refl
  get-remove_other (field k' w d) = elim (Bool-cases (equal k k')) [
    | inl h ↦ rw (h, apart k' h) refl
    | inr h ↦ rw h (rw (get-remove_other d) refl)
  ]
