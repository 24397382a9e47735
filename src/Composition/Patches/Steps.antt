-- ===== src/Composition/Patches/Steps.antt =====
-- hack/render-composition.py: the parts of `apply_patches` that make no recursive call, which end
-- whatever the documents are.
use jenkins_to_actions_migra.Prelude.{
  ℕ, suc, true, false, Text, List, [], ◌∷◌, Option, leb, get_elem?, if◌then◌else◌,
}
use jenkins_to_actions_migra.Unicode.{Unicode}
use jenkins_to_actions_migra.Unicode.Digits.{isdigit, int}
use jenkins_to_actions_migra.Regex.Match.{Match, group_text, find_iter, all_matches}
use jenkins_to_actions_migra.Python.{err, raises, exits, unmodelled}
use jenkins_to_actions_migra.Python.Access.{
  subscript, entry, entry_or, iterate, text_of, key_of, or_else, is_text,
}
use jenkins_to_actions_migra.Python.Yields.{
  Ends, >>=-Ends, ok-Ends, or_raise-Ends, traverse-Ends, if-Yields, err-Yields,
}
use jenkins_to_actions_migra.Value.{Value, null, string, list, dict}
use jenkins_to_actions_migra.Value.Dict.{get, size}
use jenkins_to_actions_migra.Composition.{Seg, key, index, descend, assign, set_path}
use jenkins_to_actions_migra.Composition.Segments.{
  seg_pattern, bracketed, segment, segments, read_path, write_path,
}
use jenkins_to_actions_migra.Composition.Format.{
  verb, hide_percents, argument, fill, go_format, numbered,
}
use jenkins_to_actions_migra.Composition.Patches.{
  items_or_none, map_value, format_value, is_format, string_value, transform_step,
}

pub subscript-Ends : (v : Value) (k : Text) → Ends (subscript v k)
unfolding subscript
subscript-Ends (dict d) k = or_raise-Ends (get k d)
subscript-Ends null k = err-Yields raises tt
subscript-Ends _ k = err-Yields raises tt

pub entry-Ends : (v : Value) (k : Text) → Ends (entry v k)
unfolding entry
entry-Ends (dict d) k = ok-Ends (get k d)
entry-Ends null k = err-Yields raises tt
entry-Ends _ k = err-Yields raises tt

pub entry_or-Ends : (v : Value) (k : Text) (w : Value) → Ends (entry_or v k w)
unfolding entry_or
entry_or-Ends v k w = >>=-Ends _ _ (entry-Ends v k) (λ o. ok-Ends (or_else w o))

pub iterate-Ends : (v : Value) → Ends (iterate v)
unfolding iterate
iterate-Ends (list vs) = ok-Ends _
iterate-Ends (dict d) = ok-Ends _
iterate-Ends (string t) = ok-Ends _
iterate-Ends null = err-Yields raises tt
iterate-Ends _ = err-Yields raises tt

pub items_or_none-Ends : (v : Option Value) → Ends (items_or_none v)
unfolding items_or_none
items_or_none-Ends v = iterate-Ends _

pub text_of-Ends : (v : Value) → Ends (text_of v)
unfolding text_of
text_of-Ends (string t) = ok-Ends t
text_of-Ends null = err-Yields raises tt
text_of-Ends _ = err-Yields raises tt

pub key_of-Ends : (v : Value) → Ends (key_of v)
unfolding key_of
key_of-Ends (string t) = ok-Ends t
key_of-Ends (list vs) = err-Yields raises tt
key_of-Ends (dict d) = err-Yields raises tt
key_of-Ends null = err-Yields unmodelled tt
key_of-Ends _ = err-Yields unmodelled tt

bracketed-Ends : (t : Text) → Ends (bracketed t)
unfolding bracketed
bracketed-Ends t =
    if-Yields (isdigit t) _ _ (>>=-Ends _ _ (or_raise-Ends (int t)) (λ n. ok-Ends (index n)))
      (ok-Ends (key t))

segment-Ends : (name bracket : Text) → Ends (segment name bracket)
unfolding segment
segment-Ends [] bracket = bracketed-Ends bracket
segment-Ends (c ∷ name) bracket = ok-Ends _

descend-Ends : (w v : Value) (seg : Seg) → Ends (descend w v seg)
unfolding descend
descend-Ends w (list vs) (index i) = or_raise-Ends _
descend-Ends w (dict d) (key k) = ok-Ends _
descend-Ends w (list vs) (key k) = err-Yields raises tt
descend-Ends w (dict d) (index i) = err-Yields raises tt
descend-Ends w null seg = err-Yields raises tt
descend-Ends w _ seg = err-Yields raises tt

assign-Ends : (w v : Value) (seg : Seg) (new : Value) → Ends (assign w v seg new)
unfolding assign
assign-Ends w (list vs) (index i) new = ok-Ends _
assign-Ends w (dict d) (key k) new = ok-Ends _
assign-Ends w (list vs) (key k) new = err-Yields raises tt
assign-Ends w (dict d) (index i) new =
    elim (leb (size d) i) as (λ b. Ends {A = Value} (err (if b then raises else unmodelled))) [
      | true ↦ err-Yields raises tt
      | false ↦ err-Yields unmodelled tt
    ]
assign-Ends w null seg new = err-Yields raises tt
assign-Ends w _ seg new = err-Yields raises tt

set_path-Ends : (v : Value) (segs : List Seg) (new : Value) → Ends (set_path v segs new)
unfolding set_path
set_path-Ends v [] new = ok-Ends v
set_path-Ends v (seg ∷ []) new = assign-Ends _ v seg new
set_path-Ends v (seg ∷ nxt ∷ segs) new = >>=-Ends _ _ (descend-Ends _ v seg) (λ below.
    >>=-Ends _ _ (set_path-Ends below (nxt ∷ segs) new) (λ changed. assign-Ends _ v seg changed))

argument-Ends : (values : List Value) (next : ℕ) (t : Text) → Ends (argument values next t)
unfolding argument
argument-Ends values next [] =
    >>=-Ends _ _ (or_raise-Ends (get_elem? values next)) (λ v. ok-Ends (v, suc next))
argument-Ends values next (c ∷ t) =
    >>=-Ends _ _ (or_raise-Ends (int (c ∷ t)))
      (λ n. >>=-Ends _ _ (or_raise-Ends (numbered values n)) (λ v. ok-Ends (v, n)))

module _ ⦃u : Unicode⦄ where
  segments-Ends : (path : Text) → Ends (segments path)
  unfolding segments
  segments-Ends path =
      traverse-Ends _ (find_iter seg_pattern path)
        (λ m. segment-Ends (group_text 1 m) (group_text 2 m))

  pub read_path-Ends : (v path : Value) → Ends (read_path v path)
  unfolding read_path
  read_path-Ends v path =
      >>=-Ends _ _ (text_of-Ends path) (λ t. >>=-Ends _ _ (segments-Ends t) (λ segs. ok-Ends _))

  pub write_path-Ends : (v path new : Value) → Ends (write_path v path new)
  unfolding write_path
  write_path-Ends v path new =
      >>=-Ends _ _ (text_of-Ends path)
        (λ t. >>=-Ends _ _ (segments-Ends t) (λ segs. set_path-Ends v segs new))

module _ (repr : Value → Text) where
  fill-Ends : (values : List Value) (next : ℕ) (ms : List Match) → Ends (fill repr values next ms)
  unfolding fill
  fill-Ends values next [] = ok-Ends []
  fill-Ends values next (m ∷ ms) =
      >>=-Ends (argument values next (group_text 1 m)) _
        (argument-Ends values next (group_text 1 m))
        (λ a. >>=-Ends (fill repr values a.1 ms) _ (fill-Ends values a.1 ms) (λ rest. ok-Ends _))

module _ (repr : Value → Text) ⦃u : Unicode⦄ where
  pub go_format-Ends : (fmt : Text) (values : List Value) → Ends (go_format repr fmt values)
  unfolding go_format
  go_format-Ends fmt values =
      >>=-Ends _ _ (fill-Ends repr values 0 (all_matches verb (hide_percents false fmt)).0)
        (λ filled. ok-Ends _)

  map_value-Ends : (t value : Value) → Ends (map_value repr t value)
  unfolding map_value
  map_value-Ends t value = >>=-Ends _ _ (subscript-Ends t _) (λ table. entry_or-Ends table _ value)

  format_value-Ends : (t value : Value) → Ends (format_value repr t value)
  unfolding format_value
  format_value-Ends t value = >>=-Ends _ _ (subscript-Ends t _) λ spec.
      >>=-Ends _ _ (subscript-Ends spec _) λ fmt. >>=-Ends _ _ (text_of-Ends fmt) λ text.
        >>=-Ends _ _ (go_format-Ends text (value ∷ [])) λ formatted. ok-Ends (string formatted)

  is_format-Ends : (t : Value) → Ends (is_format t)
  unfolding is_format
  is_format-Ends t =
      >>=-Ends _ _ (subscript-Ends t _)
        λ spec. >>=-Ends _ _ (entry_or-Ends spec _ _) λ kind. ok-Ends _

  string_value-Ends : (t value : Value) → Ends (string_value repr t value)
  unfolding string_value
  string_value-Ends t value =
      >>=-Ends _ _ (is_format-Ends t)
        λ known. if-Yields known _ _ (format_value-Ends t value) (err-Yields exits tt)

  pub transform_step-Ends : (t value : Value) → Ends (transform_step repr t value)
  unfolding transform_step
  transform_step-Ends t value = >>=-Ends _ _ (entry-Ends t _) λ found.
      if-Yields (is_text (or_else null found) _) _ _ (map_value-Ends t value) (
        if-Yields (is_text (or_else null found) _) _ _ (string_value-Ends t value)
          (err-Yields exits tt))
