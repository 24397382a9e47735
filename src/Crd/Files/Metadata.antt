-- ===== src/Crd/Files/Metadata.antt =====
-- hack/crd-schemas.py: the schema for the metadata in the files that are written.
use jenkins_to_actions_migra.Prelude.{
  ◌≡◌, refl, sym, ◌∙◌, Bool, true, false, Text, codes, equal, List, All, some, some_inj,
  if◌then◌else◌,
}
use jenkins_to_actions_migra.Unicode.{Unicode}
use jenkins_to_actions_migra.Python.{Result, ok, >>=-eq-ok, ok_inj, or_raise-eq-ok}
use jenkins_to_actions_migra.Python.Access.{subscript}
use jenkins_to_actions_migra.Value.{
  Value, null, boolean, integer, other, string, list, dict, Fields,
}
use jenkins_to_actions_migra.Value.Dict.{get}
use jenkins_to_actions_migra.Value.Dict.Laws.{get-put, get-put_other}
use jenkins_to_actions_migra.Crd.{to_json_schema, properties_key}
use jenkins_to_actions_migra.Crd.Files.{
  File, any_object, metadata_key, has_metadata, set_entry, open_metadata, schema_document,
  all_files,
}
use jenkins_to_actions_migra.Crd.Files.Written.{all_files-All}

-- Where the properties of a document describe the metadata by a dict, it is `{"type": "object"}`.
abbrev pub OpenMetadata : Value → Type 0
OpenMetadata doc =
    (ps d : Fields)
    → subscript doc properties_key ≡ ok (dict ps)
    → get metadata_key ps ≡ some (dict d)
    → dict d ≡ any_object

-- Reading an entry after one was set.
module _ (k : Text) (w : Value) where
  subscript-set_entry : (js out : Value) → set_entry js k w ≡ ok out → subscript out k ≡ ok w
  unfolding set_entry subscript
  subscript-set_entry (dict d) out h = rw (← ok_inj h) (rw (get-put k w d) refl)
  subscript-set_entry (list vs) out h = cc
  subscript-set_entry null out h = cc
  subscript-set_entry (boolean b) out h = cc
  subscript-set_entry (integer b i) out h = cc
  subscript-set_entry (other b t) out h = cc
  subscript-set_entry (string t) out h = cc

  subscript-set_entry_other :
      (j : Text) (js out : Value)
      → equal j k ≡ false
      → set_entry js k w ≡ ok out
      → subscript out j ≡ subscript js j
  unfolding set_entry subscript
  subscript-set_entry_other j (dict d) out ne h =
      rw (← ok_inj h) (rw (get-put_other j k ne w d) refl)
  subscript-set_entry_other j (list vs) out ne h = cc
  subscript-set_entry_other j null out ne h = cc
  subscript-set_entry_other j (boolean b) out ne h = cc
  subscript-set_entry_other j (integer b i) out ne h = cc
  subscript-set_entry_other j (other b t) out ne h = cc
  subscript-set_entry_other j (string t) out ne h = cc

get-subscript : (k : Text) (w : Value) (d : Fields) → subscript (dict d) k ≡ ok w → get k d ≡ some w
unfolding subscript
get-subscript k w d h = or_raise-eq-ok (get k d) h

has_metadata-true :
    (js : Value) (ps d : Fields)
    → subscript js properties_key ≡ ok (dict ps)
    → get metadata_key ps ≡ some (dict d)
    → has_metadata js ≡ ok true
unfolding has_metadata subscript
has_metadata-true (dict j) ps d h e = rw (or_raise-eq-ok (get properties_key j) h, e) refl
has_metadata-true (list vs) ps d h e = cc
has_metadata-true null ps d h e = cc
has_metadata-true (boolean b) ps d h e = cc
has_metadata-true (integer b i) ps d h e = cc
has_metadata-true (other b t) ps d h e = cc
has_metadata-true (string t) ps d h e = cc

open_metadata-OpenMetadata : (js out : Value) → open_metadata js ≡ ok out → OpenMetadata out
unfolding open_metadata
open_metadata-OpenMetadata js out h ps d e e' =
    let (properties, a, h1) = >>=-eq-ok (subscript js properties_key) _ h in
    let (opened, b, h2) = >>=-eq-ok (set_entry properties metadata_key any_object) _ h1 in
    let same = ok_inj (sym (subscript-set_entry properties_key opened js out h2) ∙ e) in
    let found = subscript-set_entry metadata_key any_object properties opened b in
    described opened same found
  where
    described :
        (o : Value) → o ≡ dict ps → subscript o metadata_key ≡ ok any_object → dict d ≡ any_object
    described o s f = some_inj (sym e' ∙ get-subscript metadata_key any_object ps (rw s at f))

schema_document-OpenMetadata :
    (schema out : Value) → schema_document schema ≡ ok out → OpenMetadata out
unfolding schema_document equal
schema_document-OpenMetadata schema out h ps d e e' =
    let (b, a, h1) = >>=-eq-ok (has_metadata (to_json_schema schema)) _ h in
    let (js, c, h2) =
      >>=-eq-ok (if b then open_metadata (to_json_schema schema) else ok (to_json_schema schema)) _
        h1 in
    described b js a c
      (sym (subscript-set_entry_other (codes "$schema") _ properties_key js out refl h2) ∙ e)
  where
    described :
        (b : Bool) (js : Value)
        → has_metadata (to_json_schema schema) ≡ ok b
        → (if b then open_metadata (to_json_schema schema) else ok (to_json_schema schema)) ≡ ok js
        → subscript js properties_key ≡ ok (dict ps)
        → dict d ≡ any_object
    described true js a c s = open_metadata-OpenMetadata (to_json_schema schema) js c ps d s e'
    described false js a c s =
        let t = has_metadata-true js ps d s e' in
        let t' = rw (← ok_inj c) at t in let clash : ok false ≡ ok true = sym a ∙ t' in cc

-- In every file that `main` writes, the metadata is described by `{"type": "object"}` wherever the
-- properties describe it by a schema at all.
pub all_files-OpenMetadata :
    (repr : Value → Text) ⦃u : Unicode⦄ (documents : Text → Result (List Value))
    (sources : List Text) (fs : List File)
    → all_files repr documents sources ≡ ok fs
    → All (λ f. OpenMetadata f.1) fs
all_files-OpenMetadata repr documents sources fs e =
    all_files-All repr OpenMetadata schema_document-OpenMetadata documents sources fs e
