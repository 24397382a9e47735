-- ===== src/Crd/Files/Written.antt =====
-- hack/crd-schemas.py: a property of the document for a schema is one of every file that is written.
use jenkins_to_actions_migra.Prelude.{◌≡◌, Text, codes, List, [], ◌∷◌, All, All-append, flat_map}
use jenkins_to_actions_migra.Unicode.{Unicode}
use jenkins_to_actions_migra.Python.{Result, ok, ◌>>=◌, traverse}
use jenkins_to_actions_migra.Python.Access.{subscript, entry, entry_or, or_else, iterate, is_text}
use jenkins_to_actions_migra.Python.Yields.{Yields, Any, >>=-Any, Yields-ok, ok-Yields, if-Yields}
use jenkins_to_actions_migra.Value.{Value, null, list, dict, nil, end}
use jenkins_to_actions_migra.Value.Dict.{get, truthy}
use jenkins_to_actions_migra.Crd.Clean.{NoExtensions}
use jenkins_to_actions_migra.Crd.Files.{
  File, schema_document, file_name, version_files, definition_files, document_files, source_files,
  all_files,
}
use jenkins_to_actions_migra.Crd.Files.Laws.{schema_document-NoExtensions}

-- What holds of each list that a loop gathers holds of all of them together.
module _ {A : Type 0} (P : File → Type 0) (f : A → Result (List File))
    (each : (a : A) → Yields (All P) Any (f a)) where
  traverse-Yields :
      (xs : List A) → Yields (λ ys. All P (flat_map (λ fs. fs) ys)) Any (traverse f xs)
  unfolding traverse
  traverse-Yields [] = ok-Yields [] tt
  traverse-Yields (x ∷ xs) = >>=-Any (f x) _ λ y e. >>=-Any (traverse f xs) _ λ ys e'.
      ok-Yields (y ∷ ys) (
        All-append P y (flat_map (λ fs. fs) ys) (Yields-ok (f x) y (each x) e)
          (Yields-ok (traverse f xs) ys (traverse-Yields xs) e'))

  gathered :
      (xs : List A) → Yields (All P) Any (traverse f xs >>= λ ys. ok (flat_map (λ fs. fs) ys))
  gathered xs = >>=-Any (traverse f xs) _ λ ys e.
      ok-Yields (flat_map (λ fs. fs) ys) (Yields-ok (traverse f xs) ys (traverse-Yields xs) e)

module _ (repr : Value → Text) ⦃u : Unicode⦄ (P : Value → Type 0)
    (right : (schema out : Value) → schema_document schema ≡ ok out → P out) where
  abbrev Right : File → Type 0
  Right f = P f.1

  abbrev AllRight : Result (List File) → Type 0
  AllRight = Yields (All Right) Any

  version-AllRight : (group kind version : Value) → AllRight (version_files repr group kind version)
  unfolding version_files
  version-AllRight group kind version =
      >>=-Any (entry_or version (codes "schema") (dict end)) _ λ holder _.
        >>=-Any (entry holder (codes "openAPIV3Schema")) _ λ found _.
          if-Yields (truthy (or_else null found)) _ _
            (>>=-Any (schema_document (or_else null found)) _ λ js e.
              >>=-Any (file_name repr group kind version) _
                λ name _. ok-Yields ((name, js) ∷ []) (right (or_else null found) js e, tt))
            (ok-Yields [] tt)

  definition-AllRight : (doc : Value) → AllRight (definition_files repr doc)
  unfolding definition_files
  definition-AllRight doc = >>=-Any (subscript doc (codes "spec")) _ λ spec _.
      >>=-Any (subscript spec (codes "group")) _ λ group _.
        >>=-Any (subscript spec (codes "names")) _ λ names _.
          >>=-Any (subscript names (codes "kind")) _ λ kind _.
            >>=-Any (entry_or spec (codes "versions") (list nil)) _ λ found _.
              >>=-Any (iterate found) _ λ versions _.
                gathered Right (version_files repr group kind) (version-AllRight group kind)
                  versions

  document-AllRight : (doc : Value) → AllRight (document_files repr doc)
  unfolding document_files
  document-AllRight (dict d) =
      if-Yields (is_text (or_else null (get (codes "kind") d)) (codes "CustomResourceDefinition")) _
        _ (definition-AllRight (dict d)) (ok-Yields [] tt)
  document-AllRight null = ok-Yields [] tt
  document-AllRight _ = ok-Yields [] tt

  module _ (documents : Text → Result (List Value)) where
    source-AllRight : (source : Text) → AllRight (source_files repr documents source)
    unfolding source_files
    source-AllRight source =
        >>=-Any (documents source) _
          λ docs _. gathered Right (document_files repr) document-AllRight docs

    pub all_files-All :
        (sources : List Text) (fs : List File)
        → all_files repr documents sources ≡ ok fs
        → All Right fs
    unfolding all_files
    all_files-All sources fs e =
        Yields-ok _ fs (gathered Right (source_files repr documents) source-AllRight sources) e

-- No file that `main` writes has a key that begins with `x-kubernetes-` at a place where a schema may
-- stand, the schema for the metadata and the `$schema` entry included.
pub all_files-NoExtensions :
    (repr : Value → Text) ⦃u : Unicode⦄ (documents : Text → Result (List Value))
    (sources : List Text) (fs : List File)
    → all_files repr documents sources ≡ ok fs
    → All (λ f. NoExtensions f.1) fs
all_files-NoExtensions repr documents sources fs e =
    all_files-All repr NoExtensions schema_document-NoExtensions documents sources fs e
