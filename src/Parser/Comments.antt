-- ===== src/Parser/Comments.antt =====
-- tools/migration-analyzer/src/migration_analyzer/parser.py: `_LINE_COMMENT` as a scan of a line from
-- left to right.
pub mod Cuts
pub mod Search
pub mod Whole
use jenkins_to_actions_migra.Prelude.{
  ℕ, Bool, true, false, not, ◌&&◌, ◌||◌, Text, [], ◌∷◌, ◌==◌, if◌then◌else◌,
}

-- A comment begins here.
unfoldable pub slashes : Text → Bool
slashes (a ∷ b ∷ t) = a == b'/' && b == b'/'
slashes _ = false

-- After a colon or a quote two slashes begin no comment.
unfoldable pub is_guard : ℕ → Bool
is_guard c = c == b':' || c == b'\'' || c == b'"'

-- The line up to the first comment behind a character that is no guard.
unfoldable pub before_comment : Text → Text
unfolding slashes is_guard
before_comment [] = []
before_comment (c ∷ t) =
    let rest = before_comment t in if not (is_guard c) && slashes t then c ∷ [] else c ∷ rest

-- At the start of the line two slashes begin one.
unfoldable pub without_comment : Text → Text
unfolding slashes before_comment
without_comment line = if slashes line then [] else before_comment line
