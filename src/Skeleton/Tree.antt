-- ===== src/Skeleton/Tree.antt =====
-- hack/render-skeleton.py: `main` on the files below the skeleton directory. The output directory is
-- a list of the files in it by their paths, which is empty at first, since what was there is removed.
-- It is taken to lie apart from the skeleton directory.
use jenkins_to_actions_migra.Prelude.{
  ℕ, Bool, true, false, ◌||◌, ◌==◌, any, Text, codes, equal, text_le, starts_with, newline, List,
  [], ◌∷◌, ◌++◌, if◌then◌else◌,
}
use jenkins_to_actions_migra.Prelude.Sorting.{sort}
use jenkins_to_actions_migra.Unicode.{Unicode}
use jenkins_to_actions_migra.Python.{Result, ok, err, raises, unmodelled, ◌>>=◌, each}
use jenkins_to_actions_migra.Cli.{path_text}
use jenkins_to_actions_migra.Skeleton.{render}

-- A file by its path from the directory, with the text that is read or written.
abbrev pub Files : Type 0
Files = List (Text × Text)

split_parts : Text → Text → List Text
split_parts part [] = part ∷ []
split_parts part (c ∷ t) =
    let ended = split_parts [] t in
    let longer = split_parts (part ++ c ∷ []) t in if c == b'/' then part ∷ ended else longer

-- The parts of a path between its slashes.
unfoldable pub path_segments : Text → List Text
unfolding split_parts
path_segments t = split_parts [] t

-- Paths are sorted by their parts.
unfoldable pub parts_le : List Text → List Text → Bool
unfolding equal text_le
parts_le [] q = true
parts_le (x ∷ p) [] = false
parts_le (x ∷ p) (y ∷ q) = let rest = parts_le p q in if equal x y then rest else text_le x y

abbrev file_le : Text × Text → Text × Text → Bool
file_le f g = parts_le (path_segments f.0) (path_segments g.0)

-- One path is that of a directory in which the other lies.
abbrev is_below : Text → Text → Bool
is_below dir path = starts_with (dir ++ b'/' ∷ []) path

-- A file that is there is written over.
put_file : Text → Text → Files → Files
unfolding equal
put_file path text [] = (path, text) ∷ []
put_file path text ((p, t) ∷ files) =
    let rest = put_file path text files in
    if equal path p then (path, text) ∷ files else (p, t) ∷ rest

-- `target.write_text(text)` behind `mkdir`: a file cannot be where a directory is, nor below a file.
unfoldable pub write_file : Text → Text → Files → Result Files
unfolding equal starts_with put_file
write_file path text files =
    if equal path (codes ".")
      || any (λ (f : Text × Text). is_below path f.0 || is_below f.0 path) files
    then err raises
    else ok (put_file path text files)

-- A path that is absolute, or goes up.
unfoldable pub leaves : Text → Bool
unfolding starts_with path_segments equal
leaves path = starts_with (codes "/") path || any (equal (codes "..")) (path_segments path)

module _ ⦃u : Unicode⦄ where
  -- The body of the loop. A target outside the output directory leaves the model.
  unfoldable pub render_file : Text × Text → Files → Result Files
  unfolding path_text render leaves write_file
  render_file (path, text) files =
      let target = path_text (render path) in
      if leaves target then err unmodelled else write_file target (render text) files

  -- The files that the skeleton is rendered to.
  unfoldable pub rendered : Files → Result Files
  unfolding sort parts_le path_segments each render_file
  rendered skeleton = each render_file (sort file_le skeleton) []

  -- `main`: the exit code, what is written to standard output, and the files of the output directory.
  -- With a wrong number of arguments the usage goes to standard error, and no file is written.
  unfoldable pub main : List Text → Files → Result (ℕ × Text × Files)
  unfolding path_text rendered
  main (program ∷ src ∷ out ∷ []) skeleton = do
    files ← rendered skeleton
    ok (
      0,
      codes "rendered " ++ path_text src ++ codes " -> " ++ path_text out ++ newline ∷ [],
      files,
    )
  main argv skeleton = ok (2, [], [])
