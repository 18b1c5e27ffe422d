-- ===== src/Paths/Rooted.antt =====
-- src/supervisor_harness/core/paths.py: the workspace-relative form of a path and of a scope.
use supervisor_harness.Prelude.{
  ℕ, ◌+◌, Bool, false, not, ◌&&◌, ◌||◌, Option, none, some, List, [], ◌∷◌, ◌++◌, drop, length,
  is_empty, leb, ◌==◌, if◌then◌else◌,
}
use supervisor_harness.Text.{Text, codes, text_eq, starts_with, lstrip, rstrip, replace}
use supervisor_harness.Paths.{slashed, drop_dot_slash, normalise_pattern, nothing, or_none}

-- `_ROOTED.match(path)`: a POSIX root, or a drive letter.
is_letter : ℕ → Bool
is_letter c = leb b'A' c && leb c b'Z' || leb b'a' c && leb c b'z'

unfoldable pub is_rooted : Text → Bool
unfolding is_letter
is_rooted [] = false
is_rooted (a ∷ b ∷ c ∷ t) = a == b'/' || is_letter a && b == b':' && c == b'/'
is_rooted (a ∷ t) = a == b'/'

abbrev pub is_slash : ℕ → Bool
is_slash c = c == b'/'

-- The workspace's own form: `str(workspace).replace("\\", "/").rstrip("/")`.
unfoldable pub root_of : Text → Text
unfolding rstrip lstrip replace
root_of workspace = rstrip is_slash (replace 92 b'/' workspace)

-- `lower` is `str.lower`, which reads Unicode's tables.
module _ (lower : Text → Text) where
  unfoldable pub strip_workspace : Text → Text → Option Text
  unfolding root_of starts_with
  strip_workspace path workspace =
      let root = root_of workspace in
      if is_empty root
      then none
      else if starts_with (lower root ++ b'/' ∷ []) (lower path)
      then some (drop (length root + 1) path)
      else none

  -- The path itself where it does not lie beneath a workspace that is given.
  unfoldable pub placed : Text → Text → Text
  unfolding strip_workspace
  placed path workspace =
      if is_empty workspace
      then path
      else elim (strip_workspace path workspace) [ none ↦ path | some stripped ↦ stripped ]

  unfoldable pub normalise_path : Text → Text → Text
  normalise_path raw workspace =
      let path = slashed raw in
      if is_empty path then [] else lstrip is_slash (drop_dot_slash (placed path workspace))

  -- The form of a rooted path: it has one only beneath a workspace that is given.
  unfoldable pub rooted_form : Text → Text → Option Text
  rooted_form path workspace =
      if is_empty workspace then none else elim (strip_workspace path workspace) [
        | none ↦ none
        | some stripped ↦ or_none (normalise_path stripped [])
      ]

  unfoldable pub scope_relative : Text → Text → Option Text
  scope_relative raw workspace =
      let path = slashed raw in
      if is_empty path
      then none
      else if is_rooted path
      then rooted_form path workspace
      else or_none (normalise_path path [])

  -- The form of one pattern that is not blank.
  unfoldable pub relative_pattern : Text → Text → Text
  relative_pattern pat root =
      if not (is_rooted pat)
      then pat
      else if not (is_empty root) && text_eq (lower (rstrip is_slash pat)) (lower root)
      then codes "**"
      else if is_empty root
      then nothing
      else elim (strip_workspace pat root) [
        | none ↦ nothing
        | some stripped ↦ if is_empty stripped then nothing else stripped
      ]

  unfoldable pub relative_patterns : List Text → Text → List Text
  relative_patterns [] workspace = []
  relative_patterns (raw ∷ rest) workspace =
      let pat = normalise_pattern raw in
      let later = relative_patterns rest workspace in
      if is_empty pat then later else relative_pattern pat (root_of workspace) ∷ later
