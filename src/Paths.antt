-- ===== src/Paths.antt =====
-- src/supervisor_harness/core/paths.py: path normalisation, scope matching, and the containment
-- of one scope in another. A path and a pattern are texts; `fnmatch` is `Glob.fnmatch`.
pub mod Sets
pub mod Rooted
pub mod Match
pub mod Base
pub mod Contain
pub mod Collide
pub mod Narrow
pub mod Clean
pub mod Minimal
pub mod Overlap
pub mod Place
mod Examples
use supervisor_harness.Prelude.{
  ℕ, suc, ◌+◌, Bool, true, false, not, ◌&&◌, ◌||◌, Option, none, some, List, [], ◌∷◌, ◌++◌, any,
  all, filter, drop, length, is_empty, leb, ◌==◌, if◌then◌else◌,
}
use supervisor_harness.Text.{
  Text, codes, text_eq, starts_with, remove_suffix, mem, lstrip, rstrip, strip, replace,
}
use supervisor_harness.Glob.{fnmatch}
use supervisor_harness.Glob.Literal.{has_meta, literal_prefix}

-- `_DIR_SUFFIXES`
abbrev pub dir_suffixes : List Text
dir_suffixes = codes "/**/*" ∷ codes "/**" ∷ codes "/*" ∷ codes "/" ∷ []

-- `NOTHING`: the pattern that matches no path.
abbrev pub nothing : Text
nothing = codes "<nothing>"

-- `_UNIVERSAL`
abbrev pub universal : List Text
universal = codes "*" ∷ codes "**" ∷ []

-- `while path.startswith("./"): path = path[2:]`
unfoldable pub drop_dot_slash : Text → Text
drop_dot_slash (a ∷ b ∷ t) =
    let rest = drop_dot_slash t in if a == b'.' && b == b'/' then rest else a ∷ b ∷ t
drop_dot_slash t = t

abbrev pub slashed : Text → Text
slashed raw = replace 92 b'/' (strip raw)

unfoldable pub normalise_pattern : Text → Text
unfolding drop_dot_slash strip replace
normalise_pattern raw = drop_dot_slash (slashed raw)

abbrev pub or_none : Text → Option Text
or_none [] = none
or_none (c ∷ t) = some (c ∷ t)

pub base_by : List Text → Text → Option Text
unfolding remove_suffix
base_by [] pattern = none
base_by (suffix ∷ rest) pattern = elim (remove_suffix suffix pattern) [
  | none ↦ base_by rest pattern
  | some base ↦ or_none base
]

-- The base of a pattern that means a directory and everything beneath it.
unfoldable pub directory_base : Text → Option Text
unfolding base_by
directory_base pattern = base_by dir_suffixes pattern

-- `path == base or path.startswith(base + "/")`
unfoldable pub under : Option Text → Text → Bool
unfolding text_eq starts_with
under none path = false
under (some base) path = text_eq path base || starts_with (base ++ b'/' ∷ []) path

-- `path_matches` on a pattern in the form that `normalise_pattern` gives.
unfoldable pub matches_normal : Text → Text → Bool
matches_normal path pat =
    if is_empty pat || is_empty path
    then false
    else if text_eq pat nothing
    then false
    else if fnmatch path pat
    then true
    else under (directory_base pat) path

unfoldable pub path_matches : Text → Text → Bool
unfolding matches_normal normalise_pattern directory_base under fnmatch
path_matches path pattern = matches_normal path (normalise_pattern pattern)

unfoldable pub matches_any : Text → List Text → Bool
matches_any path patterns = any (λ p. path_matches path p) patterns

-- `pattern_within` on normalised patterns.
unfoldable pub within : Text → Text → Bool
within left right =
    if is_empty left || is_empty right
    then false
    else if text_eq left nothing
    then true
    else if text_eq right nothing
    then false
    else if text_eq left right
    then true
    else if mem right universal
    then true
    else if not (has_meta left)
    then path_matches left right
    else under (directory_base right) (literal_prefix left)

unfoldable pub pattern_within : Text → Text → Bool
unfolding within path_matches mem has_meta literal_prefix
pattern_within inner outer = within (normalise_pattern inner) (normalise_pattern outer)
