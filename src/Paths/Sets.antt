-- ===== src/Paths/Sets.antt =====
-- src/supervisor_harness/core/paths.py: whole scopes, which are lists of patterns: their containment,
-- their intersection, and whether two may overlap.
use supervisor_harness.Prelude.{
  Bool, true, false, not, ◌&&◌, ◌||◌, Option, none, some, List, [], ◌∷◌, ◌++◌, any, all, filter,
  is_empty, if◌then◌else◌,
}
use supervisor_harness.Text.{Text, text_eq, starts_with, mem}
use supervisor_harness.Glob.Literal.{has_meta, literal_prefix}
use supervisor_harness.Paths.{normalise_pattern, directory_base, pattern_within, nothing}

unfoldable pub clean_from : List Text → List Text → List Text
clean_from out [] = out
clean_from out (raw ∷ rest) =
    let pat = normalise_pattern raw in
    clean_from (if not (is_empty pat) && not (mem pat out) then out ++ pat ∷ [] else out) rest

-- `_clean`: normalised, the empty ones and the repeated ones dropped, in order.
unfoldable pub clean : List Text → List Text
unfolding clean_from normalise_pattern mem
clean patterns = clean_from [] patterns

unfoldable pub within_clean : List Text → List Text → Bool
within_clean left right =
    if is_empty right
    then true
    else if is_empty left
    then false
    else all (λ i. any (λ o. pattern_within i o) right) left

unfoldable pub globs_within : List Text → List Text → Bool
unfolding within_clean clean pattern_within
globs_within inner outer = within_clean (clean inner) (clean outer)

-- One round of the loop of `minimal_globs`.
unfoldable pub keep_minimal : List Text → Text → List Text
keep_minimal kept pattern =
    if any (λ k. pattern_within pattern k) kept
    then kept
    else filter (λ k. not (pattern_within k pattern)) kept ++ pattern ∷ []

unfoldable pub minimal_from : List Text → List Text → List Text
minimal_from kept [] = kept
minimal_from kept (pattern ∷ rest) = minimal_from (keep_minimal kept pattern) rest

unfoldable pub minimal_globs : List Text → List Text
unfolding minimal_from keep_minimal pattern_within
minimal_globs patterns = minimal_from [] patterns

-- The pattern of a pair that is contained in the other.
unfoldable pub pick : Text → Text → Option Text
pick i o = if pattern_within i o then some i else if pattern_within o i then some o else none

unfoldable pub add_pick : List Text → Option Text → List Text
add_pick kept none = kept
add_pick kept (some p) = if mem p kept then kept else kept ++ p ∷ []

-- The inner loop of `narrow_globs`, and the outer one.
unfoldable pub narrow_row : Text → List Text → List Text → List Text
unfolding add_pick
narrow_row i [] kept = kept
narrow_row i (o ∷ right) kept = narrow_row i right (add_pick kept (pick i o))

unfoldable pub narrow_rows : List Text → List Text → List Text → List Text
unfolding narrow_row
narrow_rows [] right kept = kept
narrow_rows (i ∷ left) right kept = narrow_rows left right (narrow_row i right kept)

abbrev pub or_nothing : List Text → List Text
or_nothing [] = nothing ∷ []
or_nothing (p ∷ ps) = p ∷ ps

-- `narrow_globs` on clean lists.
unfoldable pub narrow_clean : List Text → List Text → List Text
unfolding narrow_rows
narrow_clean left right =
    if is_empty right
    then left
    else if is_empty left
    then right
    else or_nothing (narrow_rows left right [])

unfoldable pub narrow_globs : List Text → List Text → List Text
unfolding narrow_clean pick clean pattern_within mem
narrow_globs inner outer = narrow_clean (clean inner) (clean outer)

-- A single file: no metacharacter, and no directory suffix.
unfoldable pub is_file_pattern : Text → Bool
is_file_pattern p = not (has_meta p) && elim (directory_base p) [ none ↦ true | some b ↦ false ]

-- What every path that the pattern matches is taken to begin with.
unfoldable pub overlap_prefix : Text → Text
overlap_prefix p = elim (directory_base p) [ none ↦ literal_prefix p | some base ↦ base ]

unfoldable pub pattern_may_overlap : Text → Text → Bool
pattern_may_overlap x y =
    if text_eq x nothing || text_eq y nothing
    then false
    else if pattern_within x y || pattern_within y x
    then true
    else if is_file_pattern x || is_file_pattern y
    then false
    else starts_with (overlap_prefix y) (overlap_prefix x)
      || starts_with (overlap_prefix x) (overlap_prefix y)

unfoldable pub overlap_clean : List Text → List Text → Bool
overlap_clean a b =
    if is_empty a || is_empty b then true else any (λ x. any (λ y. pattern_may_overlap x y) b) a

unfoldable pub globs_may_overlap : List Text → List Text → Bool
unfolding overlap_clean clean pattern_may_overlap pattern_within is_file_pattern overlap_prefix
globs_may_overlap left right = overlap_clean (clean left) (clean right)
