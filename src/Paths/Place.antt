-- ===== src/Paths/Place.antt =====
-- `normalise_path`, `scope_relative` and `relative_patterns` of core/paths.py: the workspace-relative
-- form of a path and of a scope.

use supervisor_harness.Prelude.{
  ◌≢◌, ◌≡◌, ◌⊎◌, refl, inl, inr, false, not, none, some, List, [], ◌∷◌, arith, All, Option-cases,
  Bool-cases, is_empty, length, filter, Bool, ◌++◌, ◌+◌, sym, drop,
}
use supervisor_harness.Text.{Text, codes, starts_with, lstrip, drop_prefix, drop_prefix_lem}
use supervisor_harness.Paths.{normalise_pattern, drop_dot_slash, slashed, or_none}
use supervisor_harness.Paths.Rooted.{
  is_slash, is_rooted, root_of, strip_workspace, placed, normalise_path, rooted_form,
  scope_relative, relative_pattern, relative_patterns,
}

-- A pattern that is not blank.
abbrev pub is_written : Text → Bool
is_written raw = not (is_empty (normalise_pattern raw))

lstrip-slash : (t : Text) → starts_with (codes "/") (lstrip is_slash t) ≡ false
unfolding starts_with lstrip
lstrip-slash [] = refl
lstrip-slash (c ∷ t) = ground (arith, lstrip-slash t)

none≢some : {p : Text} → none ≢ some p
none≢some h = cc

or_none_parts :
    (t : Text) {p : Text}
    → or_none t ≡ some p
    → starts_with (codes "/") t ≡ false
    → (is_empty p ≡ false) × (starts_with (codes "/") p ≡ false)
unfolding starts_with
or_none_parts [] h k = cc h
or_none_parts (c ∷ t) h k = ground arith

module _ (lower : Text → Text) where
  -- What the fence compares never begins with a slash, wherever the path was rooted.
  normalise_path-relative :
      (raw workspace : Text) → starts_with (codes "/") (normalise_path lower raw workspace) ≡ false
  unfolding normalise_path starts_with
  normalise_path-relative raw workspace =
      ground (arith, lstrip-slash (drop_dot_slash (placed lower (slashed raw) workspace)))

  relative_pattern_full :
      (pat root : Text) → is_empty pat ≡ false → is_empty (relative_pattern lower pat root) ≡ false
  unfolding relative_pattern
  relative_pattern_full pat root h = ground arith

  -- Placing a scope drops no pattern but the blank ones, and leaves none empty.
  pub relative_patterns_full :
      (patterns : List Text) (workspace : Text)
      → (length (relative_patterns lower patterns workspace) ≡ length (filter is_written patterns))
        × All (λ p. is_empty p ≡ false) (relative_patterns lower patterns workspace)
  unfolding relative_patterns
  relative_patterns_full [] workspace = (refl, tt)
  relative_patterns_full (raw ∷ rest) workspace = ground (
    arith,
    relative_patterns_full rest workspace,
    relative_pattern_full (normalise_pattern raw) (root_of workspace),
  )

  or_none_form :
      (q : Text) {p : Text}
      → or_none (normalise_path lower q []) ≡ some p
      → (is_empty p ≡ false) × (starts_with (codes "/") p ≡ false)
  or_none_form q h = or_none_parts (normalise_path lower q []) h (normalise_path-relative q [])

  or_none_same : (q : Text) {p : Text} → or_none q ≡ some p → q ≡ p
  or_none_same [] h = cc h
  or_none_same (c ∷ q) h = cc h

  rooted_form-some :
      (path workspace : Text) {p : Text}
      → rooted_form lower path workspace ≡ some p
      → (s : Text) × (strip_workspace lower path workspace ≡ some s)
        × (or_none (normalise_path lower s []) ≡ some p)
  unfolding rooted_form
  rooted_form-some path [] h = cc
  rooted_form-some path (w ∷ ws) h = elim (Option-cases (strip_workspace lower path (w ∷ ws))) [
    | inl e ↦ absurd (none≢some (rw (e, rooted_form) at h))
    | inr (s, e) ↦ (s, e, rw (e, rooted_form) at h)
  ]

  -- What is left of a path beneath a workspace whose own form is not empty: the path begins, in any
  -- case, with that form and a slash, and these are taken off.
  abbrev pub IsBeneath : Text → Text → Text → Type 0
  IsBeneath path workspace s =
      (is_empty (root_of workspace) ≡ false)
      × ((rest : Text) × (lower path ≡ (lower (root_of workspace) ++ b'/' ∷ []) ++ rest))
      × (s ≡ drop (length (root_of workspace) + 1) path)

  strip_workspace-IsBeneath :
      (path workspace : Text) {s : Text}
      → strip_workspace lower path workspace ≡ some s
      → IsBeneath path workspace s
  unfolding strip_workspace
  strip_workspace-IsBeneath path workspace {s} h =
      let root = root_of workspace in
      let start = lower root ++ b'/' ∷ [] in
      elim (Bool-cases (is_empty root)) [
        | inl y ↦ absurd (none≢some (rw (y, strip_workspace) at h))
        | inr n ↦ elim (Bool-cases (starts_with start (lower path))) [
          | inr f ↦ absurd (none≢some (rw (n, f, strip_workspace) at h))
          | inl b ↦
              let found : some (drop (length root + 1) path) ≡ some s =
                rw (n, b, strip_workspace) at h in
              let same : drop (length root + 1) path ≡ s = cc found in
              (n, (drop_prefix start (lower path), drop_prefix_lem start (lower path) b), sym same)
        ]
      ]

  -- The form that a path is judged in is not empty and does not begin with a slash; and a rooted
  -- path has one only where it lies beneath the workspace: where it begins, compared in lower case,
  -- with the workspace and a slash. What follows these is what its form is made from.
  pub scope_relative-some :
      (raw workspace : Text) {p : Text}
      → scope_relative lower raw workspace ≡ some p
      → (is_empty p ≡ false)
        × (starts_with (codes "/") p ≡ false)
        × ((is_rooted (slashed raw) ≡ false)
            ⊎ ((s : Text) × (strip_workspace lower (slashed raw) workspace ≡ some s)
                × IsBeneath (slashed raw) workspace s
                × (normalise_path lower s [] ≡ p)))
  unfolding scope_relative
  scope_relative-some raw workspace {p} h = elim (Bool-cases (is_empty (slashed raw))) [
    | inl e ↦ absurd (none≢some (rw (e, scope_relative) at h))
    | inr e ↦ elim (Bool-cases (is_rooted (slashed raw))) [
      | inl r ↦
          let found : rooted_form lower (slashed raw) workspace ≡ some p =
            rw (e, r, scope_relative) at h in
          let (s, under, form) = rooted_form-some (slashed raw) workspace found in
          let (full, relative) = or_none_form s form in
          (
            full,
            relative,
            inr (
              s,
              under,
              strip_workspace-IsBeneath (slashed raw) workspace under,
              or_none_same (normalise_path lower s []) form,
            ),
          )
      | inr r ↦
          let form : or_none (normalise_path lower (slashed raw) []) ≡ some p =
            rw (e, r, scope_relative) at h in
          let (full, relative) = or_none_form (slashed raw) form in (full, relative, inl r)
    ]
  ]
