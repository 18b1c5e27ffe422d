-- ===== src/Paths/Overlap.antt =====
-- `globs_may_overlap` of core/paths.py: when a no keeps two writers apart.
pub mod Missed
use supervisor_harness.Prelude.{
  ◌≡◌, refl, sym, ◌∙◌, ap, ◌⊎◌, inl, inr, true, false, not, none, some, List, [], ◌∷◌, ◌++◌, ◌||◌,
  ◌&&◌, arith, All, Option-cases, Bool-cases, is_empty, any, Bool, Option, if◌then◌else◌,
}
use supervisor_harness.Text.{
  Text, text_eq, starts_with, eq_of-text_eq, starts_with_trans, starts_with-append,
  starts_with-comparable, starts_with_refl,
}
use supervisor_harness.Glob.{fnmatch}
use supervisor_harness.Glob.Literal.{
  has_meta, literal_prefix, fnmatch-literal, fnmatch-literal_prefix, literal_prefix-append,
}
use supervisor_harness.Paths.{
  directory_base, under, path_matches, nothing, pattern_within, matches_any,
}
use supervisor_harness.Paths.Sets.{
  clean, is_file_pattern, overlap_prefix, pattern_may_overlap, overlap_clean, globs_may_overlap,
}
use supervisor_harness.Paths.Match.{
  IsNormal, Matched, directory_base-shape, under-some, under-none, matches_normal-Matched,
  path_matches-normal,
}
use supervisor_harness.Paths.Contain.{within-literal, pattern_within-normal}
use supervisor_harness.Paths.Narrow.{each-matches}

-- The pattern is in normal form, and the directory that it names, if any, has no metacharacter.
pub record IsPlain (p : Text) : Type 0 where
  pub normal : IsNormal p
  pub base_literal : (b : Text) → directory_base p ≡ some b → has_meta b ≡ false

matched : (path p : Text) → IsPlain p → path_matches path p ≡ true → Matched path p
matched path p h m = matches_normal-Matched path p (sym (path_matches-normal path p h.normal) ∙ m)

module _ (path p : Text) (h : IsPlain p) (m : Matched path p) where
  starts_with-base : (b : Text) → directory_base p ≡ some b → starts_with b path ≡ true
  starts_with-base b e = elim m.by [
    | inl g ↦
        let (s, shape, rest) = directory_base-shape p b e in
        starts_with_trans b (literal_prefix p) path
          (rw (shape, literal_prefix-append b (b'/' ∷ s) (h.base_literal b e))
            (starts_with-append b (literal_prefix (b'/' ∷ s))))
          (fnmatch-literal_prefix path p g)
    | inr u ↦ elim (under-some b path (rw e at u)) [
      | inl same ↦ rw same (starts_with_refl b)
      | inr deep ↦ starts_with_trans b (b ++ b'/' ∷ []) path (starts_with-append b (b'/' ∷ [])) deep
    ]
  ]

  -- A path that a plain pattern matches begins with the pattern's prefix.
  starts_with-overlap_prefix : starts_with (overlap_prefix p) path ≡ true
  unfolding overlap_prefix
  starts_with-overlap_prefix = elim (Option-cases (directory_base p)) [
    | inl e ↦ elim m.by [
      | inl g ↦ rw (e, overlap_prefix) (fnmatch-literal_prefix path p g)
      | inr u ↦ absurd (under-none path (rw e at u))
    ]
    | inr (b, e) ↦ rw (e, overlap_prefix) (starts_with-base b e)
  ]

file_parts :
    (p : Text) → is_file_pattern p ≡ true → (has_meta p ≡ false) × (directory_base p ≡ none)
unfolding is_file_pattern
file_parts p h = ground arith

-- A single file that the other pattern matches is found to lie within it.
file-within :
    (path x y : Text)
    → IsPlain x
    → IsPlain y
    → is_file_pattern x ≡ true
    → path_matches path x ≡ true
    → path_matches path y ≡ true
    → pattern_within x y ≡ true
file-within path x y hx hy f mx my =
    let (lit, no_base) = file_parts x f in
    let a = matched path x hx mx in
    let b = matched path y hy my in
    let same : x ≡ path = elim a.by [
      | inl g ↦ eq_of-text_eq x path (sym (fnmatch-literal path x lit) ∙ g)
      | inr u ↦ absurd (under-none path (rw no_base at u))
    ] in
    pattern_within-normal x y hx.normal hy.normal
    ∙ within-literal x y lit a.pat_full b.pat_full b.something (rw same my)

abbrev Disjoint : Text → Text → Type 0
Disjoint x y =
    (text_eq x nothing ≡ true)
    ⊎ (text_eq y nothing ≡ true)
    ⊎ ((pattern_within x y ≡ false)
        × (pattern_within y x ≡ false)
        × ((is_file_pattern x ≡ true)
            ⊎ (is_file_pattern y ≡ true)
            ⊎ ((starts_with (overlap_prefix y) (overlap_prefix x) ≡ false)
                × (starts_with (overlap_prefix x) (overlap_prefix y) ≡ false))))

Disjoint-of : (x y : Text) → pattern_may_overlap x y ≡ false → Disjoint x y
unfolding pattern_may_overlap
Disjoint-of x y h = ground arith

-- No path is in both of two plain patterns that are found not to overlap.
pattern_may_overlap_sound :
    (path x y : Text)
    → IsPlain x
    → IsPlain y
    → pattern_may_overlap x y ≡ false
    → path_matches path x ≡ true
    → path_matches path y ≡ true
    → ⊥
pattern_may_overlap_sound path x y hx hy h mx my =
    let a = matched path x hx mx in
    let b = matched path y hy my in
    elim (Disjoint-of x y h) [
      | inl e ↦ cc (sym a.something ∙ e)
      | inr (inl e) ↦ cc (sym b.something ∙ e)
      | inr (inr (no_xy, no_yx, why)) ↦ elim why [
        | inl f ↦ cc (sym no_xy ∙ file-within path x y hx hy f mx my)
        | inr (inl f) ↦ cc (sym no_yx ∙ file-within path y x hy hx f my mx)
        | inr (inr (p, q)) ↦
            elim (starts_with-comparable (overlap_prefix x) (overlap_prefix y) path
              (starts_with-overlap_prefix path x hx a) (starts_with-overlap_prefix path y hy b)) [
                | inl e ↦ cc (sym q ∙ e)
                | inr e ↦ cc (sym p ∙ e)
              ]
      ]
    ]

or_false : (a b : Bool) → (a || b) ≡ false → (a ≡ false) × (b ≡ false)
or_false a b h = ground arith

or_true : (a b : Bool) → (a || b) ≡ true → (a ≡ true) ⊎ (b ≡ true)
or_true a b h = ground arith

row_sound :
    (path x : Text) (b : List Text)
    → IsPlain x
    → All IsPlain b
    → any (λ y. pattern_may_overlap x y) b ≡ false
    → path_matches path x ≡ true
    → ¬ (matches_any path b ≡ true)
unfolding matches_any
row_sound path x [] px pb h mx mb = cc mb
row_sound path x (y ∷ b) px pb h mx mb =
    let (here, later) = or_false (pattern_may_overlap x y) _ h in
    elim (or_true (path_matches path y) _ mb) [
      | inl my ↦ pattern_may_overlap_sound path x y px pb.0 here mx my
      | inr rest ↦ row_sound path x b px pb.1 later mx rest
    ]

rows_sound :
    (path : Text) (a b : List Text)
    → All IsPlain a
    → All IsPlain b
    → any (λ x. any (λ y. pattern_may_overlap x y) b) a ≡ false
    → matches_any path a ≡ true
    → ¬ (matches_any path b ≡ true)
unfolding matches_any
rows_sound path [] b pa pb h ma mb = cc ma
rows_sound path (x ∷ a) b pa pb h ma mb =
    let (here, later) = or_false (any (λ y. pattern_may_overlap x y) b) _ h in
    elim (or_true (path_matches path x) _ ma) [
      | inl mx ↦ row_sound path x b pa.0 pb here mx mb
      | inr rest ↦ rows_sound path a b pa.1 pb later rest mb
    ]

overlap_clean-any :
    (a b : List Text)
    → overlap_clean a b ≡ false
    → any (λ x. any (λ y. pattern_may_overlap x y) b) a ≡ false
unfolding overlap_clean
overlap_clean-any [] b h = refl
overlap_clean-any (x ∷ a) [] h = cc
overlap_clean-any (x ∷ a) (y ∷ b) h = h

globs_may_overlap-eq :
    (left right : List Text)
    → globs_may_overlap left right ≡ overlap_clean (clean left) (clean right)
unfolding globs_may_overlap
globs_may_overlap-eq left right = refl

-- A no of `globs_may_overlap` is a proof: no path is matched by both lists, when in each the
-- directories that the patterns name have no metacharacter.
pub globs_may_overlap-matches_any :
    (path : Text) (left right : List Text)
    → All IsPlain (clean left)
    → All IsPlain (clean right)
    → globs_may_overlap left right ≡ false
    → matches_any path (clean left) ≡ true
    → matches_any path (clean right) ≡ false
globs_may_overlap-matches_any path left right hl hr h m =
    elim (Bool-cases (matches_any path (clean right))) [
      | inl k ↦ absurd (
          rows_sound path (clean left) (clean right) hl hr
            (overlap_clean-any (clean left) (clean right)
              (sym (globs_may_overlap-eq left right) ∙ h))
            m k)
      | inr k ↦ k
    ]
