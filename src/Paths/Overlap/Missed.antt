-- ===== src/Paths/Overlap/Missed.antt =====
-- Where a no of `globs_may_overlap` in core/paths.py is no proof: a directory whose name holds a
-- metacharacter is compared as if it were literal.
use supervisor_harness.Prelude.{
  ℕ, ◌≡◌, refl, sym, ◌∙◌, ap, inl, true, false, none, some, [], ◌∷◌, ◌++◌, arith, is_empty,
  append_assoc, append-nil, ◌==◌,
}
use supervisor_harness.Text.{
  Text, codes, text_eq, starts_with, mem, text_eq-cancel, starts_with-cancel, remove_suffix-none,
}
use supervisor_harness.Glob.Literal.{
  is_meta, has_meta, literal_prefix, fnmatch-cancel, fnmatch-star, fnmatch-star_slash,
  literal_prefix-append,
}
use supervisor_harness.Paths.{
  directory_base, under, path_matches, nothing, universal, pattern_within, within, base_by,
}
use supervisor_harness.Paths.Sets.{is_file_pattern, overlap_prefix, pattern_may_overlap}
use supervisor_harness.Paths.Match.{
  IsNormal, Matched-matches_normal, path_matches-normal, base_by-skip,
}
use supervisor_harness.Paths.Base.{directory_base-star_star}
use supervisor_harness.Paths.Contain.{pattern_within-normal}
use supervisor_harness.Paths.Collide.{has_meta-append, is_empty-append, not_nothing}

-- `within` on two globs neither of which is universal, equal or beneath the other.
within-false :
    (l r : Text)
    → text_eq l nothing ≡ false
    → text_eq l r ≡ false
    → mem r universal ≡ false
    → has_meta l ≡ true
    → under (directory_base r) (literal_prefix l) ≡ false
    → within l r ≡ false
within-false l r a b c d e = unfold within in ground arith

-- A pattern with a literal beginning is not universal.
not_universal :
    (b p : Text) → is_empty b ≡ false → has_meta b ≡ false → mem (b ++ p) universal ≡ false
unfolding mem has_meta is_meta
not_universal [] p h k = cc
not_universal (z ∷ b) p h k = ground arith

under-no : (path : Text) → under none path ≡ false
unfolding under
under-no path = refl

under-some-false :
    (b path : Text)
    → text_eq path b ≡ false
    → starts_with (b ++ b'/' ∷ []) path ≡ false
    → under (some b) path ≡ false
unfolding under
under-some-false b path h k = rw (h, k)

may_overlap-false :
    (l r : Text)
    → pattern_within l r ≡ false
    → pattern_within r l ≡ false
    → has_meta l ≡ true
    → has_meta r ≡ true
    → starts_with (overlap_prefix r) (overlap_prefix l) ≡ false
    → starts_with (overlap_prefix l) (overlap_prefix r) ≡ false
    → pattern_may_overlap l r ≡ false
unfolding pattern_may_overlap is_file_pattern
may_overlap-false l r a b c d e f = ground arith

module _ (b : Text) (c : ℕ) (t : Text) (b_full : is_empty b ≡ false) (lit : has_meta b ≡ false)
    (c_lit : is_meta c ≡ false) (no_slash : (c == b'/') ≡ false) where
  abbrev x : Text
  x = b ++ codes "*/**"

  abbrev y : Text
  y = b ++ c ∷ codes "*"

  base_x : directory_base x ≡ some (b ++ codes "*")
  base_x =
      ap directory_base (sym (append_assoc b (codes "*") (codes "/**")))
      ∙ directory_base-star_star (b ++ codes "*") (is_empty-append b (codes "*") refl)

  base_y : directory_base y ≡ none
  unfolding directory_base starts_with is_meta base_by
  base_y =
      base_by-skip (codes "/**/*") (codes "/**" ∷ codes "/*" ∷ codes "/" ∷ []) y
        (remove_suffix-none (codes "/**/*") b (c ∷ codes "*") (ground arith))
      ∙ base_by-skip (codes "/**") (codes "/*" ∷ codes "/" ∷ []) y
          (remove_suffix-none (codes "/**") b (c ∷ codes "*") (ground arith))
      ∙ base_by-skip (codes "/*") (codes "/" ∷ []) y
          (remove_suffix-none (codes "/*") b (c ∷ codes "*") (ground arith))
      ∙ base_by-skip (codes "/") [] y
          (remove_suffix-none (codes "/") b (c ∷ codes "*") (ground arith))

  meta_x : has_meta x ≡ true
  unfolding has_meta
  meta_x = has_meta-append b (codes "*/**") refl

  meta_y : has_meta y ≡ true
  unfolding has_meta is_meta
  meta_y = has_meta-append b (c ∷ codes "*") (ground arith)

  prefix_x : literal_prefix x ≡ b
  unfolding literal_prefix
  prefix_x = literal_prefix-append b (codes "*/**") lit ∙ append-nil b

  prefix_y : literal_prefix y ≡ b ++ c ∷ []
  unfolding literal_prefix is_meta
  prefix_y = literal_prefix-append b (c ∷ codes "*") lit ∙ ap (λ s. b ++ s) (ground arith)

  one_literal : has_meta (c ∷ []) ≡ false
  unfolding has_meta
  one_literal = rw c_lit

  xy_differ : text_eq x y ≡ false
  unfolding text_eq is_meta
  xy_differ = text_eq-cancel b (codes "*/**") (c ∷ codes "*") ∙ (ground arith)

  yx_differ : text_eq y x ≡ false
  unfolding text_eq is_meta
  yx_differ = text_eq-cancel b (c ∷ codes "*") (codes "*/**") ∙ (ground arith)

  x_not_in_y : IsNormal x → IsNormal y → pattern_within x y ≡ false
  x_not_in_y n m =
      pattern_within-normal x y n m
      ∙ within-false x y (not_nothing x meta_x) xy_differ
          (not_universal b (c ∷ codes "*") b_full lit) meta_x
          (rw base_y (under-no (literal_prefix x)))

  y_not_in_x : IsNormal x → IsNormal y → pattern_within y x ≡ false
  unfolding text_eq starts_with is_meta
  y_not_in_x n m =
      pattern_within-normal y x m n
      ∙ within-false y x (not_nothing y meta_y) yx_differ
          (not_universal b (codes "*/**") b_full lit) meta_y
          (rw (base_x, prefix_y)
            (under-some-false (b ++ codes "*") (b ++ c ∷ [])
              (text_eq-cancel b (c ∷ []) (codes "*") ∙ (ground arith))
              (ap (λ s. starts_with s (b ++ c ∷ [])) (append_assoc b (codes "*") (codes "/"))
                ∙ starts_with-cancel b (codes "*/") (c ∷ [])
                ∙ (ground arith))))

  overlap_x : overlap_prefix x ≡ b ++ codes "*"
  unfolding overlap_prefix
  overlap_x = rw (base_x, overlap_prefix)

  overlap_y : overlap_prefix y ≡ b ++ c ∷ []
  unfolding overlap_prefix
  overlap_y = rw (base_y, overlap_prefix) prefix_y

  prefixes_differ :
      (starts_with (overlap_prefix y) (overlap_prefix x) ≡ false)
      × (starts_with (overlap_prefix x) (overlap_prefix y) ≡ false)
  unfolding starts_with is_meta
  prefixes_differ = (
    rw (overlap_x, overlap_y) (starts_with-cancel b (c ∷ []) (codes "*") ∙ (ground arith)),
    rw (overlap_x, overlap_y) (starts_with-cancel b (codes "*") (c ∷ []) ∙ (ground arith)),
  )

  -- `src/*/**` and `src/a*` are answered not to overlap, and both match `src/a/t`: so for every
  -- literal `b` before the star and every plain character `c` after it.
  pub pattern_may_overlap-missed :
      IsNormal x
      → IsNormal y
      → (pattern_may_overlap x y ≡ false)
        × (path_matches (b ++ c ∷ b'/' ∷ t) x ≡ true)
        × (path_matches (b ++ c ∷ b'/' ∷ t) y ≡ true)
  pattern_may_overlap-missed n m =
      let path = b ++ c ∷ b'/' ∷ t in
      let path_full = is_empty-append b (c ∷ b'/' ∷ t) refl in
      (
        may_overlap-false x y (x_not_in_y n m) (y_not_in_x n m) meta_x meta_y prefixes_differ.0
            prefixes_differ.1,
        path_matches-normal path x n
            ∙ Matched-matches_normal path x (record {
              pat_full = is_empty-append b (codes "*/**") refl;
              path_full = path_full;
              something = not_nothing x meta_x;
              by =
                  inl (fnmatch-cancel b (codes "*/**") (c ∷ b'/' ∷ t) lit ∙ fnmatch-star_slash c t);
            }),
        path_matches-normal path y m
            ∙ Matched-matches_normal path y (record {
              pat_full = is_empty-append b (c ∷ codes "*") refl;
              path_full = path_full;
              something = not_nothing y meta_y;
              by = inl (
                  fnmatch-cancel b (c ∷ codes "*") (c ∷ b'/' ∷ t) lit
                  ∙ fnmatch-cancel (c ∷ []) (codes "*") (b'/' ∷ t) one_literal
                  ∙ fnmatch-star (b'/' ∷ t));
            }),
      )
