-- ===== src/Paths/Contain.antt =====
-- `pattern_within` and `globs_within` of core/paths.py: when their answer is a proof.
use supervisor_harness.Prelude.{
  ◌≡◌, refl, sym, ◌⊎◌, inl, inr, ◌≢◌, true, false, none, some, [], ◌∷◌, ◌++◌, arith, Option-cases,
  is_empty, ap, ◌∙◌,
}
use supervisor_harness.Text.{Text, text_eq, starts_with, eq_of-text_eq, starts_with_trans, mem}
use supervisor_harness.Glob.{fnmatch}
use supervisor_harness.Glob.Literal.{
  has_meta, literal_prefix, literal_prefix-snoc, fnmatch-literal, fnmatch-literal_prefix,
}
use supervisor_harness.Paths.{
  normalise_pattern, directory_base, under, matches_normal, path_matches, nothing, universal,
  within, pattern_within,
}
use supervisor_harness.Paths.Match.{
  IsNormal, Matched, directory_base-shape, under-some, under-starts, under_trans,
  matches_normal-Matched, Matched-matches_normal, matches_normal-universal, path_matches-normal,
  under-none,
}

-- The two shapes on which the answer of `pattern_within` is no proof are excluded: a literal
-- `inner` that names a directory (`src/`), and one whose literal beginning is exactly the base
-- of `outer` (`src*` in `src/**`).
pub record IsAligned (inner outer : Text) : Type 0 where
  pub file : has_meta inner ≡ false → directory_base inner ≡ none
  pub boundary : has_meta inner ≡ true → directory_base outer ≢ some (literal_prefix inner)

-- The directory that `b` names holds every path of a pattern whose literal beginning lies in it.
module _ (path l b : Text) (deep : starts_with (b ++ b'/' ∷ []) (literal_prefix l) ≡ true) where
  under-fnmatch : fnmatch path l ≡ true → under (some b) path ≡ true
  under-fnmatch h = under-starts b path (
      starts_with_trans (b ++ b'/' ∷ []) (literal_prefix l) path deep
        (fnmatch-literal_prefix path l h))

  under-directory : under (directory_base l) path ≡ true → under (some b) path ≡ true
  under-directory h = elim (Option-cases (directory_base l)) [
    | inl e ↦ absurd (under-none path (rw e at h))
    | inr (d, e) ↦
        let (s, shape, rest) = directory_base-shape l d e in
        let begins : starts_with (literal_prefix l) (d ++ b'/' ∷ []) ≡ true =
          rw shape (literal_prefix-snoc d b'/' s rest) in
        under_trans b d path
          (starts_with_trans (b ++ b'/' ∷ []) (literal_prefix l) (d ++ b'/' ∷ []) deep begins)
          (rw e at h)
  ]

-- The ways in which `within` answers yes, once NOTHING is set aside.
abbrev Within : Text → Text → Type 0
Within l r =
    (text_eq l r ≡ true)
    ⊎ (mem r universal ≡ true)
    ⊎ ((has_meta l ≡ false) × (path_matches l r ≡ true))
    ⊎ ((has_meta l ≡ true) × (under (directory_base r) (literal_prefix l) ≡ true))

within-Within :
    (l r : Text)
    → within l r ≡ true
    → text_eq l nothing ≡ false
    → (is_empty r ≡ false) × (text_eq r nothing ≡ false) × Within l r
unfolding within
within-Within l r h k = ground arith

module _ (path l r : Text) (a : IsAligned l r) (m : Matched path l) where
  -- A literal pattern that is no directory matches itself alone.
  literal-within :
      IsNormal r → has_meta l ≡ false → path_matches l r ≡ true → matches_normal path r ≡ true
  literal-within n lit h = elim m.by [
    | inl g ↦
        let itself : l ≡ path = eq_of-text_eq l path (sym (fnmatch-literal path l lit) ∙ g) in
        rw itself at (sym (path_matches-normal l r n) ∙ h)
    | inr u ↦ absurd (under-none path (rw (a.file lit) at u))
  ]

  -- Every path of `l` begins with its literal beginning, and so lies under the base of `r`.
  beneath-within :
      is_empty r ≡ false
      → text_eq r nothing ≡ false
      → has_meta l ≡ true
      → under (directory_base r) (literal_prefix l) ≡ true
      → matches_normal path r ≡ true
  beneath-within r_full r_thing meta h = elim (Option-cases (directory_base r)) [
    | inl e ↦ absurd (under-none (literal_prefix l) (rw e at h))
    | inr (b, e) ↦ elim (under-some b (literal_prefix l) (rw e at h)) [
      | inl at_base ↦ absurd (a.boundary meta (e ∙ ap some (sym at_base)))
      | inr deep ↦
          let lies : under (some b) path ≡ true = elim m.by [
            | inl g ↦ under-fnmatch path l b deep g
            | inr u ↦ under-directory path l b deep u
          ] in
          Matched-matches_normal path r (record {
            pat_full = r_full;
            path_full = m.path_full;
            something = r_thing;
            by = inr (rw e lies);
          })
    ]
  ]

within_sound :
    (path l r : Text)
    → IsNormal r
    → IsAligned l r
    → within l r ≡ true
    → matches_normal path l ≡ true
    → matches_normal path r ≡ true
within_sound path l r n a h k =
    let m = matches_normal-Matched path l k in
    let (r_full, r_thing, ways) = within-Within l r h m.something in
    elim ways [
      | inl same ↦ rw (eq_of-text_eq l r same) at k
      | inr (inl u) ↦ matches_normal-universal path r u m.path_full
      | inr (inr (inl (lit, p))) ↦ literal-within path l r a m n lit p
      | inr (inr (inr (meta, d))) ↦ beneath-within path l r a m r_full r_thing meta d
    ]

-- A literal pattern lies within what matches it as a path.
pub within-literal :
    (l r : Text)
    → has_meta l ≡ false
    → is_empty l ≡ false
    → is_empty r ≡ false
    → text_eq r nothing ≡ false
    → path_matches l r ≡ true
    → within l r ≡ true
within-literal l r h k k' n u = unfold within in ground arith

pattern_within-eq :
    (l r : Text) → pattern_within l r ≡ within (normalise_pattern l) (normalise_pattern r)
unfolding pattern_within
pattern_within-eq l r = refl

pub pattern_within-normal : (l r : Text) → IsNormal l → IsNormal r → pattern_within l r ≡ within l r
pattern_within-normal l r h k = pattern_within-eq l r ∙ (rw (h, k))

-- A yes of `pattern_within` on normalised patterns is a proof: every path that `inner` matches,
-- `outer` matches too, unless `inner` is a literal directory or its literal beginning is exactly
-- the directory of `outer`.
pub pattern_within-path_matches :
    (path inner outer : Text)
    → IsNormal inner
    → IsNormal outer
    → IsAligned inner outer
    → pattern_within inner outer ≡ true
    → path_matches path inner ≡ true
    → path_matches path outer ≡ true
pattern_within-path_matches path inner outer ni no_ a h k =
    path_matches-normal path outer no_
    ∙ within_sound path inner outer no_ a (sym (pattern_within-normal inner outer ni no_) ∙ h)
        (sym (path_matches-normal path inner ni) ∙ k)
