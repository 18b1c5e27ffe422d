-- ===== src/Paths/Collide.antt =====
-- Where the answers of `pattern_within` in core/paths.py are no proof: each theorem is about a
-- class of patterns.
use supervisor_harness.Prelude.{
  ◌≡◌, refl, sym, true, false, none, some, [], ◌∷◌, ◌++◌, arith, append-nil, ◌∙◌, is_empty,
  Bool-cases, inl, inr, ap,
}
use supervisor_harness.Text.{
  Text, codes, text_eq, starts_with, remove_suffix, eq_of-text_eq, starts_with-cancel,
  remove_suffix_self,
}
use supervisor_harness.Glob.{fnmatch}
use supervisor_harness.Glob.Literal.{
  is_meta, has_meta, literal_prefix, fnmatch-cancel, fnmatch-star, fnmatch-literal_prefix,
  literal_prefix-append, fnmatch-question, fnmatch-question_longer, has_meta-append_literal,
}
use supervisor_harness.Paths.{
  directory_base, under, matches_normal, path_matches, nothing, within, pattern_within,
}
use supervisor_harness.Paths.Match.{
  IsNormal, path_matches-normal, under_self, under-starts, Matched-matches_normal,
}
use supervisor_harness.Paths.Base.{
  directory_base-star_star, directory_base-slash, directory_base-file,
}
use supervisor_harness.Paths.Contain.{pattern_within-normal, within-literal}

meta_star : has_meta (codes "*") ≡ true
unfolding has_meta
meta_star = refl

meta_question : has_meta (codes "?") ≡ true
unfolding has_meta
meta_question = refl

literal_slash : (b : Text) → has_meta b ≡ false → has_meta (b ++ codes "/") ≡ false
unfolding has_meta
literal_slash b h = has_meta-append_literal b (codes "/") h

slash_not_nothing : (b : Text) → text_eq (b ++ codes "/") nothing ≡ false
unfolding remove_suffix
slash_not_nothing b = elim (Bool-cases (text_eq (b ++ codes "/") nothing)) [
  | inl e ↦ cc (
      sym (remove_suffix_self (codes "/") b)
      ∙ ap (remove_suffix (codes "/")) (eq_of-text_eq (b ++ codes "/") nothing e))
  | inr e ↦ e
]

starts_with-slash : (b c : Text) → starts_with (b ++ codes "/") (b ++ (codes "/" ++ c)) ≡ true
unfolding starts_with
starts_with-slash b c = starts_with-cancel b (codes "/") (codes "/" ++ c)

under-no : (path : Text) → under none path ≡ false
unfolding under
under-no path = refl

meta_star_star : has_meta (codes "/**") ≡ true
unfolding has_meta
meta_star_star = refl

pub literal_prefix-star : (b : Text) → has_meta b ≡ false → literal_prefix (b ++ codes "*") ≡ b
unfolding literal_prefix
literal_prefix-star b h = literal_prefix-append b (codes "*") h ∙ append-nil b

matches_normal-false :
    (path pat : Text)
    → fnmatch path pat ≡ false
    → under (directory_base pat) path ≡ false
    → matches_normal path pat ≡ false
unfolding matches_normal
matches_normal-false path pat h k = ground arith

text_eq-extended : (b c : Text) → is_empty c ≡ false → text_eq (b ++ c) b ≡ false
unfolding text_eq
text_eq-extended [] [] h = cc
text_eq-extended [] (y ∷ c) h = refl
text_eq-extended (x ∷ b) c h = ground (arith, text_eq-extended b c h)

-- A text with a metacharacter behind a literal beginning.
pub has_meta-append : (b p : Text) → has_meta p ≡ true → has_meta (b ++ p) ≡ true
unfolding has_meta
has_meta-append [] p h = h
has_meta-append (x ∷ b) p h = ground (arith, has_meta-append b p h)

pub is_empty-append : (b p : Text) → is_empty p ≡ false → is_empty (b ++ p) ≡ false
is_empty-append [] p h = h
is_empty-append (x ∷ b) p h = refl

pub not_nothing : (p : Text) → has_meta p ≡ true → text_eq p nothing ≡ false
unfolding has_meta is_meta
not_nothing p h = elim (Bool-cases (text_eq p nothing)) [
  | inl e ↦ cc (ap has_meta (eq_of-text_eq p nothing e))
  | inr e ↦ e
]

-- The last early returns of `within`, for two patterns of which the first has a metacharacter.
within-meta :
    (l r : Text)
    → has_meta l ≡ true
    → is_empty l ≡ false
    → is_empty r ≡ false
    → text_eq r nothing ≡ false
    → under (directory_base r) (literal_prefix l) ≡ true
    → within l r ≡ true
within-meta l r h k k' n u = unfold within in ground arith

module _ (b c : Text) (lit : has_meta b ≡ false) where
  fnmatch-other_directory :
      starts_with (codes "/") c ≡ false → fnmatch (b ++ c) (b ++ codes "/**") ≡ false
  unfolding literal_prefix
  fnmatch-other_directory h = elim (Bool-cases (fnmatch (b ++ c) (b ++ codes "/**"))) [
    | inl e ↦
        let begins : starts_with (codes "/") c ≡ true =
          fnmatch-literal_prefix c (codes "/**") (sym (fnmatch-cancel b (codes "/**") c lit) ∙ e) in
        cc begins
    | inr e ↦ e
  ]

  not_under :
      starts_with (codes "/") c ≡ false → is_empty c ≡ false → under (some b) (b ++ c) ≡ false
  unfolding under
  not_under h k = rw (text_eq-extended b c k, starts_with-cancel b (codes "/") c) h

  -- `src*` is answered to lie within `src/**`, and matches `srcfoo.py`, which `src/**` does not:
  -- so for every literal name `b` and whatever `c` follows it that does not begin with a slash.
  pub pattern_within-collide :
      is_empty b ≡ false
      → IsNormal (b ++ codes "*")
      → IsNormal (b ++ codes "/**")
      → is_empty c ≡ false
      → starts_with (codes "/") c ≡ false
      → (pattern_within (b ++ codes "*") (b ++ codes "/**") ≡ true)
        × (path_matches (b ++ c) (b ++ codes "*") ≡ true)
        × (path_matches (b ++ c) (b ++ codes "/**") ≡ false)
  pattern_within-collide b_full n m c_full h =
      let l = b ++ codes "*" in
      let r = b ++ codes "/**" in
      let meta_l = has_meta-append b (codes "*") meta_star in
      let meta_r = has_meta-append b (codes "/**") meta_star_star in
      let base : directory_base r ≡ some b = directory_base-star_star b b_full in
      let prefix : literal_prefix l ≡ b = literal_prefix-star b lit in
      (
        pattern_within-normal l r n m
            ∙ within-meta l r meta_l (is_empty-append b (codes "*") refl)
                (is_empty-append b (codes "/**") refl) (not_nothing r meta_r)
                (rw (base, prefix) (under_self b b refl)),
        path_matches-normal (b ++ c) l n
            ∙ Matched-matches_normal (b ++ c) l (record {
              pat_full = is_empty-append b (codes "*") refl;
              path_full = is_empty-append b c c_full;
              something = not_nothing l meta_l;
              by = inl (fnmatch-cancel b (codes "*") c lit ∙ fnmatch-star c);
            }),
        path_matches-normal (b ++ c) r m
            ∙ matches_normal-false (b ++ c) r (fnmatch-other_directory h)
                (rw base (not_under h c_full)),
      )

  -- A directory written with its slash is taken for the one path `src/`: it is answered to lie
  -- within `src?`, which matches none of the files beneath it.
  pub pattern_within-directory :
      is_empty b ≡ false
      → IsNormal (b ++ codes "/")
      → IsNormal (b ++ codes "?")
      → is_empty c ≡ false
      → (pattern_within (b ++ codes "/") (b ++ codes "?") ≡ true)
        × (path_matches (b ++ (codes "/" ++ c)) (b ++ codes "/") ≡ true)
        × (path_matches (b ++ (codes "/" ++ c)) (b ++ codes "?") ≡ false)
  pattern_within-directory b_full n m c_full =
      let l = b ++ codes "/" in
      let r = b ++ codes "?" in
      let path = b ++ (codes "/" ++ c) in
      let base : directory_base l ≡ some b = directory_base-slash b b_full in
      let r_thing = not_nothing r (has_meta-append b (codes "?") meta_question) in
      let no_base : directory_base r ≡ none = directory_base-file b b'?' refl refl in
      (
        pattern_within-normal l r n m
            ∙ within-literal l r (literal_slash b lit) (is_empty-append b (codes "/") refl)
                (is_empty-append b (codes "?") refl) r_thing
                (path_matches-normal l r m
                  ∙ Matched-matches_normal l r (record {
                    pat_full = is_empty-append b (codes "?") refl;
                    path_full = is_empty-append b (codes "/") refl;
                    something = r_thing;
                    by = inl (fnmatch-cancel b (codes "?") (codes "/") lit ∙ fnmatch-question b'/');
                  })),
        path_matches-normal path l n
            ∙ Matched-matches_normal path l (record {
              pat_full = is_empty-append b (codes "/") refl;
              path_full = is_empty-append b (codes "/" ++ c) refl;
              something = slash_not_nothing b;
              by = inr (rw base (under-starts b path (starts_with-slash b c)));
            }),
        path_matches-normal path r m
            ∙ matches_normal-false path r
                (fnmatch-cancel b (codes "?") (codes "/" ++ c) lit
                  ∙ fnmatch-question_longer b'/' c c_full)
                (rw no_base (under-no path)),
      )
