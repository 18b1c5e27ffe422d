-- ===== src/Paths/Match.antt =====
-- What `path_matches` and `_directory_base` of core/paths.py say of a path.
use supervisor_harness.Prelude.{
  ◌≡◌, refl, sym, ◌⊎◌, inl, inr, true, false, none, some, List, [], ◌∷◌, ◌++◌, ◌∙◌, ap, arith,
  Option-cases, Bool-cases, is_empty,
}
use supervisor_harness.Text.{
  Text, codes, text_eq, starts_with, remove_suffix, mem, text_eq_refl, eq_of-text_eq,
  remove_suffix-append, starts_with_trans, starts_with-snoc,
}
use supervisor_harness.Glob.{fnmatch}
use supervisor_harness.Glob.Literal.{literal_prefix, fnmatch-star, fnmatch-star_star}
use supervisor_harness.Paths.{
  normalise_pattern, directory_base, under, matches_normal, path_matches, nothing, base_by, or_none,
  universal,
}

-- The pattern is already in the form that the comparisons use.
abbrev pub IsNormal : Text → Type 0
IsNormal p = normalise_pattern p ≡ p

or_none-some : (t : Text) {b : Text} → or_none t ≡ some b → t ≡ b
or_none-some [] h = cc
or_none-some (c ∷ t) h = cc

base_by-cons :
    (suffix : Text) (rest : List Text) (p : Text) {b : Text}
    → base_by (suffix ∷ rest) p ≡ some b
    → (p ≡ b ++ suffix) ⊎ (base_by rest p ≡ some b)
unfolding base_by
base_by-cons suffix rest p {b} h = elim (Option-cases (remove_suffix suffix p)) [
  | inl e ↦ inr (rw (e, base_by) at h)
  | inr (b', e) ↦
      let found : or_none b' ≡ some b = rw (e, base_by) at h in
      inl (rw (remove_suffix-append suffix p b' e) (ap (λ t. t ++ suffix) (or_none-some b' found)))
]

pub base_by-skip :
    (suffix : Text) (rest : List Text) (p : Text)
    → remove_suffix suffix p ≡ none
    → base_by (suffix ∷ rest) p ≡ base_by rest p
unfolding base_by
base_by-skip suffix rest p h = rw (h, base_by)

pub base_by-take :
    (suffix : Text) (rest : List Text) (p b : Text)
    → remove_suffix suffix p ≡ some b
    → is_empty b ≡ false
    → base_by (suffix ∷ rest) p ≡ some b
unfolding base_by
base_by-take suffix rest p [] h k = cc
base_by-take suffix rest p (x ∷ b) h k = rw (h, base_by)

-- A pattern with a base is the base, a slash, and what begins with a metacharacter or is empty.
pub directory_base-shape :
    (p b : Text)
    → directory_base p ≡ some b
    → (s : Text) × (p ≡ b ++ b'/' ∷ s) × (literal_prefix s ≡ [])
unfolding directory_base base_by literal_prefix
directory_base-shape p b h =
    elim (base_by-cons (codes "/**/*") (codes "/**" ∷ codes "/*" ∷ codes "/" ∷ []) p h) [
      | inl e ↦ (codes "**/*", e, refl)
      | inr h1 ↦ elim (base_by-cons (codes "/**") (codes "/*" ∷ codes "/" ∷ []) p h1) [
        | inl e ↦ (codes "**", e, refl)
        | inr h2 ↦ elim (base_by-cons (codes "/*") (codes "/" ∷ []) p h2) [
          | inl e ↦ (codes "*", e, refl)
          | inr h3 ↦ elim (base_by-cons (codes "/") [] p h3) [ inl e ↦ ([], e, refl) | inr h4 ↦ cc ]
        ]
      ]
    ]

-- A path that begins with a directory and a slash lies beneath the directory.
pub under-starts :
    (b path : Text) → starts_with (b ++ b'/' ∷ []) path ≡ true → under (some b) path ≡ true
unfolding under
under-starts b path h = ground arith

pub under_self : (b path : Text) → path ≡ b → under (some b) path ≡ true
unfolding under
under_self b path e = rw (e, text_eq_refl b)

pub under-some :
    (b path : Text)
    → under (some b) path ≡ true
    → (path ≡ b) ⊎ (starts_with (b ++ b'/' ∷ []) path ≡ true)
unfolding under
under-some b path h = elim (Bool-cases (text_eq path b)) [
  | inl e ↦ inl (eq_of-text_eq path b e)
  | inr e ↦ inr (ground (arith, e))
]

-- The directory of a path beneath it, where a deeper directory's slash is known to lie beneath.
pub under_trans :
    (b d path : Text)
    → starts_with (b ++ b'/' ∷ []) (d ++ b'/' ∷ []) ≡ true
    → under (some d) path ≡ true
    → under (some b) path ≡ true
under_trans b d path h k = elim (under-some d path k) [
  | inl e ↦ elim (starts_with-snoc b d b'/' h) [
    | inl e' ↦ under_self b path (e ∙ sym e')
    | inr s ↦ under-starts b path (rw e s)
  ]
  | inr s ↦ under-starts b path (starts_with_trans (b ++ b'/' ∷ []) (d ++ b'/' ∷ []) path h s)
]

-- What a match says of a path: it is neither empty nor matched by NOTHING, and either the glob
-- or the directory form matches.
pub record Matched (path pat : Text) : Type 0 where
  pub pat_full : is_empty pat ≡ false
  pub path_full : is_empty path ≡ false
  pub something : text_eq pat nothing ≡ false
  pub by : (fnmatch path pat ≡ true) ⊎ (under (directory_base pat) path ≡ true)

pub matches_normal-Matched : (path pat : Text) → matches_normal path pat ≡ true → Matched path pat
unfolding matches_normal
matches_normal-Matched path pat h = ground arith

pub Matched-matches_normal : (path pat : Text) → Matched path pat → matches_normal path pat ≡ true
unfolding matches_normal
Matched-matches_normal path pat m = ground arith

pub path_matches-normal :
    (path pat : Text) → IsNormal pat → path_matches path pat ≡ matches_normal path pat
path_matches-normal path pat h = unfold path_matches in ap (matches_normal path) h

-- The universal patterns match every path there is.
pub matches_normal-universal :
    (path pat : Text)
    → mem pat universal ≡ true
    → is_empty path ≡ false
    → matches_normal path pat ≡ true
unfolding matches_normal mem
matches_normal-universal path pat h k = elim (Bool-cases (text_eq (codes "*") pat)) [
  | inl e ↦ rw (← eq_of-text_eq (codes "*") pat e) (rw (k, fnmatch-star path) refl)
  | inr e ↦
      let star_star : text_eq (codes "**") pat ≡ true = ground (arith, e) in
      rw (← eq_of-text_eq (codes "**") pat star_star) (rw (k, fnmatch-star_star path) refl)
]

pub under-none : (path : Text) → ¬ (under none path ≡ true)
unfolding under
under-none path h = cc
