-- ===== src/Paths/Examples.antt =====
-- The path rules of core/paths.py on concrete scopes.
use supervisor_harness.Prelude.{
  ◌≡◌, ◌⊎◌, refl, true, false, some, List, [], ◌∷◌, is_empty, ◌↔◌, arith, All, length, filter,
}
use supervisor_harness.Text.{Text, codes, text_eq, starts_with, strip, lstrip, rstrip, replace}
use supervisor_harness.Glob.{fnmatch}
use supervisor_harness.Glob.Literal.{has_meta, literal_prefix, is_meta}
use supervisor_harness.Paths.{
  normalise_pattern, drop_dot_slash, directory_base, path_matches, matches_any, pattern_within,
  slashed,
}
use supervisor_harness.Paths.Sets.{
  minimal_globs, narrow_globs, globs_may_overlap, pattern_may_overlap, clean,
}
use supervisor_harness.Paths.Rooted.{
  scope_relative, relative_patterns, normalise_path, rooted_form, strip_workspace, relative_pattern,
  is_rooted, placed,
}
use supervisor_harness.Paths.Match.{IsNormal}
use supervisor_harness.Paths.Contain.{IsAligned, pattern_within-path_matches}
use supervisor_harness.Paths.Collide.{pattern_within-collide, pattern_within-directory}
use supervisor_harness.Paths.Narrow.{AreComparable, narrow_globs_full, narrow_globs-matches_any}
use supervisor_harness.Paths.Minimal.{minimal_globs-Antichain, Antichain}
use supervisor_harness.Paths.Minimal.Cover.{minimal_globs-matches_any}
use supervisor_harness.Paths.Overlap.{IsPlain, globs_may_overlap-matches_any}
use supervisor_harness.Paths.Overlap.Missed.{pattern_may_overlap-missed}
use supervisor_harness.Paths.Place.{
  relative_patterns_full, scope_relative-some, is_written, IsBeneath,
}

abbrev login : Text
login = codes "src/auth/login.py"

abbrev auth : Text
auth = codes "src/auth/*"

abbrev source : Text
source = codes "src/**"

-- `src/auth/**` covers a file beneath it and not its neighbour.
matches_boundary :
    (path_matches login (codes "src/auth/**") ≡ true)
    × (path_matches (codes "src/authority.py") (codes "src/auth/**") ≡ false)
unfolding path_matches
matches_boundary = (refl, refl)

classes :
    (fnmatch (codes "b1.py") (codes "[a-c][!x].p?") ≡ true)
    × (fnmatch (codes "d1.py") (codes "[a-c]*") ≡ false)
    × (fnmatch (codes "[x") (codes "[x") ≡ true)
unfolding fnmatch
classes = (refl, refl, refl)

within_tests :
    (pattern_within (codes "src/auth/*") (codes "src/**") ≡ true)
    × (pattern_within (codes "srcfoo/*") (codes "src/**") ≡ false)
    × (pattern_within (codes "src/auth/*.py") (codes "src/**/*.py") ≡ false)
unfolding pattern_within
within_tests = (refl, refl, refl)

narrow_test :
    narrow_globs (auth ∷ codes "docs/" ∷ []) (codes "./src/**" ∷ codes "tests/" ∷ []) ≡ auth ∷ []
unfolding narrow_globs
narrow_test = refl

source-IsNormal : IsNormal source
unfolding normalise_pattern
source-IsNormal = refl

auth-IsNormal : IsNormal auth
unfolding normalise_pattern
auth-IsNormal = refl

auth-IsAligned : IsAligned auth source
unfolding has_meta literal_prefix directory_base
auth-IsAligned = record { file = λ h. cc h; boundary = λ h e. cc e }

source-IsAligned : IsAligned source auth
unfolding has_meta literal_prefix directory_base
source-IsAligned = record { file = λ h. cc h; boundary = λ h e. cc e }

abbrev auth_source : AreComparable auth source
auth_source = record {
  x_normal = auth-IsNormal;
  y_normal = source-IsNormal;
  forwards = auth-IsAligned;
  backwards = source-IsAligned;
}

pattern_within-path_matches_example : path_matches login source ≡ true
unfolding pattern_within path_matches
pattern_within-path_matches_example =
    pattern_within-path_matches login auth source auth-IsNormal source-IsNormal auth-IsAligned refl
      refl

pattern_within-collide_example :
    (pattern_within (codes "src*") (codes "src/**") ≡ true)
    × (path_matches (codes "srcfoo.py") (codes "src*") ≡ true)
    × (path_matches (codes "srcfoo.py") (codes "src/**") ≡ false)
unfolding has_meta normalise_pattern starts_with
pattern_within-collide_example =
    pattern_within-collide (codes "src") (codes "foo.py") refl refl refl refl refl refl

pattern_within-directory_example :
    (pattern_within (codes "src/") (codes "src?") ≡ true)
    × (path_matches (codes "src/a.py") (codes "src/") ≡ true)
    × (path_matches (codes "src/a.py") (codes "src?") ≡ false)
unfolding has_meta normalise_pattern
pattern_within-directory_example =
    pattern_within-directory (codes "src") (codes "a.py") refl refl refl refl refl

narrow_globs_full_example : is_empty (narrow_globs (codes "docs/" ∷ []) (source ∷ [])) ≡ false
unfolding clean
narrow_globs_full_example = narrow_globs_full (codes "docs/" ∷ []) (source ∷ []) refl

narrow_globs-matches_any_example :
    (matches_any login (clean (auth ∷ [])) ≡ true)
    × (matches_any login (clean (source ∷ [])) ≡ true)
unfolding clean narrow_globs matches_any path_matches
narrow_globs-matches_any_example =
    narrow_globs-matches_any login (auth ∷ []) (source ∷ []) refl refl ((auth_source, tt), tt) refl

minimal_globs-Antichain_example : Antichain (minimal_globs (auth ∷ source ∷ auth ∷ []))
minimal_globs-Antichain_example = minimal_globs-Antichain (auth ∷ source ∷ auth ∷ [])

minimal_globs-matches_any_example :
    (matches_any login (minimal_globs (source ∷ auth ∷ [])) ≡ true)
    ↔ (matches_any login (source ∷ auth ∷ []) ≡ true)
minimal_globs-matches_any_example =
    minimal_globs-matches_any login (source ∷ auth ∷ []) ((auth_source, tt), (tt, tt))

abbrev docs : Text
docs = codes "docs/*"

docs-IsPlain : IsPlain docs
unfolding normalise_pattern directory_base has_meta
docs-IsPlain = record { normal = refl; base_literal = λ b e. ground arith }

source-IsPlain : IsPlain source
unfolding normalise_pattern directory_base has_meta
source-IsPlain = record { normal = refl; base_literal = λ b e. ground arith }

globs_may_overlap-matches_any_example : matches_any login (clean (docs ∷ [])) ≡ false
unfolding clean globs_may_overlap matches_any path_matches
globs_may_overlap-matches_any_example =
    globs_may_overlap-matches_any login (source ∷ []) (docs ∷ []) (source-IsPlain, tt)
      (docs-IsPlain, tt) refl refl

pattern_may_overlap-missed_example :
    (pattern_may_overlap (codes "src/*/**") (codes "src/a*") ≡ false)
    × (path_matches (codes "src/a/t.py") (codes "src/*/**") ≡ true)
    × (path_matches (codes "src/a/t.py") (codes "src/a*") ≡ true)
unfolding has_meta is_meta normalise_pattern
pattern_may_overlap-missed_example =
    pattern_may_overlap-missed (codes "src/") b'a' (codes "t.py") refl refl refl refl refl refl

abbrev workspace : Text
workspace = codes "/home/me/repo/"

abbrev same : Text → Text
same t = t

abbrev absolute : List Text
absolute =
    codes "/home/me/repo/src/**" ∷ codes "/etc/passwd" ∷ codes "/home/me/repo" ∷ codes "  " ∷ []

relative_test :
    relative_patterns same absolute workspace ≡ source ∷ codes "<nothing>" ∷ codes "**" ∷ []
unfolding relative_patterns relative_pattern is_rooted normalise_pattern strip_workspace rstrip
    lstrip text_eq
relative_test = refl

relative_patterns_full_example :
    (length (relative_patterns same absolute workspace) ≡ length (filter is_written absolute))
    × All (λ p. is_empty p ≡ false) (relative_patterns same absolute workspace)
relative_patterns_full_example = relative_patterns_full same absolute workspace

scope_relative-some_example :
    (is_empty (codes "a.py") ≡ false)
    × (starts_with (codes "/") (codes "a.py") ≡ false)
    × ((is_rooted (slashed (codes "/home/me/repo/a.py")) ≡ false)
        ⊎ ((s : Text) × (strip_workspace same (slashed (codes "/home/me/repo/a.py")) workspace
              ≡ some s)
            × IsBeneath same (slashed (codes "/home/me/repo/a.py")) workspace s
            × (normalise_path same s [] ≡ codes "a.py")))
unfolding scope_relative rooted_form normalise_path placed is_rooted strip_workspace rstrip lstrip
    drop_dot_slash strip replace
scope_relative-some_example = scope_relative-some same (codes "/home/me/repo/a.py") workspace refl
