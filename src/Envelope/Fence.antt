-- ===== src/Envelope/Fence.antt =====
-- core/envelope.py: a fence never dissolves. An empty list of paths means the whole workspace, so
-- the paths of a scope that some ceiling bounds must stay a list with a pattern in it.
use supervisor_harness.Prelude.{
  ◌≡◌, refl, sym, ap, ◌∙◌, ◌⊎◌, inl, inr, true, false, Option, none, some, List, [], ◌∷◌, is_empty,
  Bool-cases, All, subst,
}
use supervisor_harness.Text.{Text, mem}
use supervisor_harness.Paths.Sets.{narrow_globs, minimal_globs}
use supervisor_harness.Paths.Clean.{
  IsProper, narrow_globs-IsProper, minimal_globs_full, narrow_globs_either,
}
use supervisor_harness.Envelope.{
  Scope, Ceiling, Attenuated, narrow_to, inherit, attenuate_from, attenuate, same_set,
}
use supervisor_harness.Envelope.Notes.{inherit-paths}

-- The patterns of every ceiling are in normal form and not empty.
abbrev pub AreProper : List (Option Ceiling) → Type 0
AreProper [] = Unit
AreProper (none ∷ rest) = AreProper rest
AreProper (some c ∷ rest) = All IsProper c.paths × AreProper rest

-- Some ceiling names a path.
abbrev pub IsBounded : List (Option Ceiling) → Type 0
IsBounded [] = ⊥
IsBounded (none ∷ rest) = IsBounded rest
IsBounded (some c ∷ rest) = (is_empty c.paths ≡ false) ⊎ IsBounded rest

narrow_to-IsProper :
    (c : Ceiling) (a : Attenuated)
    → All IsProper a.paths
    → All IsProper c.paths
    → All IsProper (narrow_to c a).paths
unfolding narrow_to
narrow_to-IsProper c a h k =
    let after = narrow_globs a.paths c.paths in
    elim (Bool-cases (same_set (minimal_globs after) (minimal_globs a.paths))) [
      | inl e ↦ rw (e, narrow_to) h
      | inr e ↦ rw (e, narrow_to) (narrow_globs-IsProper a.paths c.paths h k)
    ]

same_set_full :
    (xs ys : List Text) → same_set xs ys ≡ true → is_empty xs ≡ false → is_empty ys ≡ false
unfolding same_set mem
same_set_full [] [] h k = k
same_set_full (x ∷ xs) [] h k = cc h
same_set_full xs (y ∷ ys) h k = refl

-- No pattern at all has no minimal one.
minimal_full : (ps : List Text) → is_empty (minimal_globs ps) ≡ false → is_empty ps ≡ false
minimal_full [] h = unfold minimal_globs in h
minimal_full (p ∷ ps) h = refl

narrow_to_full :
    (c : Ceiling) (a : Attenuated)
    → All IsProper a.paths
    → All IsProper c.paths
    → (is_empty a.paths ≡ false) ⊎ (is_empty c.paths ≡ false)
    → is_empty (narrow_to c a).paths ≡ false
unfolding narrow_to
narrow_to_full c a h k full =
    let after = narrow_globs a.paths c.paths in
    let some_after = narrow_globs_either a.paths c.paths h k full in
    elim (Bool-cases (same_set (minimal_globs after) (minimal_globs a.paths))) [
      | inl e ↦
          rw (e, narrow_to)
            (minimal_full a.paths (
              same_set_full (minimal_globs after) (minimal_globs a.paths) e
                (minimal_globs_full after some_after)))
      | inr e ↦ rw (e, narrow_to) some_after
    ]

attenuate_from_full :
    (a : Attenuated) (ceilings : List (Option Ceiling))
    → All IsProper a.paths
    → AreProper ceilings
    → (is_empty a.paths ≡ false) ⊎ IsBounded ceilings
    → is_empty (attenuate_from a ceilings).paths ≡ false
unfolding attenuate_from
attenuate_from_full a [] h k full = elim full [ inl e ↦ e | inr e ↦ absurd e ]
attenuate_from_full a (none ∷ rest) h k full = attenuate_from_full a rest h k full
attenuate_from_full a (some c ∷ rest) h k full =
    let b = narrow_to c a in
    let proper : All IsProper (inherit c b).paths =
      subst (All IsProper) (sym (inherit-paths c b)) (narrow_to-IsProper c a h k.0) in
    let onwards : (is_empty b.paths ≡ false) → is_empty (inherit c b).paths ≡ false =
      λ e. ap is_empty (inherit-paths c b) ∙ e in
    attenuate_from_full (inherit c b) rest proper k.1 (elim full [
      | inl e ↦ inl (onwards (narrow_to_full c a h k.0 (inl e)))
      | inr (inl e) ↦ inl (onwards (narrow_to_full c a h k.0 (inr e)))
      | inr (inr later) ↦ inr later
    ])

-- A scope that names a path, or that some ceiling bounds, is never attenuated to the empty list,
-- which would mean the whole workspace; the patterns are taken to be in normal form and not empty.
pub attenuate_full :
    (scope : Scope) (ceilings : List (Option Ceiling))
    → All IsProper scope.paths
    → AreProper ceilings
    → (is_empty scope.paths ≡ false) ⊎ IsBounded ceilings
    → is_empty (attenuate scope ceilings).0.paths ≡ false
unfolding attenuate
attenuate_full scope ceilings h k full =
    attenuate_from_full
      (record { paths = scope.paths; forbidden = scope.forbidden_paths; notes = [] }) ceilings h k
      full
