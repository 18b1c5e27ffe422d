-- ===== src/Envelope/Notes.antt =====
-- core/envelope.py: what an attenuation records is what it did.
use supervisor_harness.Prelude.{
  ◌≡◌, refl, sym, ap, ◌∙◌, ◌≢◌, inl, inr, Option, none, some, List, [], ◌∷◌, ◌++◌, arith, is_empty,
  Bool-cases,
}
use supervisor_harness.Text.{Text}
use supervisor_harness.Paths.Sets.{narrow_globs, minimal_globs}
use supervisor_harness.Envelope.{
  Scope, Ceiling, Attenuated, Note, narrow_to, inherit, attenuate_from, attenuate, what_was_taken,
  narrowing, same_set, added_by, inheriting,
}

append-eq_nil {ℓ} : {A : Type ℓ} (xs ys : List A) → xs ++ ys ≡ [] → (xs ≡ []) × (ys ≡ [])
append-eq_nil [] ys h = (refl, h)
append-eq_nil (x ∷ xs) ys h = cc

what_was_taken-append :
    (xs ys : List Note) → what_was_taken (xs ++ ys) ≡ what_was_taken xs ++ what_was_taken ys
unfolding what_was_taken
what_was_taken-append [] ys = refl
what_was_taken-append (x ∷ xs) ys = ground (arith, what_was_taken-append xs ys)

taken_before :
    (xs ys : List Note)
    → what_was_taken (xs ++ ys) ≡ []
    → (what_was_taken xs ≡ []) × (what_was_taken ys ≡ [])
taken_before xs ys h =
    append-eq_nil (what_was_taken xs) (what_was_taken ys) (sym (what_was_taken-append xs ys) ∙ h)

taken-narrowing :
    (c : Ceiling) (before after : List Text) → what_was_taken (narrowing c before after ∷ []) ≢ []
unfolding what_was_taken narrowing
taken-narrowing c before after h = ground arith

narrow_to-taken :
    (c : Ceiling) (a : Attenuated) → what_was_taken (narrow_to c a).notes ≡ [] → narrow_to c a ≡ a
unfolding narrow_to
narrow_to-taken c a h =
    let after = narrow_globs a.paths c.paths in
    elim (Bool-cases (same_set (minimal_globs after) (minimal_globs a.paths))) [
      | inl e ↦ rw (e, narrow_to)
      | inr e ↦
          let told : what_was_taken (a.notes ++ narrowing c a.paths after ∷ []) ≡ [] =
            rw (e, narrow_to) at h in
          absurd (
            taken-narrowing c a.paths after
              (taken_before a.notes (narrowing c a.paths after ∷ []) told).1)
    ]

inheriting_some : (c : Ceiling) (added paths : List Text) → inheriting c added paths ≢ []
unfolding inheriting
inheriting_some c added paths h = cc

-- The fence that a ceiling hands down; the paths stay.
pub inherit-paths : (c : Ceiling) (a : Attenuated) → (inherit c a).paths ≡ a.paths
unfolding inherit
inherit-paths c a = ground arith

inherit-same_notes :
    (c : Ceiling) (a : Attenuated) → (inherit c a).notes ≡ [] → (a.notes ≡ []) × (inherit c a ≡ a)
unfolding inherit
inherit-same_notes c a h =
    let added = added_by c a.forbidden in
    elim (Bool-cases (is_empty added)) [
      | inl e ↦ (rw (e, inherit) at h, rw (e, inherit))
      | inr e ↦
          let told : a.notes ++ inheriting c added a.paths ≡ [] = rw (e, inherit) at h in
          absurd (inheriting_some c added a.paths (append-eq_nil a.notes _ told).1)
    ]

inherit-taken :
    (c : Ceiling) (a : Attenuated)
    → what_was_taken (inherit c a).notes ≡ []
    → what_was_taken a.notes ≡ []
unfolding inherit
inherit-taken c a h =
    let added = added_by c a.forbidden in
    elim (Bool-cases (is_empty added)) [
      | inl e ↦ rw (e, inherit) at h
      | inr e ↦
          let told : what_was_taken (a.notes ++ inheriting c added a.paths) ≡ [] =
            rw (e, inherit) at h in
          (taken_before a.notes (inheriting c added a.paths) told).0
    ]

attenuate_from-taken :
    (a : Attenuated) (ceilings : List (Option Ceiling))
    → what_was_taken (attenuate_from a ceilings).notes ≡ []
    → (what_was_taken a.notes ≡ []) × ((attenuate_from a ceilings).paths ≡ a.paths)
unfolding attenuate_from
attenuate_from-taken a [] h = (h, refl)
attenuate_from-taken a (none ∷ rest) h = attenuate_from-taken a rest h
attenuate_from-taken a (some c ∷ rest) h =
    let b = narrow_to c a in
    let (after, kept) = attenuate_from-taken (inherit c b) rest h in
    let before = inherit-taken c b after in
    let same = narrow_to-taken c a before in
    (
      sym (ap (λ x. what_was_taken (Attenuated.notes x)) same) ∙ before,
      kept ∙ inherit-paths c b ∙ ap Attenuated.paths same,
    )

taken-nil : what_was_taken [] ≡ []
unfolding what_was_taken
taken-nil = refl

abbrev rebuilt : Scope → Attenuated → Scope
rebuilt scope a = record scope { paths = a.paths; forbidden_paths = a.forbidden }

attenuate_from-notes :
    (a : Attenuated) (ceilings : List (Option Ceiling))
    → (attenuate_from a ceilings).notes ≡ []
    → (a.notes ≡ []) × (attenuate_from a ceilings ≡ a)
unfolding attenuate_from
attenuate_from-notes a [] h = (h, refl)
attenuate_from-notes a (none ∷ rest) h = attenuate_from-notes a rest h
attenuate_from-notes a (some c ∷ rest) h =
    let b = narrow_to c a in
    let (after, kept) = attenuate_from-notes (inherit c b) rest h in
    let (before, untouched) = inherit-same_notes c b after in
    let same = narrow_to-taken c a (ap what_was_taken before ∙ taken-nil) in
    (sym (ap Attenuated.notes same) ∙ before, kept ∙ untouched ∙ same)

-- With no note the attenuated scope is the one that was asked for.
pub attenuate_unnoted :
    (scope : Scope) (ceilings : List (Option Ceiling))
    → (attenuate scope ceilings).1 ≡ []
    → (attenuate scope ceilings).0 ≡ scope
unfolding attenuate
attenuate_unnoted scope ceilings h =
    let start : Attenuated = record {
      paths = scope.paths;
      forbidden = scope.forbidden_paths;
      notes = [];
    } in
    ap (λ (a : Attenuated). rebuilt scope a) (attenuate_from-notes start ceilings h).1

-- Where the notes tell of no path taken, the scope keeps the paths that were asked for.
pub attenuate-what_was_taken :
    (scope : Scope) (ceilings : List (Option Ceiling))
    → what_was_taken (attenuate scope ceilings).1 ≡ []
    → (attenuate scope ceilings).0.paths ≡ scope.paths
unfolding attenuate
attenuate-what_was_taken scope ceilings h =
    let start : Attenuated = record {
      paths = scope.paths;
      forbidden = scope.forbidden_paths;
      notes = [];
    } in
    (attenuate_from-taken start ceilings h).1
