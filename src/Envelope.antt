-- ===== src/Envelope.antt =====
-- src/supervisor_harness/core/envelope.py, and `Scope` and `ScopeEnvelope` of models.py: the run's
-- envelope and the attenuation of every scope to it. A note is the data of the line that the
-- program renders from it.
pub mod Fence
pub mod Forbidden
pub mod Notes
pub mod Grant
mod Examples
use supervisor_harness.Prelude.{
  Bool, true, false, not, ◌&&◌, ◌||◌, Option, none, some, List, [], ◌∷◌, ◌++◌, any, all, filter,
  is_empty, if◌then◌else◌,
}
use supervisor_harness.Text.{Text, codes, mem, strip}
use supervisor_harness.Paths.{matches_any, pattern_within}
use supervisor_harness.Paths.Sets.{narrow_globs, minimal_globs, globs_within}

pub record Scope : Type 0 where
  pub paths : List Text
  pub forbidden_paths : List Text
  pub topics : List Text
  pub out_of_scope : List Text
  pub unread_paths : List Text

pub record ScopeEnvelope : Type 0 where
  pub paths : List Text
  pub forbidden_paths : List Text
  pub source : Text
  pub granted_at : Text

pub record Ceiling : Type 0 where
  pub label : Text
  pub paths : List Text
  pub forbidden_paths : List Text

-- What a ceiling is read from.
pub data Source : Type 0 where
  of_scope : Scope → Source
  of_envelope : ScopeEnvelope → Source

-- `Ceiling.of`
unfoldable pub ceiling_of : Text → Option Source → Option Ceiling
ceiling_of label none = none
ceiling_of label (some (of_scope s)) =
    some (record { label = label; paths = s.paths; forbidden_paths = s.forbidden_paths })
ceiling_of label (some (of_envelope e)) =
    some (record { label = label; paths = e.paths; forbidden_paths = e.forbidden_paths })

-- `now` is the stamp that `now_iso` gives a new envelope.
unfoldable pub effective : Text → Option ScopeEnvelope → ScopeEnvelope
effective now none = record {
  paths = [];
  forbidden_paths = [];
  source = codes "none established";
  granted_at = now;
}
effective now (some envelope) = envelope

abbrev pub is_blank : Text → Bool
is_blank p = is_empty (strip p)

-- The patterns that are not blank and not there yet, added in order: the loop over the proposed
-- forbidden patterns, and `dict.fromkeys(p for p in wanted if p.strip())` from no pattern.
unfoldable pub add_new : List Text → List Text → List Text
add_new seen [] = seen
add_new seen (p ∷ rest) =
    add_new (if not (is_blank p) && not (mem p seen) then seen ++ p ∷ [] else seen) rest

-- The line about a proposal that the configured envelope does not contain.
pub record Refused : Type 0 where
  pub proposed : List Text
  pub configured : List Text
  pub bounded_by : List Text

abbrev or_source : Text → Text → Text
or_source source other = if is_empty source then other else source

abbrev pub base_of : Text → Option ScopeEnvelope → ScopeEnvelope
base_of now none = record { paths = []; forbidden_paths = []; source = []; granted_at = now }
base_of now (some configured) = configured

unfoldable pub establish :
    Text → Option ScopeEnvelope → List Text → List Text → Text → ScopeEnvelope × List Refused
establish now configured proposed_paths proposed_forbidden source =
    let base = base_of now configured in
    let proposed = filter (λ p. not (is_blank p)) proposed_paths in
    let forbidden = add_new base.forbidden_paths proposed_forbidden in
    let paths = narrow_globs proposed base.paths in
    if is_empty proposed
    then (
      record {
        paths = base.paths;
        forbidden_paths = forbidden;
        source = or_source source base.source;
        granted_at = now;
      },
      [],
    )
    else (
      record { paths = paths; forbidden_paths = forbidden; source = source; granted_at = now },
      if globs_within proposed base.paths
          then []
          else record { proposed = proposed; configured = base.paths; bounded_by = paths } ∷ [],
    )

pub record Widened : Type 0 where
  pub allowed : List Text
  pub granted : List Text
  pub refused : List Text

-- A path that the grant does not cover, or that it or the plan forbids.
unfoldable pub is_refused : ScopeEnvelope → Ceiling → Text → Bool
is_refused envelope ceiling path =
    matches_any path ceiling.forbidden_paths
    || matches_any path envelope.forbidden_paths
    || not (is_empty ceiling.paths) && not (globs_within (path ∷ []) ceiling.paths)

-- One round of the loop of `widen_within`.
unfoldable pub widen_one : ScopeEnvelope → Ceiling → Widened → Text → Widened
widen_one envelope ceiling w path =
    if is_refused envelope ceiling path
    then record w { refused = w.refused ++ path ∷ [] }
    else record w {
      allowed =
          if not (is_empty w.allowed) && not (globs_within (path ∷ []) w.allowed)
          then w.allowed ++ path ∷ []
          else w.allowed;
      granted = w.granted ++ path ∷ [];
    }

unfoldable pub widen_each : ScopeEnvelope → Ceiling → Widened → List Text → Widened
widen_each envelope ceiling w [] = w
widen_each envelope ceiling w (path ∷ rest) =
    widen_each envelope ceiling (widen_one envelope ceiling w path) rest

unfoldable pub widen_within :
    ScopeEnvelope → Ceiling → List Text → ScopeEnvelope × List Text × List Text
widen_within envelope ceiling wanted =
    let w =
      widen_each envelope ceiling (record { allowed = envelope.paths; granted = []; refused = [] })
        (add_new [] wanted) in
    (record envelope { paths = w.allowed }, w.granted, w.refused)

pub data Note : Type 0 where
  narrowed : Text → List Text → List Text → Note
  taken : Text → List Text → Note
  inherited : Text → List Text → Note
  cut : Text → List Text → Note

pub record Attenuated : Type 0 where
  pub paths : List Text
  pub forbidden : List Text
  pub notes : List Note

-- `set(xs) == set(ys)`
unfoldable pub same_set : List Text → List Text → Bool
same_set xs ys = all (λ x. mem x ys) xs && all (λ y. mem y xs) ys

-- The two facts that a narrowing is told as: a scope that had paths lost some, or one that had
-- none was handed its ceiling.
unfoldable pub narrowing : Ceiling → List Text → List Text → Note
narrowing c before after =
    if is_empty before then taken c.label after else narrowed c.label before after

unfoldable pub narrow_to : Ceiling → Attenuated → Attenuated
narrow_to c a =
    let after = narrow_globs a.paths c.paths in
    if same_set (minimal_globs after) (minimal_globs a.paths)
    then a
    else record a { paths = after; notes = a.notes ++ narrowing c a.paths after ∷ [] }

-- The forbidden paths of the ceiling that are new.
unfoldable pub added_by : Ceiling → List Text → List Text
added_by c forbidden = filter (λ p. not (is_empty p) && not (mem p forbidden)) c.forbidden_paths

-- The note about them, and one about the paths that lie wholly inside them.
unfoldable pub inheriting : Ceiling → List Text → List Text → List Note
inheriting c added paths =
    let lost = filter (λ p. any (λ f. pattern_within p f) added) paths in
    inherited c.label added ∷ (if is_empty lost then [] else cut c.label lost ∷ [])

unfoldable pub inherit : Ceiling → Attenuated → Attenuated
inherit c a =
    let added = added_by c a.forbidden in
    if is_empty added then a else record a {
      forbidden = a.forbidden ++ added;
      notes = a.notes ++ inheriting c added a.paths;
    }

unfoldable pub attenuate_from : Attenuated → List (Option Ceiling) → Attenuated
attenuate_from a [] = a
attenuate_from a (none ∷ rest) = attenuate_from a rest
attenuate_from a (some c ∷ rest) = attenuate_from (inherit c (narrow_to c a)) rest

unfoldable pub attenuate : Scope → List (Option Ceiling) → Scope × List Note
unfolding attenuate_from
attenuate scope ceilings =
    let a =
      attenuate_from (record { paths = scope.paths; forbidden = scope.forbidden_paths; notes = [] })
        ceilings in
    (record scope { paths = a.paths; forbidden_paths = a.forbidden }, a.notes)

is_inherited : Note → Bool
is_inherited (inherited label added) = true
is_inherited _ = false

-- The notes that record something taken from the scope.
unfoldable pub what_was_taken : List Note → List Note
unfolding is_inherited
what_was_taken notes = filter (λ n. not (is_inherited n)) notes
