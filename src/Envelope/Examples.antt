-- ===== src/Envelope/Examples.antt =====
-- The envelope rules of core/envelope.py on a concrete run.
use supervisor_harness.Prelude.{
  ◌≡◌, refl, false, not, ◌&&◌, ◌||◌, Option, none, some, List, [], ◌∷◌, is_empty, any, inl,
}
use supervisor_harness.Text.{Text, codes, mem, strip}
use supervisor_harness.Paths.{normalise_pattern, path_matches, matches_any}
use supervisor_harness.Paths.Sets.{minimal_globs, narrow_globs, globs_within}
use supervisor_harness.Paths.Clean.{IsProper}
use supervisor_harness.Envelope.{
  Scope, ScopeEnvelope, Ceiling, inherited, narrowed, attenuate, narrow_to, inherit, added_by,
  inheriting, narrowing, same_set, establish, widen_within, widen_each, add_new, widen_one,
  is_refused, what_was_taken, base_of,
}
use supervisor_harness.Envelope.Forbidden.{forbids, attenuate-forbidden, establish-forbidden}
use supervisor_harness.Envelope.Notes.{attenuate-what_was_taken, attenuate_unnoted}
use supervisor_harness.Envelope.Fence.{attenuate_full}
use supervisor_harness.Envelope.Grant.{permits, widen_within-granted}

abbrev source : Text
source = codes "src/**"

abbrev auth : Text
auth = codes "src/auth/*"

abbrev secrets : Text
secrets = codes "src/secrets/*"

abbrev task : Scope
task = record {
  paths = auth ∷ codes "docs/*" ∷ [];
  forbidden_paths = codes "README.md" ∷ [];
  topics = [];
  out_of_scope = [];
  unread_paths = [];
}

abbrev run : ScopeEnvelope
run = record {
  paths = source ∷ [];
  forbidden_paths = secrets ∷ [];
  source = codes "configuration";
  granted_at = codes "2026-01-01T00:00:00.000Z";
}

abbrev above : List (Option Ceiling)
above =
    none
    ∷ some (record {
      label = codes "run envelope";
      paths = source ∷ [];
      forbidden_paths = secrets ∷ [];
    })
    ∷ []

attenuate_test : attenuate task above ≡ (
  record task { paths = auth ∷ []; forbidden_paths = codes "README.md" ∷ secrets ∷ [] },
  narrowed (codes "run envelope") (auth ∷ codes "docs/*" ∷ []) (auth ∷ [])
      ∷ inherited (codes "run envelope") (secrets ∷ [])
      ∷ [],
)
unfolding attenuate narrow_to narrowing inherit added_by inheriting same_set narrow_globs
    minimal_globs mem
attenuate_test = refl

attenuate-forbidden_example :
    mem secrets (attenuate task above).0.forbidden_paths
    ≡ (mem secrets task.forbidden_paths || any (forbids secrets) above)
attenuate-forbidden_example = attenuate-forbidden secrets task above refl

establish-forbidden_example :
    mem secrets
      (establish [] (some run) (source ∷ []) (codes "README.md" ∷ []) []).0.forbidden_paths
    ≡ (mem secrets (base_of [] (some run)).forbidden_paths || mem secrets (codes "README.md" ∷ []))
unfolding strip
establish-forbidden_example =
    establish-forbidden secrets [] (some run) (source ∷ []) (codes "README.md" ∷ []) [] refl

-- A task that asks for no more than the run's envelope leaves it.
abbrev quiet : Scope
quiet = record task { paths = auth ∷ [] }

attenuate-what_was_taken_example : (attenuate quiet above).0.paths ≡ quiet.paths
unfolding attenuate narrow_to narrowing inherit added_by inheriting same_set narrow_globs
    minimal_globs mem what_was_taken
attenuate-what_was_taken_example = attenuate-what_was_taken quiet above refl

abbrev fenced : Scope
fenced = record quiet { forbidden_paths = secrets ∷ [] }

attenuate_unnoted_example : (attenuate fenced above).0 ≡ fenced
unfolding attenuate narrow_to narrowing inherit added_by inheriting same_set narrow_globs
    minimal_globs mem
attenuate_unnoted_example = attenuate_unnoted fenced above refl

proper : (p : Text) → normalise_pattern p ≡ p → is_empty p ≡ false → IsProper p
proper p h k = record { normal = h; full = k }

attenuate_full_example : is_empty (attenuate task above).0.paths ≡ false
unfolding normalise_pattern
attenuate_full_example =
    attenuate_full task above (proper auth refl refl, (proper (codes "docs/*") refl refl, tt))
      ((proper source refl refl, tt), tt) (inl refl)

abbrev owner : Ceiling
owner = record {
  label = codes "your grant";
  paths = codes "src/**" ∷ codes "e2e/**" ∷ [];
  forbidden_paths = secrets ∷ [];
}

widen_test :
    (widen_within run owner (codes "e2e/a.ts" ∷ codes "docs/x.md" ∷ codes "e2e/a.ts" ∷ [])).1
    ≡ codes "e2e/a.ts" ∷ []
unfolding widen_within widen_each add_new strip mem widen_one is_refused matches_any path_matches
    globs_within
widen_test = refl

widen_within-granted_example :
    let (widened, granted, refused) = widen_within run owner (codes "e2e/a.ts" ∷ []) in
    (mem (codes "e2e/a.ts") granted
      ≡ (mem (codes "e2e/a.ts") (codes "e2e/a.ts" ∷ []) && permits run owner (codes "e2e/a.ts")))
    × (mem (codes "e2e/a.ts") refused ≡ (
        mem (codes "e2e/a.ts") (codes "e2e/a.ts" ∷ [])
        && not (permits run owner (codes "e2e/a.ts"))))
    × ((mem (codes "e2e/a.ts") run.paths || mem (codes "e2e/a.ts") widened.paths)
        ≡ mem (codes "e2e/a.ts") widened.paths)
    × ((mem (codes "e2e/a.ts") widened.paths
          || (mem (codes "e2e/a.ts") run.paths || mem (codes "e2e/a.ts") granted))
        ≡ (mem (codes "e2e/a.ts") run.paths || mem (codes "e2e/a.ts") granted))
    × (widened ≡ record run { paths = widened.paths })
unfolding strip
widen_within-granted_example =
    widen_within-granted run owner (codes "e2e/a.ts" ∷ []) (codes "e2e/a.ts") refl
