-- ===== src/Plan/Fences.antt =====
-- core/requirements.py, `_fence` and `_blind`: a tester's files are forbidden to the builder whose
-- work they test, and the builder's files are not shown to the tester.
pub mod Kept
pub mod Met
use supervisor_harness.Prelude.{
  ℕ, Bool, not, ◌&&◌, List, [], ◌∷◌, ◌++◌, any, filter, is_empty, if◌then◌else◌,
}
use supervisor_harness.Text.{Text, mem}
use supervisor_harness.Paths.Sets.{globs_within, globs_may_overlap}
use supervisor_harness.Plan.Tasks.{
  PlanTask, Plan, inside_tests, fenced_off, not_shown, change, read_at, add_note,
}
use supervisor_harness.Plan.Parts.{id_at, title_at}

abbrev pub paths_at : List PlanTask → ℕ → List Text
paths_at tasks i = read_at (λ t. t.scope.paths) [] i tasks

abbrev pub forbidden_at : List PlanTask → ℕ → List Text
forbidden_at tasks i = read_at (λ t. t.scope.forbidden_paths) [] i tasks

abbrev pub unread_at : List PlanTask → ℕ → List Text
unread_at tasks i = read_at (λ t. t.scope.unread_paths) [] i tasks

-- Some path of the scope lies inside the pattern.
unfoldable pub lies_inside : List Text → Text → Bool
unfolding globs_within
lies_inside paths pattern = any (λ own. globs_within (own ∷ []) (pattern ∷ [])) paths

unfoldable pub forbid : Text → PlanTask → PlanTask
forbid pattern t = record t {
  scope = record t.scope { forbidden_paths = t.scope.forbidden_paths ++ pattern ∷ [] };
}

-- One round of the loop of `_fence`, on the places of the builder and the tester.
unfoldable pub fence_one : ℕ → ℕ → Text → Plan → Plan
unfolding mem lies_inside forbid change add_note read_at
fence_one builder tester pattern p =
    if mem pattern (forbidden_at p.tasks builder)
    then p
    else if lies_inside (paths_at p.tasks builder) pattern
    then record p {
      notes =
          add_note (id_at p.tasks builder) (inside_tests pattern (title_at p.tasks tester)) p.notes;
    }
    else record p {
      tasks = change builder (forbid pattern) p.tasks;
      notes =
          add_note (id_at p.tasks builder) (fenced_off pattern (title_at p.tasks tester)) p.notes;
    }

unfoldable pub fence_each : ℕ → ℕ → List Text → Plan → Plan
unfolding fence_one
fence_each builder tester [] p = p
fence_each builder tester (pattern ∷ rest) p =
    fence_each builder tester rest (fence_one builder tester pattern p)

-- `_fence`
unfoldable pub fence : ℕ → ℕ → Plan → Plan
unfolding fence_each read_at
fence builder tester p = fence_each builder tester (paths_at p.tasks tester) p

-- The builder's paths that the tester's own files are not among.
unfoldable pub hidden_from : List PlanTask → ℕ → ℕ → List Text
unfolding mem globs_may_overlap read_at
hidden_from tasks builder tester =
    filter
      (λ path.
        not (mem path (unread_at tasks tester))
        && not (globs_may_overlap (path ∷ []) (paths_at tasks tester)))
      (paths_at tasks builder)

unfoldable pub hide : List Text → PlanTask → PlanTask
hide paths t = record t { scope = record t.scope { unread_paths = t.scope.unread_paths ++ paths } }

-- `_blind`
unfoldable pub blind : ℕ → ℕ → Plan → Plan
unfolding hidden_from hide change add_note read_at
blind builder tester p =
    let hidden = hidden_from p.tasks builder tester in
    if is_empty hidden then p else record p {
      tasks = change tester (hide hidden) p.tasks;
      notes = add_note (id_at p.tasks tester) (not_shown hidden (title_at p.tasks builder)) p.notes;
    }
