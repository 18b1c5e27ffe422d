-- ===== src/Plan/Meet.antt =====
-- core/requirements.py, the loop of `attach_requirements` over the testers and the builders whose
-- work they test.
pub mod Cycles
pub mod Steps
pub mod Sound
pub mod Rounds
pub mod Keeps
pub mod Owed
pub mod Fenced
use mathlib.Core.Option
use supervisor_harness.Prelude.{
  ℕ, Bool, true, false, not, ◌&&◌, ◌||◌, Option, none, some, List, [], ◌∷◌, ◌++◌, filter, is_empty,
  ◌==◌, if◌then◌else◌,
}
use supervisor_harness.Text.{Text, codes, text_eq, mem}
use supervisor_harness.Store.Fold.Dict.{Dict, get, put}
use supervisor_harness.Plan.Graph.{Deps, successors, depends_on}
use supervisor_harness.Plan.Tasks.{
  PlanTask, Plan, Requirement, Criterion, may_be_early, comes_after, change, places, read_at,
  tested_ids, add_note,
}
use supervisor_harness.Plan.Parts.{id_at, title_at, requirements_at, tested_at, all_of}
use supervisor_harness.Plan.Criteria.{tester_criteria, tests_root}
use supervisor_harness.Plan.Fences.{paths_at, fence, blind}

-- The plan with the dependencies that are kept beside it.
pub record Linked : Type 0 where
  pub plan : Plan
  pub deps : Deps

-- `deps[task_id].add(other)`; every task of the plan is there.
unfoldable pub link : Deps → Text → Text → Deps
unfolding mem put
link deps task_id other =
    if mem other (successors deps task_id)
    then deps
    else put task_id (successors deps task_id ++ other ∷ []) deps

unfoldable pub depend : Text → PlanTask → PlanTask
depend other t = record t { depends_on = t.depends_on ++ other ∷ [] }

-- The tests come after the work they test: the tester comes to depend on the builder, unless the
-- builder depends on it.
unfoldable pub order : ℕ → ℕ → Linked → Linked
unfolding depends_on mem link depend change add_note read_at
order builder tester l =
    let tasks = l.plan.tasks in
    let b = id_at tasks builder in
    let t = id_at tasks tester in
    if depends_on l.deps b t
    then record l {
      plan = record l.plan {
        notes = add_note t (may_be_early (title_at tasks builder)) l.plan.notes;
      };
    }
    else if mem b (read_at PlanTask.depends_on [] tester tasks)
    then l
    else record l {
      plan = record l.plan {
        tasks = change tester (depend b) tasks;
        notes = add_note t (comes_after (title_at tasks builder)) l.plan.notes;
      };
      deps = link l.deps t b;
    }

-- `set(ids) & set(builder.requirements)`
unfoldable pub shared : List Text → List Text → List Text
unfolding mem
shared ids requirements = filter (λ r. mem r requirements) ids

-- Some requirement of them is checked by running the result.
unfoldable pub is_run : Dict Requirement → List Text → Bool
unfolding get text_eq
is_run ledger [] = false
is_run ledger (rid ∷ ids) =
    elim (get rid ledger) [ none ↦ false | some r ↦ text_eq r.checked_by (codes "running") ]
    || is_run ledger ids

-- One round of the loop over the builders.
unfoldable pub meet : Dict Requirement → List Text → ℕ → ℕ → Linked → Linked
unfolding shared order fence blind is_run read_at
meet ledger ids tester builder l =
    let both = shared ids (requirements_at l.plan.tasks builder) in
    if builder == tester || is_empty both
    then l
    else let ordered = order builder tester l in
      let fenced = fence builder tester ordered.plan in
      record ordered { plan = if is_run ledger both then blind builder tester fenced else fenced }

unfoldable pub meet_each : Dict Requirement → List Text → ℕ → List ℕ → Linked → Linked
unfolding meet
meet_each ledger ids tester [] l = l
meet_each ledger ids tester (b ∷ builders) l =
    meet_each ledger ids tester builders (meet ledger ids tester b l)

-- `dict.fromkeys`: the items in the order of their first occurrence.
unfoldable pub from_keys : List Text → List Text → List Text
unfolding mem
from_keys seen [] = seen
from_keys seen (x ∷ xs) = from_keys (if mem x seen then seen else seen ++ x ∷ []) xs

abbrev pub is_known : Dict Requirement → Text → Bool
is_known ledger rid = elim (get rid ledger) [ none ↦ false | some r ↦ true ]

-- The requirements of the ledger that a task tests and does not deliver.
unfoldable pub to_test : Dict Requirement → List PlanTask → ℕ → List Text
unfolding from_keys mem get read_at tested_ids
to_test ledger tasks tester = from_keys [] (
    filter (λ r. is_known ledger r && not (mem r (requirements_at tasks tester)))
      (tested_at tasks tester))

unfoldable pub check_by : List Criterion → PlanTask → PlanTask
check_by criteria t = record t { dod = t.dod ++ criteria }

-- One round of the loop over the testers; none where the root of its tests cannot be named.
unfoldable pub test_one : Dict Requirement → ℕ → Linked → Option Linked
unfolding to_test tests_root tester_criteria check_by meet_each change places read_at
test_one ledger tester l =
    let ids = to_test ledger l.plan.tasks tester in
    if is_empty ids
    then some l
    else Option.map
        (λ root.
          let checked = change tester (check_by (tester_criteria ledger ids root)) l.plan.tasks in
          meet_each ledger ids tester (all_of checked)
            (record l { plan = record l.plan { tasks = checked } }))
        (tests_root (paths_at l.plan.tasks tester))

unfoldable pub test_each : Dict Requirement → List ℕ → Linked → Option Linked
unfolding test_one
test_each ledger [] l = some l
test_each ledger (i ∷ testers) l = elim (test_one ledger i l) [
  | none ↦ none
  | some after ↦ test_each ledger testers after
]
