-- ===== src/Plan/Attach.antt =====
-- core/requirements.py, `attach_requirements`: the plan's account of the ledger, turned into
-- dependencies, fences and criteria.
pub mod Kept
pub mod Dependencies
pub mod Acyclic
pub mod Fenced
use supervisor_harness.Prelude.{
  ℕ, not, ◌&&◌, Option, none, some, List, [], ◌∷◌, ◌++◌, map, filter, is_empty, ◌==◌, if◌then◌else◌,
}
use supervisor_harness.Text.{Text}
use supervisor_harness.Store.Fold.Dict.{Dict, get, put}
use supervisor_harness.Plan.Tasks.{
  PlanTask, Plan, Requirement, suite_only, change, places, read_at, tested_ids, deps_of, add_note,
  or_blank,
}
use supervisor_harness.Plan.Parts.{
  id_at, title_at, requirements_at, tested_at, all_of, not_its_own, deliver_last,
}
use supervisor_harness.Plan.Testers.{assign_testers}
use supervisor_harness.Plan.Criteria.{builder_criterion, one_suite}
use supervisor_harness.Plan.Meet.{Linked, shared, is_known, test_each}

-- The reasons of the plan, recorded.
unfoldable pub account : Dict Text → Dict Text → Requirement → Requirement
unfolding get
account set_aside not_tested r = record r {
  set_aside = or_blank (get r.id set_aside);
  not_tested = or_blank (get r.id not_tested);
}

-- `{r.id: r for r in accounted}`, on those before
unfoldable pub by_id : Dict Requirement → List Requirement → Dict Requirement
unfolding put
by_id known [] = known
by_id known (r ∷ ledger) = by_id (put r.id r known) ledger

-- `{r.id for r in accounted if r.whole}`
unfoldable pub whole_ids : List Requirement → List Text
whole_ids [] = []
whole_ids (r ∷ ledger) = let rest = whole_ids ledger in if r.whole then r.id ∷ rest else rest

-- The requirements of a task that are on the ledger.
unfoldable pub known_only : Dict Requirement → PlanTask → PlanTask
unfolding get
known_only ledger t = record t { requirements = filter (is_known ledger) t.requirements }

-- A task that delivers requirements gains the review of their quotes.
unfoldable pub reviewed : Dict Requirement → PlanTask → PlanTask
unfolding builder_criterion
reviewed ledger t =
    if is_empty t.requirements
    then t
    else record t { dod = t.dod ++ builder_criterion ledger t.requirements ∷ [] }

-- The titles of the other tasks that test what a builder delivers.
unfoldable pub tester_titles : List PlanTask → ℕ → List Text
unfolding shared places read_at tested_ids
tester_titles tasks builder = map (title_at tasks) (
    filter
      (λ j.
        not (j == builder)
        && not (is_empty (shared (requirements_at tasks builder) (tested_at tasks j))))
      (all_of tasks))

module _ (casefold : Text → Text) where
  -- The first part: who delivers and who tests what, and the reviews of what is delivered.
  unfoldable pub settle_plan : List Requirement → List PlanTask → Linked
  unfolding deps_of by_id known_only not_its_own deliver_last assign_testers reviewed whole_ids
  settle_plan accounted tasks =
      let ledger = by_id [] accounted in
      let deps = deps_of casefold tasks in
      let known : Plan = record { tasks = map (known_only ledger) tasks; notes = [] } in
      let delivered = deliver_last casefold (whole_ids accounted) (not_its_own known) in
      let assigned = assign_testers accounted deps delivered in
      record {
        plan = record assigned { tasks = map (reviewed ledger) assigned.tasks };
        deps = deps;
      }

module _ (repr : Text → Text) where
  -- One round of the last loop.
  unfoldable pub suite_one : ℕ → Plan → Plan
  unfolding tester_titles one_suite change add_note read_at
  suite_one builder p =
      let testers = tester_titles p.tasks builder in
      if is_empty testers
      then p
      else elim (one_suite repr testers (read_at PlanTask.dod [] builder p.tasks)) [
        | none ↦ p
        | some dod ↦ record p {
          tasks = change builder (λ t. record t { dod = dod }) p.tasks;
          notes = add_note (id_at p.tasks builder) (suite_only testers) p.notes;
        }
      ]

  unfoldable pub suite_each : List ℕ → Plan → Plan
  unfolding suite_one
  suite_each [] p = p
  suite_each (i ∷ rest) p = suite_each rest (suite_one i p)

module _ (casefold repr : Text → Text) where
  -- `attach_requirements`: the ledger as accounted, and the plan; none where it raises.
  unfoldable pub attach_requirements :
      List PlanTask → List Requirement → Dict Text → Dict Text → Option (List Requirement × Plan)
  unfolding account settle_plan test_each suite_each places by_id
  attach_requirements tasks [] set_aside not_tested =
      some ([], record { tasks = tasks; notes = [] })
  attach_requirements tasks (r ∷ rest) set_aside not_tested =
      let accounted = map (account set_aside not_tested) (r ∷ rest) in
      let settled_first = settle_plan casefold accounted tasks in
      elim (test_each (by_id [] accounted) (all_of settled_first.plan.tasks) settled_first) [
        | none ↦ none
        | some l ↦ some (accounted, suite_each repr (all_of l.plan.tasks) l.plan)
      ]
