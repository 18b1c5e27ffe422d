-- ===== src/Plan/Testers.antt =====
-- core/requirements.py, `_assign_testers`: the nearest tester after the builder of a requirement
-- that the plan left untested.
use supervisor_harness.Prelude.{
  ℕ, not, ◌||◌, Option, none, some, List, [], ◌∷◌, ◌++◌, filter, is_empty, ltb, if◌then◌else◌,
}
use supervisor_harness.Text.{Text, mem}
use supervisor_harness.Plan.Graph.{Deps, distance}
use supervisor_harness.Plan.Tasks.{
  AcceptanceTests, Requirement, PlanTask, Plan, tests_unclaimed, change, places, read_at,
  tested_ids, add_note,
}
use supervisor_harness.Plan.Parts.{id_at, title_at, requirements_at, all_of}

-- The smaller of two step counts, where there is one.
unfoldable pub fewer : Option ℕ → Option ℕ → Option ℕ
fewer none b = b
fewer (some a) none = some a
fewer (some a) (some b) = if ltb b a then some b else some a

-- The fewest steps from a candidate back to one of the builders.
unfoldable pub steps_back : Deps → List PlanTask → ℕ → List ℕ → Option ℕ
unfolding distance fewer read_at
steps_back deps tasks candidate [] = none
steps_back deps tasks candidate (b ∷ builders) =
    fewer (distance deps (id_at tasks candidate) (id_at tasks b))
      (steps_back deps tasks candidate builders)

-- The nearer of a candidate and the best of those after it; the earlier one on a tie.
unfoldable pub nearer : Option ℕ → ℕ → Option (ℕ × ℕ) → Option (ℕ × ℕ)
nearer none i best = best
nearer (some d) i none = some (d, i)
nearer (some d) i (some (e, j)) = if ltb e d then some (e, j) else some (d, i)

unfoldable pub nearest_tester : Deps → List PlanTask → List ℕ → List ℕ → Option (ℕ × ℕ)
unfolding steps_back nearer
nearest_tester deps tasks builders [] = none
nearest_tester deps tasks builders (i ∷ rest) =
    nearer (steps_back deps tasks i builders) i (nearest_tester deps tasks builders rest)

unfoldable pub add_to_first : Text → List AcceptanceTests → List AcceptanceTests
add_to_first rid [] = []
add_to_first rid (group ∷ rest) =
    record group { requirements = group.requirements ++ rid ∷ [] } ∷ rest

unfoldable pub builders_of : List PlanTask → Text → List ℕ
unfolding mem places read_at
builders_of tasks rid = filter (λ j. mem rid (requirements_at tasks j)) (all_of tasks)

unfoldable pub with_tests : List PlanTask → List ℕ
unfolding places read_at
with_tests tasks =
    filter (λ j. not (is_empty (read_at PlanTask.acceptance [] j tasks))) (all_of tasks)

-- The requirement given to a tester, and said.
unfoldable pub give_tests : Text → ℕ → ℕ → Plan → Plan
unfolding change add_to_first add_note read_at
give_tests rid builder tester p = record p {
  tasks = change tester (λ t. record t { acceptance = add_to_first rid t.acceptance }) p.tasks;
  notes = add_note (id_at p.tasks tester) (tests_unclaimed rid (title_at p.tasks builder)) p.notes;
}

-- What becomes of one requirement with its builders and the nearest tester; the requirements that
-- are tested then.
unfoldable pub assign_found : Text → List ℕ → Option (ℕ × ℕ) → List Text → Plan → List Text × Plan
unfolding give_tests
assign_found rid [] found tested p = (tested, p)
assign_found rid (b ∷ builders) none tested p = (tested, p)
assign_found rid (b ∷ builders) (some (steps, tester)) tested p =
    (rid ∷ tested, give_tests rid b tester p)

-- One round of the loop of `_assign_testers`.
unfoldable pub assign_one : Deps → List ℕ → Requirement → List Text → Plan → List Text × Plan
unfolding assign_found builders_of nearest_tester mem
assign_one deps testers r tested p =
    if mem r.id tested || not (is_empty r.set_aside) || not (is_empty r.not_tested)
    then (tested, p)
    else let builders = builders_of p.tasks r.id in
      assign_found r.id builders (nearest_tester deps p.tasks builders testers) tested p

unfoldable pub assign_each : Deps → List ℕ → List Requirement → List Text → Plan → Plan
unfolding assign_one
assign_each deps testers [] tested p = p
assign_each deps testers (r ∷ ledger) tested p =
    let after = assign_one deps testers r tested p in
    assign_each deps testers ledger after.0 after.1

-- `{rid for t in tasks for rid in _tested_ids(t)}`
unfoldable pub all_tested : List PlanTask → List Text
unfolding tested_ids
all_tested [] = []
all_tested (t ∷ tasks) = tested_ids t ++ all_tested tasks

-- `_assign_testers`
unfoldable pub assign_testers : List Requirement → Deps → Plan → Plan
unfolding assign_each with_tests all_tested
assign_testers ledger deps p = assign_each deps (with_tests p.tasks) ledger (all_tested p.tasks) p
