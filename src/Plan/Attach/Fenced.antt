-- ===== src/Plan/Attach/Fenced.antt =====
-- core/requirements.py, `attach_requirements`: no task may change the files of the task that tests
-- its work.
use mathlib.Core.Bool.{true≢false}
use supervisor_harness.Prelude.{
  ℕ, ◌<◌, ◌≡◌, refl, sym, inl, inr, true, ◌||◌, some, List, [], ◌∷◌, map, length, arith,
  Option-cases, subst,
}
use supervisor_harness.Text.{Text, mem}
use supervisor_harness.Store.Fold.Dict.{Dict, get}
use supervisor_harness.Plan.Tasks.{PlanTask, Plan, Requirement}
use supervisor_harness.Plan.Tasks.Change.{length-same, All-all_places}
use supervisor_harness.Plan.Parts.{all_of}
use supervisor_harness.Plan.Fences.{lies_inside, paths_at, forbidden_at}
use supervisor_harness.Plan.Fences.Met.{KeptOff}
use supervisor_harness.Plan.Meet.{is_known, test_each}
use supervisor_harness.Plan.Meet.Rounds.{some_inj, none≢some}
use supervisor_harness.Plan.Meet.Keeps.{frame, fenced_frame, Keeps, Keeps-map, Keeps-test_each}
use supervisor_harness.Plan.Meet.Owed.{Owes, Fenced, Fenced-Keeps}
use supervisor_harness.Plan.Meet.Fenced.{tester_lt, test_each-Fenced}
use supervisor_harness.Plan.Attach.{account, by_id, settle_plan, suite_each, attach_requirements}
use supervisor_harness.Plan.Attach.Kept.{suite_each-map}

known_none :
    (rid : Text) (accounted : List Requirement)
    → [] ≡ accounted
    → is_known (by_id [] accounted) rid ≡ true
    → ⊥
unfolding by_id get
known_none rid [] e h = true≢false (sym h)
known_none rid (r ∷ rest) e h = cc e

-- When `attach_requirements` returns, then for every requirement on the ledger that the task at one
-- place tests and does not deliver, and that the task at another delivers: each pattern of the
-- tester's scope is forbidden to the deliverer, unless some path of the deliverer's own scope
-- lies inside that pattern.
pub attach_requirements-forbidden :
    (casefold repr : Text → Text) (tasks : List PlanTask) (ledger accounted : List Requirement)
    (set_aside not_tested : Dict Text) (p : Plan) (tester builder : ℕ) (rid pattern : Text)
    → attach_requirements casefold repr tasks ledger set_aside not_tested ≡ some (accounted, p)
    → Owes (by_id [] accounted) p.tasks tester builder rid
    → mem pattern (paths_at p.tasks tester) ≡ true
    → (mem pattern (forbidden_at p.tasks builder) || lies_inside (paths_at p.tasks builder) pattern)
      ≡ true
unfolding attach_requirements
attach_requirements-forbidden casefold repr tasks [] accounted sa nt p i j rid q e o m =
    absurd (known_none rid accounted (cc e) o.on_ledger)
attach_requirements-forbidden casefold repr tasks (r ∷ rest) accounted sa nt p i j rid q e o m =
    let listed = map (account sa nt) (r ∷ rest) in
    let first = settle_plan casefold listed tasks in
    elim (Option-cases (test_each (by_id [] listed) (all_of first.plan.tasks) first)) [
      | inl stop ↦ absurd (none≢some (rw (attach_requirements, stop) at e))
      | inr (l, found) ↦
          let same : (listed, suite_each repr (all_of l.plan.tasks) l.plan) ≡ (accounted, p) =
            some_inj (rw (attach_requirements, found) at e) in
          let whole =
            test_each-Fenced (by_id [] listed) (all_of first.plan.tasks) first l j found in
          let last = suite_each repr (all_of l.plan.tasks) l.plan in
          let kept : Keeps l.plan.tasks last.tasks =
            Keeps-map l.plan.tasks last.tasks
              (suite_each-map fenced_frame (λ d t. refl) repr (all_of l.plan.tasks) l.plan) in
          let (o', m') =
            subst
              (λ (z : List Requirement × Plan).
                Owes (by_id [] z.0) (Plan.tasks z.1) i j rid
                × (mem q (paths_at (Plan.tasks z.1) i) ≡ true))
              (sym same) (o, m) in
          let lt : i < length first.plan.tasks = omega (
            arith,
            tester_lt (by_id [] listed) last.tasks i j rid o',
            length-same frame last.tasks l.plan.tasks kept.frames,
            length-same frame l.plan.tasks first.plan.tasks
                (Keeps-test_each (by_id [] listed) (all_of first.plan.tasks) first l found).frames,
          ) in
          subst (λ (z : List Requirement × Plan). KeptOff j i q (Plan.tasks z.1)) same
            (Fenced-Keeps (by_id [] listed) l.plan.tasks last.tasks i j kept
              (All-all_places (λ k. Fenced (by_id [] listed) l.plan.tasks k j) first.plan.tasks i lt
                whole)
              rid q o' m')
    ]
