-- ===== src/Plan/Attach/Acyclic.antt =====
-- core/requirements.py, `attach_requirements`: the plan that it leaves has a cycle of dependencies
-- only when the plan that it was given has one.
use supervisor_harness.Prelude.{
  ◌≡◌, refl, ap, inl, inr, some, List, [], ◌∷◌, map, Option-cases, subst,
}
use supervisor_harness.Text.{Text}
use supervisor_harness.Store.Fold.Dict.{Dict}
use supervisor_harness.Plan.Tasks.{PlanTask, Plan, Requirement, task_ids, by_title, deps_of}
use supervisor_harness.Plan.Tasks.Change.{Distinct}
use supervisor_harness.Plan.Parts.{all_of}
use supervisor_harness.Plan.Meet.{Linked, test_each}
use supervisor_harness.Plan.Meet.Cycles.{IsAcyclic}
use supervisor_harness.Plan.Meet.Sound.{Sound, Sound-links, links}
use supervisor_harness.Plan.Meet.Rounds.{Sound-test_each, some_inj, none≢some}
use supervisor_harness.Plan.Attach.{account, by_id, settle_plan, suite_each, attach_requirements}
use supervisor_harness.Plan.Attach.Kept.{settle_plan-map, suite_each-map}
use supervisor_harness.Plan.Attach.Dependencies.{
  Within-IsAcyclic, deps_from-Within, deps_from-Covers,
}

module _ (casefold : Text → Text) where
  -- The plan with the dependencies that it is given.
  abbrev given : List PlanTask → Linked
  given tasks = record {
    plan = record { tasks = tasks; notes = [] };
    deps = deps_of casefold tasks;
  }

  abbrev IsSound : List PlanTask → Linked → Type 0
  IsSound tasks l = Sound casefold (task_ids tasks) (by_title casefold [] tasks) l

  Sound_given :
      (tasks : List PlanTask)
      → Distinct (task_ids tasks)
      → IsAcyclic (deps_of casefold tasks)
      → IsSound tasks (given tasks)
  unfolding deps_of
  Sound_given tasks d free = record {
    same_ids = refl;
    same_titles = refl;
    acyclic = free;
    covered = deps_from-Covers casefold (task_ids tasks) (by_title casefold [] tasks) [] tasks d;
  }

  Sound-settle_plan :
      (accounted : List Requirement) (tasks : List PlanTask)
      → IsSound tasks (given tasks)
      → IsSound tasks (settle_plan casefold accounted tasks)
  unfolding settle_plan
  Sound-settle_plan accounted tasks h =
      Sound-links casefold (task_ids tasks) (by_title casefold [] tasks) (given tasks)
        (settle_plan casefold accounted tasks).plan
        (settle_plan-map links (λ r t. refl) (λ a t. refl) (λ d t. refl) casefold accounted tasks) h

  -- The tasks of a sound plan name no cycle.
  Sound-IsAcyclic :
      (tasks : List PlanTask) (l : Linked)
      → IsSound tasks l
      → IsAcyclic (deps_of casefold l.plan.tasks)
  unfolding deps_of
  Sound-IsAcyclic tasks l h =
      Within-IsAcyclic _ l.deps
        (rw (h.same_ids, h.same_titles)
          (deps_from-Within casefold (task_ids tasks) (by_title casefold [] tasks) l.deps []
            l.plan.tasks (λ u v m. cc m) h.covered))
        h.acyclic

-- What the loop over the testers starts from.
abbrev first :
    (Text → Text) → Dict Text → Dict Text → List PlanTask → Requirement → List Requirement → Linked
first casefold set_aside not_tested tasks r rest =
    settle_plan casefold (map (account set_aside not_tested) (r ∷ rest)) tasks

-- When `attach_requirements` returns, the plan's tasks wait on one another in no cycle, if they did
-- not before and no two of them have one id: the dependencies that it adds of testers on
-- builders close none, whichever of them the plan had, by id or by title.
pub attach_requirements-IsAcyclic :
    (casefold repr : Text → Text) (tasks : List PlanTask) (ledger accounted : List Requirement)
    (set_aside not_tested : Dict Text) (p : Plan)
    → Distinct (task_ids tasks)
    → IsAcyclic (deps_of casefold tasks)
    → attach_requirements casefold repr tasks ledger set_aside not_tested ≡ some (accounted, p)
    → IsAcyclic (deps_of casefold p.tasks)
unfolding attach_requirements
attach_requirements-IsAcyclic casefold repr tasks [] accounted set_aside not_tested p d free e =
    subst (λ z. IsAcyclic (deps_of casefold z)) (ap (λ z. Plan.tasks z.1) (some_inj e)) free
attach_requirements-IsAcyclic casefold repr tasks (r ∷ rest) accounted set_aside not_tested p d free
      e =
    elim (Option-cases (
      test_each (by_id [] (map (account set_aside not_tested) (r ∷ rest)))
        (all_of (first casefold set_aside not_tested tasks r rest).plan.tasks)
        (first casefold set_aside not_tested tasks r rest))) [
          | inl stop ↦ absurd (none≢some (rw (attach_requirements, stop) at e))
          | inr (l, found) ↦
              let q = suite_each repr (all_of l.plan.tasks) l.plan in
              let sound : IsSound casefold tasks l =
                Sound-test_each casefold (task_ids tasks) (by_title casefold [] tasks)
                  (by_id [] (map (account set_aside not_tested) (r ∷ rest)))
                  (all_of (first casefold set_aside not_tested tasks r rest).plan.tasks)
                  (first casefold set_aside not_tested tasks r rest) l d found
                  (Sound-settle_plan casefold (map (account set_aside not_tested) (r ∷ rest)) tasks
                    (Sound_given casefold tasks d free)) in
              let last : IsSound casefold tasks (record l { plan = q }) =
                Sound-links casefold (task_ids tasks) (by_title casefold [] tasks) l q
                  (suite_each-map links (λ d t. refl) repr (all_of l.plan.tasks) l.plan) sound in
              subst (λ z. IsAcyclic (deps_of casefold z))
                (ap (λ z. Plan.tasks z.1) (some_inj (rw (attach_requirements, found) at e)))
                (Sound-IsAcyclic casefold tasks (record l { plan = q }) last)
        ]
