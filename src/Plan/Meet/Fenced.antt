-- ===== src/Plan/Meet/Fenced.antt =====
-- core/requirements.py, the loop of `attach_requirements`: whose work a task tests may not change the
-- files of that task.
use mathlib.Core.Bool.{true≢false}
use supervisor_harness.Prelude.{
  ℕ, ◌<◌, ◌≡◌, sym, ap, ◌∙◌, inl, inr, true, false, ◌||◌, some, List, [], ◌∷◌, arith, All, length,
  Bool-cases, Option-cases, is_empty, ◌==◌, subst,
}
use supervisor_harness.Text.{Text, mem, mem-filter}
use supervisor_harness.Store.Fold.Dict.{Dict}
use supervisor_harness.Plan.Graph.Chains.{mem_nil}
use supervisor_harness.Plan.Tasks.{PlanTask, task_at, Plan, Requirement, tested_ids}
use supervisor_harness.Plan.Tasks.Change.{
  length-same, All-all_places, All-lt_eq, All-places_lt, read_at-none, lt-of_task_at,
}
use supervisor_harness.Plan.Parts.{requirements_at, all_of}
use supervisor_harness.Plan.Criteria.{tests_root}
use supervisor_harness.Plan.Fences.{fence, blind, paths_at}
use supervisor_harness.Plan.Fences.Met.{KeptOff, KeptOff-Grows, fence-KeptOff}
use supervisor_harness.Plan.Meet.{
  Linked, order, shared, is_run, meet, meet_each, test_one, test_each,
}
use supervisor_harness.Plan.Meet.Steps.{
  both, meet_seen, meet_unseen, to_meet, checked, test_stop, test_go,
}
use supervisor_harness.Plan.Meet.Rounds.{some_inj, none≢some}
use supervisor_harness.Plan.Meet.Keeps.{
  Keeps-meet, Keeps-meet_each, Keeps-checked, Keeps-test_one, Keeps-test_each, Keeps-order,
  Keeps-blind, frame,
}
use supervisor_harness.Plan.Meet.Owed.{
  paths_of-Keeps, full-of_mem, Owes, Owes-Keeps, Fenced, Fenced-Keeps, mem-to_test, apart,
}

module _ (ledger : Dict Requirement) where
  module _ (wanted : List Text) (i j : ℕ) (l : Linked) where
    meets :
        (rid : Text)
        → Owes ledger l.plan.tasks i j rid
        → mem rid wanted ≡ true
        → (j == i || is_empty (both ledger wanted i j l)) ≡ false
    unfolding shared
    meets rid o m =
        let found : mem rid (both ledger wanted i j l) ≡ true =
          mem-filter (λ r. mem r (requirements_at l.plan.tasks j)) rid wanted
          ∙ (ground (arith, o.delivered, m)) in
        let full : is_empty (both ledger wanted i j l) ≡ false =
          full-of_mem rid (both ledger wanted i j l) found in
        ground (arith, full, apart ledger l.plan.tasks i j rid o)

    order_fenced :
        (q : Text)
        → j < length l.plan.tasks
        → mem q (paths_at l.plan.tasks i) ≡ true
        → KeptOff j i q (fence j i (order j i l).plan).tasks
    order_fenced q lt m =
        let kept = Keeps-order j i l in
        fence-KeptOff j i q (order j i l).plan
          (omega (arith, length-same frame (order j i l).plan.tasks l.plan.tasks kept.frames))
          (ap (mem q) (paths_of-Keeps l.plan.tasks (order j i l).plan.tasks i kept) ∙ m)

    meet-Fenced :
        ((rid : Text) → Owes ledger l.plan.tasks i j rid → mem rid wanted ≡ true)
        → j < length l.plan.tasks
        → Fenced ledger (meet ledger wanted i j l).plan.tasks i j
    meet-Fenced all_wanted lt rid q o m =
        let kept = Keeps-meet ledger wanted i j l in
        let before =
          Owes-Keeps ledger l.plan.tasks (meet ledger wanted i j l).plan.tasks i j rid kept o in
        let e = meets rid before (all_wanted rid before) in
        let fenced = order_fenced q lt (
          ap (mem q)
            (sym (paths_of-Keeps l.plan.tasks (meet ledger wanted i j l).plan.tasks i kept))
          ∙ m) in
        let after = fence j i (order j i l).plan in
        elim (Bool-cases (is_run ledger (both ledger wanted i j l))) [
          | inl r ↦
              subst (λ z. KeptOff j i q (Plan.tasks (Linked.plan z)))
                (sym (meet_unseen ledger wanted i j l e r))
                (let hidden = Keeps-blind j i after in
                  KeptOff-Grows j i q after.tasks (blind j i after).tasks hidden.grows
                    (paths_of-Keeps after.tasks (blind j i after).tasks j hidden) fenced)
          | inr r ↦
              subst (λ z. KeptOff j i q (Plan.tasks (Linked.plan z)))
                (sym (meet_seen ledger wanted i j l e r)) fenced
        ]

  meet_each-Fenced :
      (wanted : List Text) (i : ℕ) (builders : List ℕ) (l : Linked)
      → ((j : ℕ) (rid : Text) → Owes ledger l.plan.tasks i j rid → mem rid wanted ≡ true)
      → All (λ j. j < length l.plan.tasks) builders
      → All (λ j. Fenced ledger (meet_each ledger wanted i builders l).plan.tasks i j) builders
  unfolding meet_each
  meet_each-Fenced wanted i [] l w h = tt
  meet_each-Fenced wanted i (j ∷ builders) l w (lt, h) =
      let next = meet ledger wanted i j l in
      let kept = Keeps-meet ledger wanted i j l in
      let longer = length-same frame next.plan.tasks l.plan.tasks kept.frames in
      (
        Fenced-Keeps ledger next.plan.tasks (meet_each ledger wanted i builders next).plan.tasks i j
            (Keeps-meet_each ledger wanted i builders next) (meet-Fenced wanted i j l (w j) lt),
        meet_each-Fenced wanted i builders next
            (λ k rid o. w k rid (Owes-Keeps ledger l.plan.tasks next.plan.tasks i k rid kept o))
            (All-lt_eq builders longer h),
      )

  pub lt-of_Owes :
      (tasks : List PlanTask) (i j : ℕ) (rid : Text) → Owes ledger tasks i j rid → j < length tasks
  lt-of_Owes tasks i j rid o = elim (Option-cases (task_at j tasks)) [
    | inl out ↦ absurd (
        true≢false (
          sym o.delivered
          ∙ ap (mem rid) (read_at-none PlanTask.requirements [] j tasks out)
          ∙ mem_nil rid))
    | inr (t, found) ↦ lt-of_task_at j tasks t found
  ]

  pub tester_lt :
      (tasks : List PlanTask) (i j : ℕ) (rid : Text) → Owes ledger tasks i j rid → i < length tasks
  tester_lt tasks i j rid o = elim (Option-cases (task_at i tasks)) [
    | inl out ↦ absurd (
        true≢false
          (sym o.tested ∙ ap (mem rid) (read_at-none tested_ids [] i tasks out) ∙ mem_nil rid))
    | inr (t, found) ↦ lt-of_task_at i tasks t found
  ]

  -- After the round of the tester, its files are kept from everyone whose work it tests.
  test_one-Fenced :
      (i j : ℕ) (l after : Linked)
      → test_one ledger i l ≡ some after
      → Fenced ledger after.plan.tasks i j
  test_one-Fenced i j l after e rid q o m =
      let kept = Keeps-test_one ledger i l after e in
      let before = Owes-Keeps ledger l.plan.tasks after.plan.tasks i j rid kept o in
      let full =
        full-of_mem rid (to_meet ledger i l) (mem-to_test ledger l.plan.tasks i j rid before) in
      elim (Option-cases (tests_root (paths_at l.plan.tasks i))) [
        | inl r ↦ absurd (none≢some (sym (test_stop ledger i l full r) ∙ e))
        | inr (root, r) ↦
            let start = checked ledger i l root in
            let entered = Keeps-checked ledger i l root in
            let rounds =
              meet_each-Fenced (to_meet ledger i l) i (all_of start.plan.tasks) start
                (λ k rid o.
                  mem-to_test ledger l.plan.tasks i k rid
                    (Owes-Keeps ledger l.plan.tasks start.plan.tasks i k rid entered o))
                (All-places_lt start.plan.tasks) in
            let lt : j < length start.plan.tasks = omega (
              arith,
              lt-of_Owes l.plan.tasks i j rid before,
              length-same frame start.plan.tasks l.plan.tasks entered.frames,
            ) in
            let same = some_inj (sym (test_go ledger i l root full r) ∙ e) in
            subst (λ z. Fenced ledger (Plan.tasks (Linked.plan z)) i j) same
              (All-all_places
                (λ k.
                  Fenced ledger
                    (meet_each ledger (to_meet ledger i l) i (all_of start.plan.tasks)
                      start).plan.tasks
                    i k)
                start.plan.tasks j lt rounds)
              rid q o m
      ]

  pub test_each-Fenced :
      (testers : List ℕ) (l after : Linked) (j : ℕ)
      → test_each ledger testers l ≡ some after
      → All (λ i. Fenced ledger after.plan.tasks i j) testers
  unfolding test_each
  test_each-Fenced [] l after j e = tt
  test_each-Fenced (i ∷ testers) l after j e = elim (Option-cases (test_one ledger i l)) [
    | inl stop ↦ absurd (none≢some (rw (test_each, stop) at e))
    | inr (next, found) ↦
        let rest = rw (test_each, found) at e in
        (
          Fenced-Keeps ledger next.plan.tasks after.plan.tasks i j
              (Keeps-test_each ledger testers next after rest) (test_one-Fenced i j l next found),
          test_each-Fenced testers next after j rest,
        )
  ]
