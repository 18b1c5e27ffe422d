-- ===== src/Plan/Meet/Keeps.antt =====
-- core/requirements.py, the loop of `attach_requirements`: it changes neither who delivers and tests
-- what nor the paths of a scope, and lets go of nothing that is forbidden.
use mathlib.Core.List.{map-map}
use supervisor_harness.Prelude.{
  ℕ, ◌≡◌, refl, sym, ap, ◌∙◌, inl, inr, ◌||◌, some, List, [], ◌∷◌, map, Bool-cases, Option-cases,
  is_empty, ◌==◌, subst,
}
use supervisor_harness.Text.{Text, mem}
use supervisor_harness.Store.Fold.Dict.{Dict}
use supervisor_harness.Plan.Graph.{depends_on}
use supervisor_harness.Plan.Tasks.{AcceptanceTests, PlanTask, Plan, Requirement, read_at}
use supervisor_harness.Plan.Tasks.Change.{map-change, read_at-map}
use supervisor_harness.Plan.Parts.{id_at, all_of}
use supervisor_harness.Plan.Criteria.{tester_criteria, tests_root}
use supervisor_harness.Plan.Fences.{fence, blind, forbid, hide, paths_at}
use supervisor_harness.Plan.Fences.Kept.{fence_each-map, blind-map}
use supervisor_harness.Plan.Fences.Met.{Grows, fence_each-Grows}
use supervisor_harness.Plan.Meet.{
  Linked, depend, order, is_run, meet, meet_each, check_by, test_one, test_each,
}
use supervisor_harness.Plan.Meet.Rounds.{some_inj, none≢some}
use supervisor_harness.Plan.Meet.Steps.{order_early, order_there, order_added}
use supervisor_harness.Plan.Meet.Rounds.{some_inj, none≢some}
use supervisor_harness.Plan.Meet.Steps.{
  both, meet_skip, meet_seen, meet_unseen, to_meet, checked, test_skip, test_stop, test_go,
}

abbrev pub frame : PlanTask → List Text × List Text × List AcceptanceTests
frame t = (t.scope.paths, t.requirements, t.acceptance)

abbrev pub fenced_frame : PlanTask → (List Text × List Text × List AcceptanceTests) × List Text
fenced_frame t = (frame t, t.scope.forbidden_paths)

pub record Keeps (before after : List PlanTask) : Type 0 where
  pub frames : map frame after ≡ map frame before
  pub grows : Grows before after

pub Keeps-refl : (tasks : List PlanTask) → Keeps tasks tasks
Keeps-refl tasks = record { frames = refl; grows = λ i q h. h }

pub Keeps-trans : (a b c : List PlanTask) → Keeps a b → Keeps b c → Keeps a c
Keeps-trans a b c h k = record {
  frames = k.frames ∙ h.frames;
  grows = λ i q m. k.grows i q (h.grows i q m);
}

-- A step that changes no part of the frame.
pub Keeps-map :
    (before after : List PlanTask)
    → map fenced_frame after ≡ map fenced_frame before
    → Keeps before after
Keeps-map before after e = record {
  frames =
      sym (map-map (λ z. z.0) fenced_frame after)
      ∙ ap (map (λ z. z.0)) e
      ∙ map-map (λ z. z.0) fenced_frame before;
  grows = λ i q h.
      ap (λ z. mem q z)
        (read_at-map (λ t. t.scope.forbidden_paths) [] i after before
          (sym (map-map (λ z. z.1) fenced_frame after)
            ∙ ap (map (λ z. z.1)) e
            ∙ map-map (λ z. z.1) fenced_frame before))
      ∙ h;
}

pub Keeps-fence : (b t : ℕ) (p : Plan) → Keeps p.tasks (fence b t p).tasks
unfolding fence
Keeps-fence b t p = record {
  frames = fence_each-map frame (λ pattern x. unfold forbid in refl) b t (paths_at p.tasks t) p;
  grows = fence_each-Grows b t (paths_at p.tasks t) p;
}

pub Keeps-blind : (b t : ℕ) (p : Plan) → Keeps p.tasks (blind b t p).tasks
Keeps-blind b t p =
    Keeps-map p.tasks (blind b t p).tasks
      (blind-map fenced_frame (λ paths x. unfold hide in refl) b t p)

pub Keeps-order : (b t : ℕ) (l : Linked) → Keeps l.plan.tasks (order b t l).plan.tasks
Keeps-order b t l =
    Keeps-map l.plan.tasks (order b t l).plan.tasks
      (elim (Bool-cases (depends_on l.deps (id_at l.plan.tasks b) (id_at l.plan.tasks t))) [
        | inl e ↦ ap (λ z. map fenced_frame (Plan.tasks (Linked.plan z))) (order_early b t l e)
        | inr e ↦
            elim (Bool-cases
              (mem (id_at l.plan.tasks b) (read_at PlanTask.depends_on [] t l.plan.tasks))) [
                | inl d ↦
                    ap (λ z. map fenced_frame (Plan.tasks (Linked.plan z))) (order_there b t l e d)
                | inr d ↦
                    ap (λ z. map fenced_frame (Plan.tasks (Linked.plan z))) (order_added b t l e d)
                    ∙ map-change fenced_frame (depend (id_at l.plan.tasks b))
                        (λ x. unfold depend in refl) t l.plan.tasks
              ]
      ])

module _ (ledger : Dict Requirement) where
  pub Keeps-meet :
      (wanted : List Text) (tester builder : ℕ) (l : Linked)
      → Keeps l.plan.tasks (meet ledger wanted tester builder l).plan.tasks
  Keeps-meet wanted tester builder l =
      let ordered = order builder tester l in
      let fenced = fence builder tester ordered.plan in
      let kept =
        Keeps-trans l.plan.tasks ordered.plan.tasks fenced.tasks (Keeps-order builder tester l)
          (Keeps-fence builder tester ordered.plan) in
      elim (Bool-cases (builder == tester || is_empty (both ledger wanted tester builder l))) [
        | inl e ↦
            subst (λ z. Keeps l.plan.tasks (Plan.tasks (Linked.plan z)))
              (sym (meet_skip ledger wanted tester builder l e)) (Keeps-refl l.plan.tasks)
        | inr e ↦ elim (Bool-cases (is_run ledger (both ledger wanted tester builder l))) [
          | inl r ↦
              subst (λ z. Keeps l.plan.tasks (Plan.tasks (Linked.plan z)))
                (sym (meet_unseen ledger wanted tester builder l e r))
                (Keeps-trans l.plan.tasks fenced.tasks (blind builder tester fenced).tasks kept
                  (Keeps-blind builder tester fenced))
          | inr r ↦
              subst (λ z. Keeps l.plan.tasks (Plan.tasks (Linked.plan z)))
                (sym (meet_seen ledger wanted tester builder l e r)) kept
        ]
      ]

  pub Keeps-meet_each :
      (wanted : List Text) (tester : ℕ) (builders : List ℕ) (l : Linked)
      → Keeps l.plan.tasks (meet_each ledger wanted tester builders l).plan.tasks
  unfolding meet_each
  Keeps-meet_each wanted tester [] l = Keeps-refl l.plan.tasks
  Keeps-meet_each wanted tester (b ∷ builders) l =
      let next = meet ledger wanted tester b l in
      Keeps-trans l.plan.tasks next.plan.tasks
        (meet_each ledger wanted tester builders next).plan.tasks (Keeps-meet wanted tester b l)
        (Keeps-meet_each wanted tester builders next)

  pub Keeps-checked :
      (tester : ℕ) (l : Linked) (root : Text)
      → Keeps l.plan.tasks (checked ledger tester l root).plan.tasks
  Keeps-checked tester l root = Keeps-map l.plan.tasks (checked ledger tester l root).plan.tasks (
      map-change fenced_frame (check_by (tester_criteria ledger (to_meet ledger tester l) root))
        (λ x. unfold check_by in refl) tester l.plan.tasks)

  pub Keeps-test_one :
      (tester : ℕ) (l after : Linked)
      → test_one ledger tester l ≡ some after
      → Keeps l.plan.tasks after.plan.tasks
  Keeps-test_one tester l after e = elim (Bool-cases (is_empty (to_meet ledger tester l))) [
    | inl w ↦
        subst (λ z. Keeps l.plan.tasks (Plan.tasks (Linked.plan z)))
          (some_inj (sym (test_skip ledger tester l w) ∙ e)) (Keeps-refl l.plan.tasks)
    | inr w ↦ elim (Option-cases (tests_root (paths_at l.plan.tasks tester))) [
      | inl r ↦ absurd (none≢some (sym (test_stop ledger tester l w r) ∙ e))
      | inr (root, r) ↦
          let start = checked ledger tester l root in
          subst (λ z. Keeps l.plan.tasks (Plan.tasks (Linked.plan z)))
            (some_inj (sym (test_go ledger tester l root w r) ∙ e))
            (Keeps-trans l.plan.tasks start.plan.tasks
              (meet_each ledger (to_meet ledger tester l) tester (all_of start.plan.tasks)
                start).plan.tasks
              (Keeps-checked tester l root)
              (Keeps-meet_each (to_meet ledger tester l) tester (all_of start.plan.tasks) start))
    ]
  ]

  pub Keeps-test_each :
      (testers : List ℕ) (l after : Linked)
      → test_each ledger testers l ≡ some after
      → Keeps l.plan.tasks after.plan.tasks
  unfolding test_each
  Keeps-test_each [] l after e =
      subst (λ z. Keeps l.plan.tasks (Plan.tasks (Linked.plan z))) (some_inj e)
        (Keeps-refl l.plan.tasks)
  Keeps-test_each (i ∷ testers) l after e = elim (Option-cases (test_one ledger i l)) [
    | inl stop ↦ absurd (none≢some (rw (test_each, stop) at e))
    | inr (next, found) ↦
        Keeps-trans l.plan.tasks next.plan.tasks after.plan.tasks (Keeps-test_one i l next found)
          (Keeps-test_each testers next after (rw (test_each, found) at e))
  ]
