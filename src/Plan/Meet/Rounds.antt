-- ===== src/Plan/Meet/Rounds.antt =====
-- core/requirements.py, the loop of `attach_requirements`: every round keeps the plan without a
-- cycle.
use mathlib.Core.Bool.{true≢false}
use supervisor_harness.Prelude.{
  ℕ, ◌<◌, ◌≡◌, refl, sym, ap, ◌∙◌, inl, inr, true, false, not, ◌&&◌, ◌||◌, Option, none, some, List,
  [], ◌∷◌, arith, length, Bool-cases, Option-cases, ◌==◌, subst, filter, is_empty,
}
use supervisor_harness.Text.{Text, mem}
use supervisor_harness.Store.Fold.Dict.{Dict}
use supervisor_harness.Plan.Tasks.{PlanTask, Requirement, task_at, tested_ids}
use supervisor_harness.Plan.Tasks.Change.{
  map-change, read_at-some, read_at-none, task_at_lt, lt-of_task_at, length-task_ids, mem-task_ids,
  Distinct, Distinct-task_at,
}
use supervisor_harness.Plan.Parts.{id_at, requirements_at, all_of}
use supervisor_harness.Plan.Criteria.{tester_criteria, tests_root}
use supervisor_harness.Plan.Fences.{paths_at}
use supervisor_harness.Plan.Meet.{
  Linked, order, shared, is_run, meet, meet_each, from_keys, is_known, to_test, check_by, test_one,
  test_each,
}
use supervisor_harness.Plan.Meet.Steps.{
  both, meet_skip, meet_seen, meet_unseen, to_meet, checked, test_skip, test_stop, test_go,
}
use supervisor_harness.Plan.Meet.Sound.{
  Sound, Sound-links, Sound-order, Sound-fence, Sound-blind, links,
}

pub some_inj {ℓ} : {A : Type ℓ} {x y : A} → some x ≡ some y → x ≡ y
some_inj h = cc h

pub none≢some {ℓ} : {A : Type ℓ} {x : A} → ◌≡◌ {A = Option A} none (some x) → ⊥
none≢some h = cc h

shared_nil : (xs : List Text) → shared xs [] ≡ []
unfolding shared mem
shared_nil [] = refl
shared_nil (x ∷ xs) = shared_nil xs

module _ (ledger : Dict Requirement) (wanted : List Text) (tester builder : ℕ) (l : Linked) where
  -- What meets is two tasks of the plan.
  pub met :
      is_empty (both ledger wanted tester builder l) ≡ false
      → (u : PlanTask) × (task_at builder l.plan.tasks ≡ some u)
  unfolding shared
  met e = elim (Option-cases (task_at builder l.plan.tasks)) [
    | inl out ↦ absurd (
        true≢false (
          sym (
            ap (λ z. is_empty (shared wanted z))
              (read_at-none PlanTask.requirements [] builder l.plan.tasks out)
            ∙ ap is_empty (shared_nil wanted))
          ∙ e))
    | inr found ↦ found
  ]

module _ (ledger : Dict Requirement) (tester : ℕ) (l : Linked) where
  -- A task with something to test is one of the plan.
  pub testing_task : is_empty (to_meet ledger tester l) ≡ false → tester < length l.plan.tasks
  unfolding to_test from_keys
  testing_task e = elim (Option-cases (task_at tester l.plan.tasks)) [
    | inl out ↦ absurd (
        true≢false (
          sym (
            ap
              (λ z. is_empty (
                from_keys [] (
                  filter
                    (λ r. is_known ledger r && not (mem r (requirements_at l.plan.tasks tester)))
                    z)))
              (read_at-none tested_ids [] tester l.plan.tasks out))
          ∙ e))
    | inr (t, found) ↦ lt-of_task_at tester l.plan.tasks t found
  ]

module _ (casefold : Text → Text) (ids : List Text) (titles : Dict Text)
    (ledger : Dict Requirement) where
  abbrev IsSound : Linked → Type 0
  IsSound l = Sound casefold ids titles l

  pub Sound-meet :
      (wanted : List Text) (tester builder : ℕ) (l : Linked)
      → Distinct ids
      → tester < length ids
      → IsSound l
      → IsSound (meet ledger wanted tester builder l)
  Sound-meet wanted tester builder l d lt h =
      elim (Bool-cases (builder == tester || is_empty (both ledger wanted tester builder l))) [
        | inl e ↦ subst IsSound (sym (meet_skip ledger wanted tester builder l e)) h
        | inr e ↦
            let (u, at_b) = met ledger wanted tester builder l (ground (arith, e)) in
            let (v, at_t) =
              task_at_lt tester l.plan.tasks
                (omega (arith, length-task_ids l.plan.tasks, ap length h.same_ids)) in
            let is_b : id_at l.plan.tasks builder ≡ u.id =
              read_at-some PlanTask.id [] builder l.plan.tasks u at_b in
            let is_t : id_at l.plan.tasks tester ≡ v.id =
              read_at-some PlanTask.id [] tester l.plan.tasks v at_t in
            let apart : ¬ (builder ≡ tester) = (λ same. absurd (ground (arith, same, e))) in
            let ordered : IsSound (order builder tester l) =
              Sound-order casefold ids titles builder tester l h
                (ap (λ z. mem z ids) is_b
                  ∙ subst (λ z. mem u.id z ≡ true) h.same_ids
                      (mem-task_ids builder l.plan.tasks u at_b))
                (λ same. apart (
                  Distinct-task_at builder tester l.plan.tasks u v
                    (subst Distinct (sym h.same_ids) d) at_b at_t (sym is_b ∙ same ∙ is_t))) in
            let fenced =
              Sound-fence casefold ids titles builder tester (order builder tester l) ordered in
            elim (Bool-cases (is_run ledger (both ledger wanted tester builder l))) [
              | inl r ↦
                  subst IsSound (sym (meet_unseen ledger wanted tester builder l e r))
                    (Sound-blind casefold ids titles builder tester _ fenced)
              | inr r ↦ subst IsSound (sym (meet_seen ledger wanted tester builder l e r)) fenced
            ]
      ]

  pub Sound-meet_each :
      (wanted : List Text) (tester : ℕ) (builders : List ℕ) (l : Linked)
      → Distinct ids
      → tester < length ids
      → IsSound l
      → IsSound (meet_each ledger wanted tester builders l)
  unfolding meet_each
  Sound-meet_each wanted tester [] l d lt h = h
  Sound-meet_each wanted tester (b ∷ builders) l d lt h =
      Sound-meet_each wanted tester builders (meet ledger wanted tester b l) d lt
        (Sound-meet wanted tester b l d lt h)

  pub Sound-test_one :
      (tester : ℕ) (l after : Linked)
      → Distinct ids
      → test_one ledger tester l ≡ some after
      → IsSound l
      → IsSound after
  unfolding test_one
  Sound-test_one tester l after d e h = elim (Bool-cases (is_empty (to_meet ledger tester l))) [
    | inl w ↦ subst IsSound (some_inj (sym (test_skip ledger tester l w) ∙ e)) h
    | inr w ↦ elim (Option-cases (tests_root (paths_at l.plan.tasks tester))) [
      | inl r ↦ absurd (none≢some (sym (test_stop ledger tester l w r) ∙ e))
      | inr (root, r) ↦ subst IsSound (some_inj (sym (test_go ledger tester l root w r) ∙ e)) (
          Sound-meet_each (to_meet ledger tester l) tester
            (all_of (checked ledger tester l root).plan.tasks) (checked ledger tester l root) d
            (omega (
              arith,
              testing_task ledger tester l w,
              length-task_ids l.plan.tasks,
              ap length h.same_ids,
            ))
            (Sound-links casefold ids titles l (checked ledger tester l root).plan
              (map-change links (check_by (tester_criteria ledger (to_meet ledger tester l) root))
                (λ x. unfold check_by in refl) tester l.plan.tasks)
              h))
    ]
  ]

  pub Sound-test_each :
      (testers : List ℕ) (l after : Linked)
      → Distinct ids
      → test_each ledger testers l ≡ some after
      → IsSound l
      → IsSound after
  unfolding test_each
  Sound-test_each [] l after d e h = subst IsSound (cc e) h
  Sound-test_each (i ∷ testers) l after d e h = elim (Option-cases (test_one ledger i l)) [
    | inl stop ↦ absurd (none≢some (rw (test_each, stop) at e))
    | inr (next, found) ↦
        Sound-test_each testers next after d (rw (test_each, found) at e)
          (Sound-test_one i l next d found h)
  ]
