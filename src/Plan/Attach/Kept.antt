-- ===== src/Plan/Attach/Kept.antt =====
-- core/requirements.py: the first and the last part of `attach_requirements` change who delivers and
-- who tests what, and the criteria; every other field of a task stays.
use supervisor_harness.Prelude.{
  ℕ, ◌≡◌, refl, ap, ◌∙◌, inl, inr, not, ◌||◌, Option, none, some, List, [], ◌∷◌, ◌++◌, map, filter,
  Bool-cases, Option-cases, is_empty,
}
use supervisor_harness.Text.{Text, mem}
use supervisor_harness.Store.Fold.Dict.{Dict}
use supervisor_harness.Plan.Graph.{Deps}
use supervisor_harness.Plan.Tasks.{
  AcceptanceTests, Criterion, Requirement, PlanTask, Plan, change, read_at, deps_of,
}
use supervisor_harness.Plan.Tasks.Change.{map-change}
use supervisor_harness.Plan.Parts.{
  id_at, all_of, requirements_at, not_yet_built, furthest_after_parts, testing, hand_on,
  deliver_one, deliver_each, deliver_from, deliver_last, remove, disowned, disown, disown_each,
  not_its_own,
}
use supervisor_harness.Plan.Testers.{
  nearest_tester, add_to_first, builders_of, with_tests, give_tests, assign_found, assign_one,
  assign_each, all_tested, assign_testers,
}
use supervisor_harness.Plan.Criteria.{one_suite, builder_criterion}
use supervisor_harness.Plan.Meet.{is_known}
use supervisor_harness.Plan.Attach.{
  known_only, reviewed, settle_plan, tester_titles, suite_one, suite_each, by_id, whole_ids,
}

module _ {ℓ} {A : Type ℓ} (field : PlanTask → A)
    (of_requirements : (r : List Text) (t : PlanTask)
      → field (record t { requirements = r }) ≡ field t)
    (of_acceptance : (a : List AcceptanceTests) (t : PlanTask)
      → field (record t { acceptance = a }) ≡ field t)
    (of_dod : (d : List Criterion) (t : PlanTask) → field (record t { dod = d }) ≡ field t) where
  abbrev Same : Plan → Plan → Type ℓ
  Same p q = map field p.tasks ≡ map field q.tasks

  module _ (casefold : Text → Text) (whole : List Text) (deps : Deps) where
    hand_on-Same : (i last : ℕ) (rid : Text) (p : Plan) → Same (hand_on i last rid p) p
    unfolding hand_on
    hand_on-Same i last rid p =
        map-change field (λ t. record t { requirements = t.requirements ++ rid ∷ [] })
          (λ t. of_requirements (t.requirements ++ rid ∷ []) t) last
          (change i (λ t. record t { requirements = remove rid t.requirements }) p.tasks)
        ∙ map-change field (λ t. record t { requirements = remove rid t.requirements })
            (λ t. of_requirements (remove rid t.requirements) t) i p.tasks

    deliver_one-Same :
        (i : ℕ) (rid : Text) (p : Plan) → Same (deliver_one casefold whole deps i rid p) p
    unfolding deliver_one
    deliver_one-Same i rid p = elim (Bool-cases (is_empty (not_yet_built i p.tasks whole deps))) [
      | inl e ↦ rw (deliver_one, e) refl
      | inr e ↦
          elim (Option-cases
            (furthest_after_parts casefold p.tasks whole (id_at p.tasks i ∷ testing p.tasks rid))) [
              | inl f ↦ rw (deliver_one, e, f) refl
              | inr (last, f) ↦ rw (deliver_one, e, f) (hand_on-Same i last rid p)
            ]
    ]

    deliver_each-Same :
        (i : ℕ) (rids : List Text) (p : Plan) → Same (deliver_each casefold whole deps i rids p) p
    unfolding deliver_each
    deliver_each-Same i [] p = refl
    deliver_each-Same i (rid ∷ rest) p =
        deliver_each-Same i rest (deliver_one casefold whole deps i rid p)
        ∙ deliver_one-Same i rid p

    deliver_from-Same :
        (places : List ℕ) (p : Plan) → Same (deliver_from casefold whole deps places p) p
    unfolding deliver_from
    deliver_from-Same [] p = refl
    deliver_from-Same (i ∷ rest) p =
        let ids = filter (λ r. mem r whole) (requirements_at p.tasks i) in
        deliver_from-Same rest (deliver_each casefold whole deps i ids p)
        ∙ deliver_each-Same i ids p

  disown-Same : (i : ℕ) (p : Plan) → Same (disown i p) p
  unfolding disown
  disown-Same i p = elim (Bool-cases (is_empty (disowned p.tasks i))) [
    | inl e ↦ rw (disown, e) refl
    | inr e ↦
        rw (disown, e)
          (map-change field
            (λ t. record t {
              requirements = filter (λ r. not (mem r (disowned p.tasks i))) t.requirements;
            })
            (λ t. of_requirements (filter (λ r. not (mem r (disowned p.tasks i))) t.requirements) t)
            i p.tasks)
  ]

  disown_each-Same : (places : List ℕ) (p : Plan) → Same (disown_each places p) p
  unfolding disown_each
  disown_each-Same [] p = refl
  disown_each-Same (i ∷ rest) p = disown_each-Same rest (disown i p) ∙ disown-Same i p

  assign_found-Same :
      (rid : Text) (builders : List ℕ) (found : Option (ℕ × ℕ)) (tested : List Text) (p : Plan)
      → Same (assign_found rid builders found tested p).1 p
  unfolding assign_found give_tests
  assign_found-Same rid [] found tested p = refl
  assign_found-Same rid (b ∷ builders) none tested p = refl
  assign_found-Same rid (b ∷ builders) (some (steps, tester)) tested p =
      map-change field (λ t. record t { acceptance = add_to_first rid t.acceptance })
        (λ t. of_acceptance (add_to_first rid t.acceptance) t) tester p.tasks

  assign_one-Same :
      (deps : Deps) (testers : List ℕ) (r : Requirement) (tested : List Text) (p : Plan)
      → Same (assign_one deps testers r tested p).1 p
  unfolding assign_one
  assign_one-Same deps testers r tested p =
      elim (Bool-cases
        (mem r.id tested || not (is_empty r.set_aside) || not (is_empty r.not_tested))) [
          | inl e ↦ rw (assign_one, e) refl
          | inr e ↦
              rw (assign_one, e)
                (assign_found-Same r.id (builders_of p.tasks r.id)
                  (nearest_tester deps p.tasks (builders_of p.tasks r.id) testers) tested p)
        ]

  assign_each-Same :
      (deps : Deps) (testers : List ℕ) (ledger : List Requirement) (tested : List Text) (p : Plan)
      → Same (assign_each deps testers ledger tested p) p
  unfolding assign_each
  assign_each-Same deps testers [] tested p = refl
  assign_each-Same deps testers (r ∷ ledger) tested p =
      assign_each-Same deps testers ledger (assign_one deps testers r tested p).0
        (assign_one deps testers r tested p).1
      ∙ assign_one-Same deps testers r tested p

  map-same :
      (f : PlanTask → PlanTask)
      → ((t : PlanTask) → field (f t) ≡ field t)
      → (tasks : List PlanTask) → map field (map f tasks) ≡ map field tasks
  map-same f h [] = refl
  map-same f h (t ∷ tasks) =
      ap (λ x. x ∷ map field (map f tasks)) (h t) ∙ ap (λ rest. field t ∷ rest) (map-same f h tasks)

  reviewed-same : (ledger : Dict Requirement) (t : PlanTask) → field (reviewed ledger t) ≡ field t
  unfolding reviewed
  reviewed-same ledger t = elim (Bool-cases (is_empty t.requirements)) [
    | inl e ↦ rw (reviewed, e) refl
    | inr e ↦ rw (reviewed, e) (of_dod (t.dod ++ builder_criterion ledger t.requirements ∷ []) t)
  ]

  pub settle_plan-map :
      (casefold : Text → Text) (accounted : List Requirement) (tasks : List PlanTask)
      → map field (settle_plan casefold accounted tasks).plan.tasks ≡ map field tasks
  unfolding settle_plan assign_testers deliver_last not_its_own
  settle_plan-map casefold accounted tasks =
      let ledger = by_id [] accounted in
      let deps = deps_of casefold tasks in
      let known : Plan = record { tasks = map (known_only ledger) tasks; notes = [] } in
      let own = not_its_own known in
      let delivered = deliver_last casefold (whole_ids accounted) own in
      let assigned = assign_testers accounted deps delivered in
      map-same (reviewed ledger) (reviewed-same ledger) assigned.tasks
      ∙ assign_each-Same deps (with_tests delivered.tasks) accounted (all_tested delivered.tasks)
          delivered
      ∙ deliver_from-Same casefold (whole_ids accounted) (deps_of casefold own.tasks)
          (all_of own.tasks) own
      ∙ disown_each-Same (all_of known.tasks) known
      ∙ map-same (known_only ledger)
          (λ t. unfold known_only in of_requirements (filter (is_known ledger) t.requirements) t)
          tasks

-- The last loop changes the criteria only.
module _ {ℓ} {A : Type ℓ} (field : PlanTask → A)
    (of_dod : (d : List Criterion) (t : PlanTask) → field (record t { dod = d }) ≡ field t) where
  suite_one-same :
      (repr : Text → Text) (i : ℕ) (p : Plan)
      → map field (suite_one repr i p).tasks ≡ map field p.tasks
  unfolding suite_one
  suite_one-same repr i p = elim (Bool-cases (is_empty (tester_titles p.tasks i))) [
    | inl e ↦ rw (suite_one, e) refl
    | inr e ↦
        elim (Option-cases
          (one_suite repr (tester_titles p.tasks i) (read_at PlanTask.dod [] i p.tasks))) [
            | inl f ↦ rw (suite_one, e, f) refl
            | inr (dod, f) ↦
                rw (suite_one, e, f)
                  (map-change field (λ t. record t { dod = dod }) (of_dod dod) i p.tasks)
          ]
  ]

  pub suite_each-map :
      (repr : Text → Text) (places : List ℕ) (p : Plan)
      → map field (suite_each repr places p).tasks ≡ map field p.tasks
  unfolding suite_each
  suite_each-map repr [] p = refl
  suite_each-map repr (i ∷ rest) p =
      suite_each-map repr rest (suite_one repr i p) ∙ suite_one-same repr i p
