-- ===== src/Plan/Meet/Steps.antt =====
-- core/requirements.py, the loop of `attach_requirements`: what each of its steps is on each branch.
use supervisor_harness.Prelude.{
  ℕ, ◌≡◌, refl, true, false, ◌||◌, none, some, List, [], is_empty, ◌==◌,
}
use supervisor_harness.Text.{Text, mem}
use supervisor_harness.Store.Fold.Dict.{Dict}
use supervisor_harness.Plan.Graph.{depends_on}
use supervisor_harness.Plan.Tasks.{
  PlanTask, Requirement, may_be_early, comes_after, change, read_at, add_note,
}
use supervisor_harness.Plan.Parts.{id_at, title_at, requirements_at, all_of}
use supervisor_harness.Plan.Criteria.{tester_criteria, tests_root}
use supervisor_harness.Plan.Fences.{fence, blind, paths_at}
use supervisor_harness.Plan.Meet.{
  Linked, link, depend, order, shared, is_run, meet, meet_each, to_test, check_by, test_one,
}

module _ (builder tester : ℕ) (l : Linked) where
  abbrev pub b : Text
  b = id_at l.plan.tasks builder

  abbrev pub t : Text
  t = id_at l.plan.tasks tester

  pub order_early :
      depends_on l.deps b t ≡ true
      → order builder tester l ≡ record l {
        plan = record l.plan {
          notes = add_note t (may_be_early (title_at l.plan.tasks builder)) l.plan.notes;
        };
      }
  unfolding order
  order_early e = rw (order, e) refl

  pub order_there :
      depends_on l.deps b t ≡ false
      → mem b (read_at PlanTask.depends_on [] tester l.plan.tasks) ≡ true
      → order builder tester l ≡ l
  unfolding order
  order_there e m = rw (order, e, m) refl

  abbrev pub ordered : Linked
  ordered = record {
    plan = record {
      tasks = change tester (depend b) l.plan.tasks;
      notes = add_note t (comes_after (title_at l.plan.tasks builder)) l.plan.notes;
    };
    deps = link l.deps t b;
  }

  pub order_added :
      depends_on l.deps b t ≡ false
      → mem b (read_at PlanTask.depends_on [] tester l.plan.tasks) ≡ false
      → order builder tester l ≡ ordered
  unfolding order
  order_added e m = rw (order, e, m) refl

module _ (ledger : Dict Requirement) (wanted : List Text) (tester builder : ℕ) (l : Linked) where
  abbrev pub both : List Text
  both = shared wanted (requirements_at l.plan.tasks builder)

  pub meet_skip :
      (builder == tester || is_empty both) ≡ true → meet ledger wanted tester builder l ≡ l
  unfolding meet
  meet_skip e = rw (meet, e) refl

  pub meet_seen :
      (builder == tester || is_empty both) ≡ false
      → is_run ledger both ≡ false
      → meet ledger wanted tester builder l ≡ record (order builder tester l) {
        plan = fence builder tester (order builder tester l).plan;
      }
  unfolding meet
  meet_seen e r = rw (meet, e, r) refl

  pub meet_unseen :
      (builder == tester || is_empty both) ≡ false
      → is_run ledger both ≡ true
      → meet ledger wanted tester builder l ≡ record (order builder tester l) {
        plan = blind builder tester (fence builder tester (order builder tester l).plan);
      }
  unfolding meet
  meet_unseen e r = rw (meet, e, r) refl

module _ (ledger : Dict Requirement) (tester : ℕ) (l : Linked) where
  abbrev pub to_meet : List Text
  to_meet = to_test ledger l.plan.tasks tester

  -- The plan with the criteria of the tester's marks and their review.
  abbrev pub checked : Text → Linked
  checked root = record l {
    plan = record l.plan {
      tasks = change tester (check_by (tester_criteria ledger to_meet root)) l.plan.tasks;
    };
  }

  pub test_skip : is_empty to_meet ≡ true → test_one ledger tester l ≡ some l
  unfolding test_one
  test_skip e = rw (test_one, e) refl

  pub test_stop :
      is_empty to_meet ≡ false
      → tests_root (paths_at l.plan.tasks tester) ≡ none
      → test_one ledger tester l ≡ none
  unfolding test_one
  test_stop e r = rw (test_one, e, r) refl

  pub test_go :
      (root : Text)
      → is_empty to_meet ≡ false
      → tests_root (paths_at l.plan.tasks tester) ≡ some root
      → test_one ledger tester l
        ≡ some (meet_each ledger to_meet tester (all_of (checked root).plan.tasks) (checked root))
  unfolding test_one
  test_go root e r = rw (test_one, e, r) refl
