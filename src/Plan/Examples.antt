-- ===== src/Plan/Examples.antt =====
-- Tests and examples of core/requirements.py: a plan of a builder, whose work a tester tests.
use mathlib.Core.Bool.{true≢false}
use supervisor_harness.Prelude.{
  sym, ◌∙◌, ◌≡◌, refl, ◌↔◌, Bool, true, false, ◌||◌, Option, none, some, List, [], ◌∷◌, arith,
}
use supervisor_harness.Text.{Text, codes, mem}
use supervisor_harness.Envelope.{Scope}
use supervisor_harness.Store.Fold.Dict.{get}
use supervisor_harness.Plan.Graph.{Deps, search, rounds, depends_on, distance, gather, successors}
use supervisor_harness.Plan.Graph.Walk.{direct, through, Waits}
use supervisor_harness.Plan.Graph.Search.{search-rounds}
use supervisor_harness.Plan.Graph.Chains.{depends_on-Waits}
use supervisor_harness.Plan.Graph.Nearest.{Shortest, distance-Shortest}
use supervisor_harness.Plan.Tasks.Change.{Distinct}
use supervisor_harness.Plan.Fences.{lies_inside, paths_at, forbidden_at}
use supervisor_harness.Plan.Meet.Cycles.{IsAcyclic}
use supervisor_harness.Plan.Meet.Owed.{Owes}
use supervisor_harness.Plan.Attach.Acyclic.{attach_requirements-IsAcyclic}
use supervisor_harness.Plan.Attach.Fenced.{attach_requirements-forbidden}
use supervisor_harness.Plan.Tasks.{Requirement, PlanTask, Plan, task_ids, deps_of}
use supervisor_harness.Plan.Attach.{attach_requirements, by_id}

-- Three tasks in a ring, and one that waits on the first.
abbrev ring : Deps
ring =
    (codes "a", codes "b" ∷ [])
    ∷ (codes "b", codes "c" ∷ [])
    ∷ (codes "c", codes "a" ∷ [])
    ∷ (codes "d", codes "a" ∷ [])
    ∷ []

ring_waits : depends_on ring (codes "d") (codes "c") ≡ true
unfolding depends_on get mem
ring_waits = refl

ring_apart : depends_on ring (codes "a") (codes "d") ≡ false
unfolding depends_on get mem
ring_apart = refl

ring-distance : distance ring (codes "d") (codes "c") ≡ some 3
unfolding distance get mem gather
ring-distance = refl

search-rounds_example :
    (b : Bool) × (search (rounds ring [] (codes "a" ∷ [])) ring (codes "d") [] (codes "a" ∷ [])
      ≡ some b)
search-rounds_example = search-rounds ring (codes "d") (codes "a" ∷ [])

depends_on-Waits_example :
    (depends_on ring (codes "d") (codes "c") ≡ true) ↔ Waits ring (codes "d") (codes "c")
depends_on-Waits_example = depends_on-Waits ring (codes "d") (codes "c")

distance-Shortest_example :
    Shortest ring (codes "d") (codes "c") (distance ring (codes "d") (codes "c"))
distance-Shortest_example = distance-Shortest ring (codes "d") (codes "c")

abbrev scope_of : Text → Scope
scope_of path = record {
  paths = path ∷ [];
  forbidden_paths = [];
  topics = [];
  out_of_scope = [];
  unread_paths = [];
}

abbrev builder : PlanTask
builder = record {
  id = codes "t1";
  title = codes "Build";
  dod = [];
  scope = scope_of (codes "src/**");
  depends_on = [];
  requirements = codes "R1" ∷ [];
  acceptance = [];
}

abbrev tester : PlanTask
tester = record {
  id = codes "t2";
  title = codes "Test";
  dod = [];
  scope = scope_of (codes "tests/**");
  depends_on = [];
  requirements = [];
  acceptance = record { requirements = codes "R1" ∷ []; command = codes "pytest" } ∷ [];
}

abbrev plan : List PlanTask
plan = builder ∷ tester ∷ []

abbrev ledger : List Requirement
ledger =
    record {
      id = codes "R1";
      quote = codes "it runs";
      source = codes "request";
      lines = [];
      found_by = codes "reader";
      whole = false;
      checked_by = codes "running";
      set_aside = [];
      not_tested = [];
    }
    ∷ []

abbrev same_text : Text → Text
same_text t = t

abbrev outcome : Option (List Requirement × Plan)
outcome = attach_requirements same_text same_text plan ledger [] []

abbrev value : Option (List Requirement × Plan) → List Requirement × Plan
value none = ([], record { tasks = []; notes = [] })
value (some result) = result

abbrev is_some : Option (List Requirement × Plan) → Bool
is_some none = false
is_some (some result) = true

some-value : (o : Option (List Requirement × Plan)) → is_some o ≡ true → o ≡ some (value o)
some-value none h = cc h
some-value (some result) h = refl

abbrev accounted : List Requirement
accounted = (value outcome).0

abbrev attached : Plan
attached = (value outcome).1

returns : is_some outcome ≡ true
unfolding attach_requirements mem
returns = refl

returned : attach_requirements same_text same_text plan ledger [] [] ≡ some (accounted, attached)
returned = some-value outcome returns

-- No task of the plan waits on another.
no_dependencies : (u v : Text) → mem v (successors (deps_of same_text plan) u) ≡ false
unfolding deps_of get mem
no_dependencies u v = ground arith

plan-IsAcyclic : IsAcyclic (deps_of same_text plan)
plan-IsAcyclic t (n, direct {o} e) = true≢false (sym e ∙ no_dependencies t o)
plan-IsAcyclic t (n, through {u} e w) = true≢false (sym e ∙ no_dependencies t u)

plan-Distinct : Distinct (task_ids plan)
unfolding task_ids mem
plan-Distinct = (refl, (refl, tt))

attach_requirements-IsAcyclic_example : IsAcyclic (deps_of same_text attached.tasks)
attach_requirements-IsAcyclic_example =
    attach_requirements-IsAcyclic same_text same_text plan ledger accounted [] [] attached
      plan-Distinct plan-IsAcyclic returned

owed : Owes (by_id [] accounted) attached.tasks 1 0 (codes "R1")
unfolding by_id get mem attach_requirements
owed = record { on_ledger = refl; tested = refl; not_own = refl; delivered = refl }

attach_requirements-forbidden_example :
    (mem (codes "tests/**") (forbidden_at attached.tasks 0)
      || lies_inside (paths_at attached.tasks 0) (codes "tests/**"))
    ≡ true
unfolding mem attach_requirements
attach_requirements-forbidden_example =
    attach_requirements-forbidden same_text same_text plan ledger accounted [] [] attached 1 0
      (codes "R1") (codes "tests/**") returned owed refl
