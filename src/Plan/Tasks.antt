-- ===== src/Plan/Tasks.antt =====
-- models.py, `ExecutionTask`, `AcceptanceTests` and `Requirement`, with the fields that the plan's
-- account of its requirements reads or writes; core/requirements.py, `_deps` and `_tested_ids`. A
-- task is the object at its place in the plan: `is` compares places.
pub mod Change
use supervisor_harness.Prelude.{
  ℕ, zero, suc, Bool, not, Option, none, some, List, [], ◌∷◌, ◌++◌, map, filter, is_empty,
  if◌then◌else◌,
}
use supervisor_harness.Text.{Text, mem, strip}
use supervisor_harness.Envelope.{Scope}
use supervisor_harness.Store.Fold.Dict.{Dict, get, put}
use supervisor_harness.Plan.Graph.{Deps}

pub record AcceptanceTests : Type 0 where
  pub requirements : List Text
  pub command : Text

pub data VerifyMethod : Type 0 where
  command test inspection review fails_before : VerifyMethod

-- A criterion without its fresh id and the verdict that it has not got yet.
pub record Criterion : Type 0 where
  pub statement : Text
  pub method : VerifyMethod
  pub command : Text
  pub expect : Text
  pub rubric : Text
  pub mandatory : Bool
  pub suite : Bool
  pub goal_id : Text

pub record Requirement : Type 0 where
  pub id : Text
  pub quote : Text
  pub source : Text
  pub lines : Text
  pub found_by : Text
  pub whole : Bool
  pub checked_by : Text
  pub set_aside : Text
  pub not_tested : Text

pub record PlanTask : Type 0 where
  pub id : Text
  pub title : Text
  pub dod : List Criterion
  pub scope : Scope
  pub depends_on : List Text
  pub requirements : List Text
  pub acceptance : List AcceptanceTests

-- The task at a place.
unfoldable pub task_at : ℕ → List PlanTask → Option PlanTask
task_at i [] = none
task_at zero (t ∷ tasks) = some t
task_at (suc i) (t ∷ tasks) = task_at i tasks

-- The tasks with the one at a place changed.
unfoldable pub change : ℕ → (PlanTask → PlanTask) → List PlanTask → List PlanTask
change i f [] = []
change zero f (t ∷ tasks) = f t ∷ tasks
change (suc i) f (t ∷ tasks) = t ∷ change i f tasks

-- What a field of the task at a place holds, and the default out of the plan.
unfoldable pub read_at {ℓ} : {A : Type ℓ} → (PlanTask → A) → A → ℕ → List PlanTask → A
unfolding task_at
read_at field default i tasks = elim (task_at i tasks) [ none ↦ default | some t ↦ field t ]

-- The places from one on, as many as there are tasks.
unfoldable pub places : ℕ → List PlanTask → List ℕ
places from [] = []
places from (t ∷ tasks) = from ∷ places (suc from) tasks

unfoldable pub tested_in : List AcceptanceTests → List Text
tested_in [] = []
tested_in (group ∷ rest) = group.requirements ++ tested_in rest

-- `_tested_ids`
unfoldable pub tested_ids : PlanTask → List Text
unfolding tested_in
tested_ids task = tested_in task.acceptance

-- `{t.id for t in tasks}`
unfoldable pub task_ids : List PlanTask → List Text
task_ids [] = []
task_ids (t ∷ tasks) = t.id ∷ task_ids tasks

-- What the owner is told of a task: the data of each message.
pub data Note : Type 0 where
  moved_to moved_from tests_unclaimed inside_tests fenced_off : Text → Text → Note
  not_delivered suite_only : List Text → Note
  may_be_early comes_after : Text → Note
  not_shown : List Text → Text → Note

pub record Plan : Type 0 where
  pub tasks : List PlanTask
  pub notes : Dict (List Note)

abbrev pub or_no_notes : Option (List Note) → List Note
or_no_notes none = []
or_no_notes (some notes) = notes

-- `notes.setdefault(task_id, []).append(note)`
unfoldable pub add_note : Text → Note → Dict (List Note) → Dict (List Note)
unfolding get put
add_note task_id note notes = put task_id (or_no_notes (get task_id notes) ++ note ∷ []) notes

abbrev pub or_blank : Option Text → Text
or_blank none = []
or_blank (some text) = text

-- `casefold` is `str.casefold`, a table of Unicode.
module _ (casefold : Text → Text) where
  -- `{t.title.strip().casefold(): t.id for t in tasks}`, on the ids of the titles before
  unfoldable pub by_title : Dict Text → List PlanTask → Dict Text
  unfolding put strip
  by_title titles [] = titles
  by_title titles (t ∷ tasks) = by_title (put (casefold (strip t.title)) t.id titles) tasks

  -- The id that a dependency names; an id stands for itself.
  unfoldable pub named : List Text → Dict Text → Text → Text
  unfolding mem get strip
  named ids titles d = if mem d ids then d else or_blank (get (casefold (strip d)) titles)

  -- The ids that a list of dependencies names, without the empty one.
  unfoldable pub named_ids : List Text → Dict Text → List Text → List Text
  unfolding named
  named_ids ids titles entries =
      filter (λ d. not (is_empty d)) (map (λ d. named ids titles d) entries)

  unfoldable pub deps_from : List Text → Dict Text → Deps → List PlanTask → Deps
  unfolding named_ids put
  deps_from ids titles deps [] = deps
  deps_from ids titles deps (t ∷ tasks) =
      deps_from ids titles (put t.id (named_ids ids titles t.depends_on) deps) tasks

  -- `_deps`
  unfoldable pub deps_of : List PlanTask → Deps
  unfolding deps_from by_title task_ids
  deps_of tasks = deps_from (task_ids tasks) (by_title [] tasks) [] tasks
