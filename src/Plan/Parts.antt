-- ===== src/Plan/Parts.antt =====
-- core/requirements.py: which tasks come after every part of the result, `_deliver_last` and
-- `_not_its_own`. A task is named by its place in the plan.
use supervisor_harness.Prelude.{
  ℕ, Bool, not, ◌&&◌, Option, none, some, List, [], ◌∷◌, ◌++◌, map, filter, any, is_empty, ◌==◌,
  if◌then◌else◌,
}
use supervisor_harness.Text.{Text, text_eq, mem}
use supervisor_harness.Plan.Graph.{Deps, depends_on}
use supervisor_harness.Plan.Tasks.{
  PlanTask, Plan, moved_to, moved_from, not_delivered, change, places, read_at, tested_ids, deps_of,
  add_note,
}

abbrev pub id_at : List PlanTask → ℕ → Text
id_at tasks i = read_at PlanTask.id [] i tasks

abbrev pub title_at : List PlanTask → ℕ → Text
title_at tasks i = read_at PlanTask.title [] i tasks

abbrev pub requirements_at : List PlanTask → ℕ → List Text
requirements_at tasks i = read_at PlanTask.requirements [] i tasks

abbrev pub tested_at : List PlanTask → ℕ → List Text
tested_at tasks i = read_at tested_ids [] i tasks

abbrev pub all_of : List PlanTask → List ℕ
all_of tasks = places 0 tasks

abbrev or_all : List ℕ → List ℕ → List ℕ
or_all [] every = every
or_all (i ∷ some_places) every = i ∷ some_places

-- The tasks that deliver a requirement of less than the whole; every task, when none does.
unfoldable pub parts : List PlanTask → List Text → List ℕ
unfolding mem places read_at
parts tasks whole =
    or_all (filter (λ j. any (λ r. not (mem r whole)) (requirements_at tasks j)) (all_of tasks))
      (all_of tasks)

-- `_not_yet_built`
unfoldable pub not_yet_built : ℕ → List PlanTask → List Text → Deps → List ℕ
unfolding parts depends_on read_at
not_yet_built i tasks whole deps =
    filter (λ j. not (j == i) && not (depends_on deps (id_at tasks i) (id_at tasks j)))
      (parts tasks whole)

-- The first item that passes.
unfoldable pub first_of : (ℕ → Bool) → List ℕ → Option ℕ
first_of f [] = none
first_of f (i ∷ rest) = if f i then some i else first_of f rest

-- `list.remove`: the first occurrence.
unfoldable pub remove : Text → List Text → List Text
unfolding text_eq
remove r [] = []
remove r (x ∷ xs) = let rest = remove r xs in if text_eq x r then xs else x ∷ rest

-- The ids of the tasks that test a requirement.
unfoldable pub testing : List PlanTask → Text → List Text
unfolding mem places read_at tested_ids
testing tasks rid = map (id_at tasks) (filter (λ j. mem rid (tested_at tasks j)) (all_of tasks))

-- The requirement handed on from one place to another.
unfoldable pub hand_on : ℕ → ℕ → Text → Plan → Plan
unfolding change remove add_note read_at
hand_on i last rid p =
    let moved =
      change last (λ t. record t { requirements = t.requirements ++ rid ∷ [] })
        (change i (λ t. record t { requirements = remove rid t.requirements }) p.tasks) in
    record p {
      tasks = moved;
      notes =
          add_note (id_at p.tasks last) (moved_from rid (title_at p.tasks i))
            (add_note (id_at p.tasks i) (moved_to rid (title_at p.tasks last)) p.notes);
    }

module _ (casefold : Text → Text) where
  -- The tasks after every part, the ids to skip aside.
  unfoldable pub after_parts : List PlanTask → List Text → List Text → List ℕ
  unfolding mem not_yet_built places read_at deps_of
  after_parts tasks whole skip =
      filter
        (λ i.
          not (mem (id_at tasks i) skip)
          && is_empty (not_yet_built i tasks whole (deps_of casefold tasks)))
        (all_of tasks)

  unfoldable pub furthest_after_parts : List PlanTask → List Text → List Text → Option ℕ
  unfolding after_parts first_of depends_on read_at deps_of
  furthest_after_parts tasks whole skip =
      let able = after_parts tasks whole skip in
      first_of
        (λ i.
          not (any (λ o. depends_on (deps_of casefold tasks) (id_at tasks o) (id_at tasks i)) able))
        able

  -- One round of the inner loop of `_deliver_last`.
  unfoldable pub deliver_one : List Text → Deps → ℕ → Text → Plan → Plan
  unfolding not_yet_built furthest_after_parts testing hand_on read_at
  deliver_one whole deps i rid p =
      if is_empty (not_yet_built i p.tasks whole deps)
      then p
      else elim (furthest_after_parts p.tasks whole (id_at p.tasks i ∷ testing p.tasks rid)) [
        | none ↦ p
        | some last ↦ hand_on i last rid p
      ]

  unfoldable pub deliver_each : List Text → Deps → ℕ → List Text → Plan → Plan
  unfolding deliver_one
  deliver_each whole deps i [] p = p
  deliver_each whole deps i (rid ∷ rest) p =
      deliver_each whole deps i rest (deliver_one whole deps i rid p)

  unfoldable pub deliver_from : List Text → Deps → List ℕ → Plan → Plan
  unfolding deliver_each mem read_at
  deliver_from whole deps [] p = p
  deliver_from whole deps (i ∷ rest) p =
      deliver_from whole deps rest
        (deliver_each whole deps i (filter (λ r. mem r whole) (requirements_at p.tasks i)) p)

  -- `_deliver_last`
  unfoldable pub deliver_last : List Text → Plan → Plan
  unfolding deliver_from deps_of places
  deliver_last whole p = deliver_from whole (deps_of casefold p.tasks) (all_of p.tasks) p

-- Some other task delivers it.
unfoldable pub built_elsewhere : List PlanTask → ℕ → Text → Bool
unfolding mem places read_at
built_elsewhere tasks i rid =
    any (λ j. not (j == i) && mem rid (requirements_at tasks j)) (all_of tasks)

-- The requirements that a task tests and another delivers.
unfoldable pub disowned : List PlanTask → ℕ → List Text
unfolding built_elsewhere mem read_at tested_ids
disowned tasks i =
    filter (λ r. mem r (tested_at tasks i) && built_elsewhere tasks i r) (requirements_at tasks i)

-- One round of the loop of `_not_its_own`.
unfoldable pub disown : ℕ → Plan → Plan
unfolding disowned change add_note mem read_at
disown i p =
    let dropped = disowned p.tasks i in
    if is_empty dropped then p else record p {
      tasks =
          change i
            (λ t. record t { requirements = filter (λ r. not (mem r dropped)) t.requirements })
            p.tasks;
      notes = add_note (id_at p.tasks i) (not_delivered dropped) p.notes;
    }

unfoldable pub disown_each : List ℕ → Plan → Plan
unfolding disown
disown_each [] p = p
disown_each (i ∷ rest) p = disown_each rest (disown i p)

-- `_not_its_own`
unfoldable pub not_its_own : Plan → Plan
unfolding disown_each places
not_its_own p = disown_each (all_of p.tasks) p
