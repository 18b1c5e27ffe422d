-- ===== src/Plan/Graph.antt =====
-- core/requirements.py, `_depends_on` and `_distance`: the searches of a plan's dependencies,
-- backwards from a task.
-- A set is the list of its items in the order in which the program meets them.
pub mod Walk
pub mod Search
pub mod Chains
pub mod Distance
pub mod Nearest
use mathlib.Core.List.{reverse}
use supervisor_harness.Prelude.{
  ℕ, zero, suc, ◌+◌, ◌≡◌, Bool, true, false, not, Option, none, some, List, [], ◌∷◌, ◌++◌, length,
  filter, if◌then◌else◌,
}
use supervisor_harness.Text.{Text, text_eq, mem}
use supervisor_harness.Store.Fold.Dict.{Dict, get}

-- Each task's id with the ids of the tasks that it depends on.
abbrev pub Deps : Type 0
Deps = Dict (List Text)

abbrev pub or_empty : Option (List Text) → List Text
or_empty none = []
or_empty (some ids) = ids

-- `deps.get(task_id, ())`
abbrev pub successors : Deps → Text → List Text
successors deps task_id = or_empty (get task_id deps)

-- The `while` loop on a stack whose top comes first; none when the fuel runs out.
unfoldable pub search : ℕ → Deps → Text → List Text → List Text → Option Bool
search zero deps other seen stack = none
search (suc fuel) deps other seen [] = some false
search (suc fuel) deps other seen (current ∷ rest) = elim (text_eq current other) [
  | true ↦ some true
  | false ↦ elim (mem current seen) [
    | true ↦ search fuel deps other seen rest
    | false ↦ search fuel deps other (current ∷ seen) (reverse (successors deps current) ++ rest)
  ]
]

-- How many ids the tasks that were not seen yet can still push.
unfoldable pub unpushed : List Text → Deps → ℕ
unpushed seen [] = 0
unpushed seen ((k, ids) ∷ deps) =
    let rest = unpushed seen deps in if mem k seen then rest else length ids + rest

-- Every round pops an id, and a round that pushes has marked its task as seen.
unfoldable pub rounds : Deps → List Text → List Text → ℕ
rounds deps seen stack = suc (length stack + unpushed seen deps)

abbrev pub or_false : Option Bool → Bool
or_false none = false
or_false (some b) = b

unfoldable pub depends_on : Deps → Text → Text → Bool
unfolding search rounds unpushed
depends_on deps task_id other =
    let stack = reverse (successors deps task_id) in
    or_false (search (rounds deps [] stack) deps other [] stack)

-- `{d for t in frontier for d in deps.get(t, ())}`
unfoldable pub gather : Deps → List Text → List Text
gather deps [] = []
gather deps (t ∷ frontier) = successors deps t ++ gather deps frontier

-- The frontier of the next round.
unfoldable pub onward : Deps → List Text → List Text → List Text
onward deps seen frontier = filter (λ d. not (mem d seen)) (gather deps frontier)

-- The `while` loop; no answer when the fuel runs out.
unfoldable pub nearest : ℕ → Deps → Text → List Text → ℕ → List Text → Option (Option ℕ)
unfolding onward
nearest zero deps other seen steps frontier = none
nearest (suc fuel) deps other seen steps [] = some none
nearest (suc fuel) deps other seen steps (t ∷ rest) =
    let frontier = t ∷ rest in
    elim (mem other frontier) [
      | true ↦ some (some steps)
      | false ↦
          let reached = seen ++ frontier in
          nearest fuel deps other reached (suc steps) (onward deps reached frontier)
    ]

abbrev pub settled : Option (Option ℕ) → Option ℕ
settled none = none
settled (some answer) = answer

-- A round that leaves a frontier has seen one more task that depends on others.
unfoldable pub distance : Deps → Text → Text → Option ℕ
unfolding nearest
distance deps task_id other =
    settled (nearest (suc (suc (length deps))) deps other [] 1 (successors deps task_id))
