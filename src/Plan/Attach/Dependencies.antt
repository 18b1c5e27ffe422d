-- ===== src/Plan/Attach/Dependencies.antt =====
-- core/requirements.py, `_deps`: what the dependencies of a plan hold for each of its tasks.
use supervisor_harness.Prelude.{ℕ, ◌≡◌, refl, ◌∙◌, true, false, List, [], ◌∷◌, arith, All}
use supervisor_harness.Text.{Text, mem, text_eq_iff, text_eq_refl}
use supervisor_harness.Store.Fold.Dict.{Dict, get, put}
use supervisor_harness.Plan.Graph.{Deps, successors}
use supervisor_harness.Plan.Graph.Walk.{Walk, direct, through}
use supervisor_harness.Plan.Tasks.{PlanTask, task_ids, named_ids, deps_from}
use supervisor_harness.Plan.Tasks.Change.{Distinct}
use supervisor_harness.Plan.Meet.Cycles.{IsAcyclic}
use supervisor_harness.Store.Fold.Lookup.{get-put_any}
use supervisor_harness.Plan.Meet.Sound.{Covers}

-- Every dependency of the one is a dependency of the other.
abbrev pub Within : Deps → Deps → Type 0
Within small large =
    (u v : Text) → mem v (successors small u) ≡ true → mem v (successors large u) ≡ true

Within-Walk :
    {small large : Deps} {n : ℕ} {t o : Text}
    → Within small large
    → Walk small n t o
    → Walk large n t o
Within-Walk {t} {o} h (direct e) = direct (h t o e)
Within-Walk {t} h (through {u} e w) = through (h t u e) (Within-Walk h w)

pub Within-IsAcyclic : (small large : Deps) → Within small large → IsAcyclic large → IsAcyclic small
Within-IsAcyclic small large h free t (n, w) = free t (n, Within-Walk h w)

module _ (casefold : Text → Text) (ids : List Text) (titles : Dict Text) where
  -- Dependencies that are kept beside the plan hold those that the plan's tasks name.
  pub deps_from-Within :
      (large deps : Deps) (tasks : List PlanTask)
      → Within deps large
      → All (Covers casefold ids titles large) tasks
      → Within (deps_from casefold ids titles deps tasks) large
  unfolding deps_from
  deps_from-Within large deps [] w h = w
  deps_from-Within large deps (t ∷ tasks) w (c, h) =
      deps_from-Within large (put t.id (named_ids casefold ids titles t.depends_on) deps) tasks
        (λ u v m. put_within u v m) h
    where
      put_within :
          (u v : Text)
          → mem v (successors (put t.id (named_ids casefold ids titles t.depends_on) deps) u) ≡ true
          → mem v (successors large u) ≡ true
      put_within u v m = ground (
        arith,
        m,
        get-put_any t.id u (named_ids casefold ids titles t.depends_on) deps,
        text_eq_iff t.id u,
        w u v,
        c v,
      )

  -- A task whose id comes later is not in the way.
  deps_from_other :
      (key : Text) (deps : Deps) (tasks : List PlanTask)
      → mem key (task_ids tasks) ≡ false
      → get key (deps_from casefold ids titles deps tasks) ≡ get key deps
  unfolding deps_from task_ids mem
  deps_from_other key deps [] h = refl
  deps_from_other key deps (t ∷ tasks) h =
      deps_from_other key (put t.id (named_ids casefold ids titles t.depends_on) deps) tasks
        (ground (arith, h))
      ∙ get-put_any t.id key (named_ids casefold ids titles t.depends_on) deps
      ∙ (ground (arith, h))

  -- The dependencies of a plan cover its tasks, when no two of them have one id.
  pub deps_from-Covers :
      (deps : Deps) (tasks : List PlanTask)
      → Distinct (task_ids tasks)
      → All (Covers casefold ids titles (deps_from casefold ids titles deps tasks)) tasks
  unfolding deps_from task_ids
  deps_from-Covers deps [] d = tt
  deps_from-Covers deps (t ∷ tasks) (new, d) =
      let own = named_ids casefold ids titles t.depends_on in
      (
        λ v m. ground (
          arith,
          m,
          deps_from_other t.id (put t.id own deps) tasks new,
          get-put_any t.id t.id own deps,
          text_eq_refl t.id,
        ),
        deps_from-Covers (put t.id own deps) tasks d,
      )
