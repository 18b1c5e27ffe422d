-- ===== src/Plan/Fences/Kept.antt =====
-- core/requirements.py, `_fence` and `_blind`: what they leave of every task.
use supervisor_harness.Prelude.{
  ℕ, ◌≡◌, refl, ◌∙◌, inl, inr, List, [], ◌∷◌, map, Bool-cases, is_empty,
}
use supervisor_harness.Text.{Text, mem}
use supervisor_harness.Plan.Tasks.{PlanTask, Plan}
use supervisor_harness.Plan.Tasks.Change.{map-change}
use supervisor_harness.Plan.Fences.{
  fence_one, fence_each, blind, forbid, hide, hidden_from, lies_inside, paths_at, forbidden_at,
}

-- A field that neither list of a scope is part of.
module _ {ℓ} {A : Type ℓ} (field : PlanTask → A) where
  pub fence_one-map :
      ((pattern : Text) (t : PlanTask) → field (forbid pattern t) ≡ field t)
      → (b t : ℕ) (pattern : Text) (p : Plan)
      → map field (fence_one b t pattern p).tasks ≡ map field p.tasks
  unfolding fence_one
  fence_one-map same b t pattern p = elim (Bool-cases (mem pattern (forbidden_at p.tasks b))) [
    | inl e ↦ rw (fence_one, e) refl
    | inr e ↦ elim (Bool-cases (lies_inside (paths_at p.tasks b) pattern)) [
      | inl i ↦ rw (fence_one, e, i) refl
      | inr i ↦ rw (fence_one, e, i) (map-change field (forbid pattern) (same pattern) b p.tasks)
    ]
  ]

  pub fence_each-map :
      ((pattern : Text) (t : PlanTask) → field (forbid pattern t) ≡ field t)
      → (b t : ℕ) (patterns : List Text) (p : Plan)
      → map field (fence_each b t patterns p).tasks ≡ map field p.tasks
  unfolding fence_each
  fence_each-map same b t [] p = refl
  fence_each-map same b t (pattern ∷ rest) p =
      fence_each-map same b t rest (fence_one b t pattern p) ∙ fence_one-map same b t pattern p

  pub blind-map :
      ((paths : List Text) (t : PlanTask) → field (hide paths t) ≡ field t)
      → (b t : ℕ) (p : Plan) → map field (blind b t p).tasks ≡ map field p.tasks
  unfolding blind
  blind-map same b t p = elim (Bool-cases (is_empty (hidden_from p.tasks b t))) [
    | inl e ↦ rw (blind, e) refl
    | inr e ↦
        rw (blind, e)
          (map-change field (hide (hidden_from p.tasks b t)) (same (hidden_from p.tasks b t)) t
            p.tasks)
  ]
