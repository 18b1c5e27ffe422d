-- ===== src/Plan/Fences/Met.antt =====
-- core/requirements.py, `_fence`: every file of the tester is forbidden to the builder, unless the
-- builder's own scope lies inside it; nothing that was forbidden is let go.
use mathlib.Core.Bool.{true≢false}
use supervisor_harness.Prelude.{
  ◌<◌, length, ℕ, zero, suc, ◌≡◌, refl, sym, ap, ◌∙◌, inl, inr, true, ◌||◌, some, List, [], ◌∷◌,
  ◌++◌, arith, Bool-cases, subst,
}
use supervisor_harness.Text.{Text, mem, mem-cons, mem-append, text_eq_refl, text_eq_iff}
use supervisor_harness.Plan.Graph.Chains.{mem_nil}
use supervisor_harness.Plan.Tasks.{PlanTask, Plan, task_at, change, read_at}
use supervisor_harness.Plan.Tasks.Change.{read_at-change, read_at-map, task_at_lt, length-same}
use supervisor_harness.Plan.Fences.{
  fence_one, fence_each, fence, forbid, lies_inside, paths_at, forbidden_at,
}
use supervisor_harness.Plan.Fences.Kept.{fence_one-map, fence_each-map}

-- What was forbidden at a place still is.
abbrev pub Grows : List PlanTask → List PlanTask → Type 0
Grows before after =
    (i : ℕ) (q : Text) → mem q (forbidden_at before i) ≡ true → mem q (forbidden_at after i) ≡ true

pub forbid-Grows :
    (b : ℕ) (pattern : Text) (tasks : List PlanTask) → Grows tasks (change b (forbid pattern) tasks)
unfolding change forbid read_at task_at
forbid-Grows b pattern [] i q h = h
forbid-Grows zero pattern (t ∷ tasks) zero q h =
    ground (arith, h, mem-append q t.scope.forbidden_paths (pattern ∷ []))
forbid-Grows zero pattern (t ∷ tasks) (suc i) q h = h
forbid-Grows (suc b) pattern (t ∷ tasks) zero q h = h
forbid-Grows (suc b) pattern (t ∷ tasks) (suc i) q h = forbid-Grows b pattern tasks i q h

module _ (b t : ℕ) where
  -- What one round of `_fence` leaves of a pattern.
  abbrev pub KeptOff : Text → List PlanTask → Type 0
  KeptOff q tasks = (mem q (forbidden_at tasks b) || lies_inside (paths_at tasks b) q) ≡ true

  pub fence_one-Grows : (pattern : Text) (p : Plan) → Grows p.tasks (fence_one b t pattern p).tasks
  unfolding fence_one
  fence_one-Grows pattern p i q h = elim (Bool-cases (mem pattern (forbidden_at p.tasks b))) [
    | inl e ↦ rw (fence_one, e) h
    | inr e ↦ elim (Bool-cases (lies_inside (paths_at p.tasks b) pattern)) [
      | inl n ↦ rw (fence_one, e, n) h
      | inr n ↦ rw (fence_one, e, n) (forbid-Grows b pattern p.tasks i q h)
    ]
  ]

  pub fence_each-Grows :
      (patterns : List Text) (p : Plan) → Grows p.tasks (fence_each b t patterns p).tasks
  unfolding fence_each
  fence_each-Grows [] p i q h = h
  fence_each-Grows (pattern ∷ rest) p i q h =
      fence_each-Grows rest (fence_one b t pattern p) i q (fence_one-Grows pattern p i q h)

  forbidden_now :
      (pattern : Text) (tasks : List PlanTask) (x : PlanTask)
      → task_at b tasks ≡ some x
      → KeptOff pattern (change b (forbid pattern) tasks)
  unfolding forbid
  forbidden_now pattern tasks x found =
      let last : mem pattern (x.scope.forbidden_paths ++ pattern ∷ []) ≡ true = ground (
        arith,
        mem-append pattern x.scope.forbidden_paths (pattern ∷ []),
        mem-cons pattern pattern [],
        text_eq_refl pattern,
      ) in
      let here : mem pattern (forbidden_at (change b (forbid pattern) tasks) b) ≡ true =
        ap (mem pattern)
          (read_at-change (λ y. y.scope.forbidden_paths) [] (forbid pattern) b tasks x found)
        ∙ last in
      ap (λ y. y || lies_inside (paths_at (change b (forbid pattern) tasks) b) pattern) here

  fence_one-KeptOff :
      (pattern : Text) (p : Plan) (x : PlanTask)
      → task_at b p.tasks ≡ some x
      → KeptOff pattern (fence_one b t pattern p).tasks
  unfolding fence_one
  fence_one-KeptOff pattern p x found = elim (Bool-cases (mem pattern (forbidden_at p.tasks b))) [
    | inl e ↦ rw (fence_one, e) (ground (arith, e))
    | inr e ↦ elim (Bool-cases (lies_inside (paths_at p.tasks b) pattern)) [
      | inl n ↦ rw (fence_one, e, n) (ground (arith, n))
      | inr n ↦ rw (fence_one, e, n) (forbidden_now pattern p.tasks x found)
    ]
  ]

  pub KeptOff-Grows :
      (q : Text) (before after : List PlanTask)
      → Grows before after
      → paths_at after b ≡ paths_at before b
      → KeptOff q before
      → KeptOff q after
  KeptOff-Grows q before after g same h = ground (arith, h, g b q, ap (λ z. lies_inside z q) same)

  paths_same : (t : PlanTask) (pattern : Text) → (forbid pattern t).scope.paths ≡ t.scope.paths
  unfolding forbid
  paths_same t pattern = refl

  pub paths_fence_each :
      (patterns : List Text) (p : Plan) (i : ℕ)
      → paths_at (fence_each b t patterns p).tasks i ≡ paths_at p.tasks i
  paths_fence_each patterns p i =
      read_at-map (λ y. y.scope.paths) [] i (fence_each b t patterns p).tasks p.tasks
        (fence_each-map (λ y. y.scope.paths) (λ pattern y. paths_same y pattern) b t patterns p)

  fence_each-KeptOff :
      (patterns : List Text) (q : Text) (p : Plan)
      → b < length p.tasks
      → mem q patterns ≡ true
      → KeptOff q (fence_each b t patterns p).tasks
  unfolding fence_each
  fence_each-KeptOff [] q p lt m = absurd (true≢false (sym m ∙ mem_nil q))
  fence_each-KeptOff (pattern ∷ rest) q p lt m =
      let one = fence_one b t pattern p in
      let same_length : length one.tasks ≡ length p.tasks =
        length-same (λ y. y.scope.paths) one.tasks p.tasks
          (fence_one-map (λ y. y.scope.paths) (λ pattern y. paths_same y pattern) b t pattern p) in
      elim (Bool-cases (mem q rest)) [
        | inl later ↦ fence_each-KeptOff rest q one (omega arith) later
        | inr no_more ↦
            let (x, found) = task_at_lt b p.tasks lt in
            let same : pattern ≡ q =
              (text_eq_iff pattern q).0 (ground (arith, m, no_more, mem-cons q pattern rest)) in
            KeptOff-Grows q one.tasks (fence_each b t rest one).tasks (fence_each-Grows rest one)
              (paths_fence_each rest one b)
              (subst (λ z. KeptOff z one.tasks) same (fence_one-KeptOff pattern p x found))
      ]

  pub fence-KeptOff :
      (q : Text) (p : Plan)
      → b < length p.tasks
      → mem q (paths_at p.tasks t) ≡ true
      → KeptOff q (fence b t p).tasks
  unfolding fence
  fence-KeptOff q p lt m = fence_each-KeptOff (paths_at p.tasks t) q p lt m
