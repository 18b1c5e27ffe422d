-- ===== src/Plan/Meet/Cycles.antt =====
-- core/requirements.py, `attach_requirements`: a dependency that is added only where the other
-- task does not wait on this one closes no cycle.
use mathlib.Core.Bool.{true≢false}
use supervisor_harness.Prelude.{
  ℕ, suc, ◌≡◌, sym, ◌∙◌, ◌⊎◌, inl, inr, true, false, [], ◌∷◌, ◌++◌, arith, subst,
}
use supervisor_harness.Text.{Text, mem, mem-cons, mem-append, text_eq_iff, text_eq_refl}
use supervisor_harness.Plan.Graph.{Deps, successors, depends_on}
use supervisor_harness.Plan.Graph.Walk.{Walk, direct, through, Waits}
use supervisor_harness.Plan.Graph.Chains.{depends_on-Waits, mem_nil}
use supervisor_harness.Plan.Meet.{link}
use supervisor_harness.Store.Fold.Lookup.{get-put_any}

-- No task waits on itself.
abbrev pub IsAcyclic : Deps → Type 0
IsAcyclic deps = (t : Text) → ¬ Waits deps t t

Walk-Waits :
    {deps : Deps} {n : ℕ} {t u v : Text} → Walk deps n t u → Waits deps u v → Waits deps t v
Walk-Waits (direct e) (m, w) = (suc m, through e w)
Walk-Waits (through e w) h = let (m, w') = Walk-Waits w h in (suc m, through e w')

pub successors-link :
    (deps : Deps) (t b u v : Text)
    → mem v (successors (link deps t b) u) ≡ true
    → (mem v (successors deps u) ≡ true) ⊎ ((t ≡ u) × (b ≡ v))
unfolding link
successors-link deps t b u v h = ground (
  arith,
  h,
  get-put_any t u (successors deps t ++ b ∷ []) deps,
  text_eq_iff t u,
  text_eq_iff b v,
  mem-append v (successors deps t) (b ∷ []),
  mem-cons v b [],
  mem_nil v,
)

pub link-successors :
    (deps : Deps) (t b u v : Text)
    → mem v (successors deps u) ≡ true
    → mem v (successors (link deps t b) u) ≡ true
unfolding link
link-successors deps t b u v h = ground (
  arith,
  h,
  get-put_any t u (successors deps t ++ b ∷ []) deps,
  text_eq_iff t u,
  mem-append v (successors deps t) (b ∷ []),
)

pub link_there : (deps : Deps) (t b : Text) → mem b (successors (link deps t b) t) ≡ true
unfolding link
link_there deps t b = ground (
  arith,
  get-put_any t t (successors deps t ++ b ∷ []) deps,
  text_eq_refl t,
  text_eq_refl b,
  mem-append b (successors deps t) (b ∷ []),
  mem-cons b b [],
)

-- A chain that the new dependency is on passes from `t` to `b`.
module _ (deps : Deps) (t b : Text) where
  abbrev Passes : Text → Text → Type 0
  Passes u v = ((t ≡ u) ⊎ Waits deps u t) × ((b ≡ v) ⊎ Waits deps b v)

  arrive :
      {u w : Text} → mem w (successors deps u) ≡ true → (t ≡ w) ⊎ Waits deps w t → Waits deps u t
  arrive {u} e (inl p) = (0, direct (subst (λ z. mem z (successors deps u) ≡ true) (sym p) e))
  arrive e (inr (m, x)) = (suc m, through e x)

  through_split :
      {u w v : Text}
      → (mem w (successors deps u) ≡ true) ⊎ ((t ≡ u) × (b ≡ w))
      → Waits deps w v ⊎ Passes w v
      → Waits deps u v ⊎ Passes u v
  through_split (inl e) (inl (m, x)) = inl (suc m, through e x)
  through_split {u} (inl e) (inr (p, q)) = inr (inr (arrive e p), q)
  through_split {w} {v} (inr (p, q)) (inl x) =
      inr (inl p, inr (subst (λ z. Waits deps z v) (sym q) x))
  through_split (inr (p, q)) (inr (r, s)) = inr (inl p, s)

  split-Walk : {n : ℕ} {u v : Text} → Walk (link deps t b) n u v → Waits deps u v ⊎ Passes u v
  split-Walk {u} {v} (direct e) = elim (successors-link deps t b u v e) [
    | inl h ↦ inl (0, direct h)
    | inr (p, q) ↦ inr (inl p, inl q)
  ]
  split-Walk {u} {v} (through {u = w} e rest) =
      through_split (successors-link deps t b u w e) (split-Walk rest)

-- A chain from a task to itself over the new dependency goes back from `b` to `t`.
back :
    {deps : Deps} {t b u : Text}
    → ¬ (b ≡ t)
    → (t ≡ u) ⊎ Waits deps u t
    → (b ≡ u) ⊎ Waits deps b u
    → Waits deps b t
back apart (inl p) (inl q) = absurd (apart (q ∙ sym p))
back {deps} {t} apart (inr w) (inl q) = subst (λ z. Waits deps z t) (sym q) w
back {deps} {b} apart (inl p) (inr w) = subst (Waits deps b) (sym p) w
back apart (inr w) (inr (n, x)) = Walk-Waits x w

pub link-IsAcyclic :
    (deps : Deps) (t b : Text)
    → IsAcyclic deps
    → ¬ (b ≡ t)
    → depends_on deps b t ≡ false
    → IsAcyclic (link deps t b)
link-IsAcyclic deps t b h apart free u (n, w) = elim (split-Walk deps t b w) [
  | inl old ↦ h u old
  | inr (p, q) ↦ true≢false (sym ((depends_on-Waits deps b t).1 (back apart p q)) ∙ free)
]
