-- ===== src/Plan/Graph/Distance.antt =====
-- core/requirements.py, `_distance`: the loop ends.
use mathlib.Core.Bool.{true≢false}
use mathlib.Core.Logic.{⊎_elim}
use supervisor_harness.Prelude.{
  ℕ, zero, suc, ◌≤◌, ◌≡◌, refl, sym, ap, ◌∙◌, ◌⊎◌, inl, inr, true, false, not, ◌&&◌, Option, none,
  some, List, [], ◌∷◌, ◌++◌, length, arith, Bool-cases, List-cases, if◌then◌else◌,
}
use supervisor_harness.Text.{
  Text, text_eq, mem, mem-cons, mem-append, mem-filter, text_eq_iff, text_eq_refl,
}
use supervisor_harness.Store.Fold.Dict.{get}
use supervisor_harness.Plan.Graph.Chains.{mem_nil}
use supervisor_harness.Plan.Graph.{Deps, successors, gather, onward, nearest}

-- How many tasks were not seen yet.
unvisited : List Text → Deps → ℕ
unvisited seen [] = 0
unvisited seen ((k, ids) ∷ deps) =
    let rest = unvisited seen deps in if mem k seen then rest else suc rest

unvisited_nil : (deps : Deps) → unvisited [] deps ≡ length deps
unfolding unvisited mem
unvisited_nil [] = refl
unvisited_nil ((k, ids) ∷ deps) = ap suc (unvisited_nil deps)

unvisited_less :
    (deps : Deps) (seen more : List Text) → unvisited (seen ++ more) deps ≤ unvisited seen deps
unfolding unvisited
unvisited_less [] seen more = omega arith
unvisited_less ((k, ids) ∷ deps) seen more =
    ground (arith, unvisited_less deps seen more, mem-append k seen more)

-- A task that was on the frontier, not seen before, and depends on others.
unvisited-append :
    (deps : Deps) (seen more : List Text) (u v : Text)
    → mem u seen ≡ false
    → mem u more ≡ true
    → mem v (successors deps u) ≡ true
    → suc (unvisited (seen ++ more) deps) ≤ unvisited seen deps
unfolding unvisited get mem
unvisited-append [] seen more u v h k m = absurd (true≢false (sym m))
unvisited-append ((k, ids) ∷ deps) seen more u v h e m = elim (Bool-cases (text_eq k u)) [
  | inl same ↦ ground (
    arith,
    h,
    e,
    (text_eq_iff k u).0 same,
    mem-append k seen more,
    mem-append u seen more,
    unvisited_less deps seen more,
  )
  | inr other ↦ ground (
    arith,
    other,
    mem-append k seen more,
    unvisited-append deps seen more u v h e (ground (arith, m, other)),
  )
]

pub mem-gather :
    (deps : Deps) (v : Text) (frontier : List Text)
    → mem v (gather deps frontier) ≡ true
    → (u : Text) × (mem u frontier ≡ true) × (mem v (successors deps u) ≡ true)
unfolding gather mem
mem-gather deps v [] h = absurd (true≢false (sym h))
mem-gather deps v (t ∷ rest) h = elim (Bool-cases (mem v (successors deps t))) [
  | inl e ↦ (t, ground (arith, text_eq_refl t), e)
  | inr e ↦
      let (u, m, next) =
        mem-gather deps v rest
          (ground (arith, h, e, mem-append v (successors deps t) (gather deps rest))) in
      (u, ground (arith, m), next)
]

pub gather-mem :
    (deps : Deps) (u v : Text) (frontier : List Text)
    → mem u frontier ≡ true
    → mem v (successors deps u) ≡ true
    → mem v (gather deps frontier) ≡ true
unfolding gather mem
gather-mem deps u v [] h e = h
gather-mem deps u v (t ∷ rest) h e = ground (
  arith,
  h,
  e,
  text_eq_iff t u,
  gather-mem deps u v rest,
  mem-append v (successors deps t) (gather deps rest),
)

pub mem-onward :
    (deps : Deps) (v : Text) (seen frontier : List Text)
    → mem v (onward deps seen frontier) ≡ (not (mem v seen) && mem v (gather deps frontier))
unfolding onward
mem-onward deps v seen frontier = mem-filter (λ d. not (mem d seen)) v (gather deps frontier)

module _ (fuel : ℕ) (deps : Deps) (other : Text) (seen : List Text) (steps : ℕ) (t : Text)
    (rest : List Text) where
  pub nearest-found :
      mem other (t ∷ rest) ≡ true
      → nearest (suc fuel) deps other seen steps (t ∷ rest) ≡ some (some steps)
  unfolding nearest
  nearest-found e = rw (nearest, e)

  pub nearest-onward :
      mem other (t ∷ rest) ≡ false
      → nearest (suc fuel) deps other seen steps (t ∷ rest)
        ≡ nearest fuel deps other
            (seen ++ t ∷ rest)
            (suc steps)
            (onward deps (seen ++ t ∷ rest) (t ∷ rest))
  unfolding nearest
  nearest-onward e = rw (nearest, e)

-- A frontier that leads on falls the count of the tasks that were not seen.
onward_fewer :
    (deps : Deps) (seen frontier : List Text)
    → ((v : Text) → mem v frontier ≡ true → mem v seen ≡ false)
    → (onward deps (seen ++ frontier) frontier ≡ [])
      ⊎ (suc (unvisited (seen ++ frontier) deps) ≤ unvisited seen deps)
onward_fewer deps seen frontier h = elim (List-cases (onward deps (seen ++ frontier) frontier)) [
  | inl e ↦ inl e
  | inr (v, rest, e) ↦
      let (u, m, next) = mem-gather deps v frontier (
        ground (
          arith,
          mem-onward deps v (seen ++ frontier) frontier,
          ap (mem v) e,
          mem-cons v v rest,
          text_eq_refl v,
        )) in
      inr (unvisited-append deps seen frontier u v (h u m) m next)
]

fewer_left :
    {t : Text} {rest : List Text} {a b fuel : ℕ}
    → ((t ∷ rest ≡ []) ⊎ (suc a ≤ suc fuel))
    → suc b ≤ a
    → suc b ≤ fuel
fewer_left (inl e) h = absurd (cc e)
fewer_left (inr le) h = omega arith

nearest_ends :
    (fuel : ℕ) (deps : Deps) (other : Text) (seen : List Text) (steps : ℕ) (frontier : List Text)
    → ((v : Text) → mem v frontier ≡ true → mem v seen ≡ false)
    → (frontier ≡ []) ⊎ (suc (unvisited seen deps) ≤ fuel)
    → (answer : Option ℕ) × (nearest (suc fuel) deps other seen steps frontier ≡ some answer)
nearest_ends fuel deps other seen steps [] apart h = (none, unfold nearest in refl)
nearest_ends zero deps other seen steps (t ∷ rest) apart h =
    absurd (elim h [ inl e ↦ cc e | inr le ↦ omega arith ])
nearest_ends (suc fuel) deps other seen steps (t ∷ rest) apart h =
    elim (Bool-cases (mem other (t ∷ rest))) [
      | inl e ↦ (some steps, nearest-found (suc fuel) deps other seen steps t rest e)
      | inr e ↦
          let after = seen ++ t ∷ rest in
          let (answer, ends) =
            nearest_ends fuel deps other after (suc steps) (onward deps after (t ∷ rest))
              (λ v m. (ground (arith, m, mem-onward deps v after (t ∷ rest))))
              (⊎_elim inl (λ le. inr (fewer_left h le))
                (onward_fewer deps seen (t ∷ rest) apart)) in
          (answer, nearest-onward (suc fuel) deps other seen steps t rest e ∙ ends)
    ]

-- The loop of `_distance` ends within two rounds more than there are tasks, on any dependencies.
pub nearest-rounds :
    (deps : Deps) (other : Text) (frontier : List Text)
    → (answer : Option ℕ) × (nearest (suc (suc (length deps))) deps other [] 1 frontier
        ≡ some answer)
nearest-rounds deps other frontier =
    nearest_ends (suc (length deps)) deps other [] 1 frontier (λ v m. mem_nil v)
      (inr (omega (arith, unvisited_nil deps)))
