-- ===== src/Plan/Graph/Search.antt =====
-- core/requirements.py, `_depends_on`: the loop ends.

use mathlib.Core.List.{reverse, reverse-cons}
use supervisor_harness.Prelude.{
  ℕ, zero, suc, ◌+◌, ◌≤◌, ◌≡◌, refl, ap, ◌∙◌, inl, inr, Bool, true, false, some, List, [], ◌∷◌,
  ◌++◌, length, length-append, arith, Bool-cases,
}
use supervisor_harness.Text.{
  Text, text_eq, mem, mem-cons, mem-append, text_eq_iff, text_eq_refl, text_eq_sym,
}
use supervisor_harness.Store.Fold.Dict.{get}
use supervisor_harness.Plan.Graph.{Deps, successors, search, unpushed, rounds}

length-reverse : (xs : List Text) → length (reverse xs) ≡ length xs
length-reverse [] = refl
length-reverse (x ∷ xs) =
    ap length (reverse-cons x xs)
    ∙ (omega (arith, length-append {0} (reverse xs) (x ∷ []), length-reverse xs))

pub mem-reverse : (t : Text) (xs : List Text) → mem t (reverse xs) ≡ mem t xs
unfolding mem
mem-reverse t [] = refl
mem-reverse t (x ∷ xs) =
    ap (mem t) (reverse-cons x xs)
    ∙ (ground (
      arith,
      mem-append t (reverse xs) (x ∷ []),
      mem-reverse t xs,
      mem-cons t x xs,
      mem-cons t x [],
    ))

-- Marking a task as seen lets go of what it pushes.
unpushed_less :
    (deps : Deps) (seen : List Text) (t : Text) → unpushed (t ∷ seen) deps ≤ unpushed seen deps
unfolding unpushed mem
unpushed_less [] seen t = omega arith
unpushed_less ((k, ids) ∷ deps) seen t = ground (arith, unpushed_less deps seen t)

unpushed-cons :
    (deps : Deps) (seen : List Text) (t : Text)
    → mem t seen ≡ false
    → length (successors deps t) + unpushed (t ∷ seen) deps ≤ unpushed seen deps
unfolding unpushed get mem
unpushed-cons [] seen t h = omega arith
unpushed-cons ((k, ids) ∷ deps) seen t h = elim (Bool-cases (text_eq k t)) [
  | inl e ↦
      let same : k ≡ t = (text_eq_iff k t).0 e in
      ground (
        arith,
        e,
        ap (λ u. mem u seen) same,
        text_eq_refl t,
        ap (λ u. text_eq t u) same,
        unpushed_less deps seen t,
      )
  | inr e ↦ ground (arith, e, unpushed-cons deps seen t h, text_eq_sym t k)
]

module _ (fuel : ℕ) (deps : Deps) (other : Text) (seen : List Text) (c : Text)
    (rest : List Text) where
  pub search-hit : text_eq c other ≡ true → search (suc fuel) deps other seen (c ∷ rest) ≡ some true
  unfolding search
  search-hit e = rw (search, e)

  pub search-skip :
      text_eq c other ≡ false
      → mem c seen ≡ true
      → search (suc fuel) deps other seen (c ∷ rest) ≡ search fuel deps other seen rest
  unfolding search
  search-skip e m = rw (search, e, m)

  pub search-push :
      text_eq c other ≡ false
      → mem c seen ≡ false
      → search (suc fuel) deps other seen (c ∷ rest)
        ≡ search fuel deps other (c ∷ seen) (reverse (successors deps c) ++ rest)
  unfolding search
  search-push e m = rw (search, e, m)

search_ends :
    (fuel : ℕ) (deps : Deps) (other : Text) (seen stack : List Text)
    → rounds deps seen stack ≤ fuel
    → (b : Bool) × (search fuel deps other seen stack ≡ some b)
unfolding search rounds
search_ends zero deps other seen stack h = absurd (omega arith)
search_ends (suc fuel) deps other seen [] h = (false, refl)
search_ends (suc fuel) deps other seen (c ∷ rest) h = elim (Bool-cases (text_eq c other)) [
  | inl e ↦ (true, search-hit fuel deps other seen c rest e)
  | inr e ↦ elim (Bool-cases (mem c seen)) [
    | inl m ↦
        let (b, ends) = search_ends fuel deps other seen rest (omega arith) in
        (b, search-skip fuel deps other seen c rest e m ∙ ends)
    | inr m ↦
        let pushed = reverse (successors deps c) in
        let (b, ends) = search_ends fuel deps other (c ∷ seen) (pushed ++ rest) (
          omega (
            arith,
            unpushed-cons deps seen c m,
            length-reverse (successors deps c),
            length-append {0} pushed rest,
          )) in
        (b, search-push fuel deps other seen c rest e m ∙ ends)
  ]
]

-- The loop of `_depends_on` ends: on any dependencies, cycles among them included, and from any
-- stack, with as many rounds as `rounds` counts it returns yes or no.
pub search-rounds :
    (deps : Deps) (other : Text) (stack : List Text)
    → (b : Bool) × (search (rounds deps [] stack) deps other [] stack ≡ some b)
search-rounds deps other stack =
    search_ends (rounds deps [] stack) deps other [] stack (omega arith)
