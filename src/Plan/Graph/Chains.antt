-- ===== src/Plan/Graph/Chains.antt =====
-- core/requirements.py, `_depends_on`: a yes is a chain of dependencies, a no leaves a closed set.
use mathlib.Core.Bool.{true≢false}
use mathlib.Core.List.{reverse}
use supervisor_harness.Prelude.{
  ℕ, zero, suc, ◌≡◌, refl, sym, ap, ◌∙◌, inl, inr, ◌↔◌, Bool, true, false, ◌||◌, Option, none, some,
  List, [], ◌∷◌, ◌++◌, arith, Bool-cases, subst,
}
use supervisor_harness.Text.{Text, text_eq, mem, mem-cons, mem-append, text_eq_iff, text_eq_refl}
use supervisor_harness.Plan.Graph.{Deps, successors, search, rounds, depends_on}
use supervisor_harness.Plan.Graph.Walk.{Walk, direct, through, Waits}
use supervisor_harness.Plan.Graph.Search.{
  mem-reverse, search-hit, search-skip, search-push, search-rounds,
}

mem-head : (c : Text) (rest : List Text) → mem c (c ∷ rest) ≡ true
mem-head c rest = ground (arith, mem-cons c c rest, text_eq_refl c)

mem-tail : (v c : Text) (rest : List Text) → mem v rest ≡ true → mem v (c ∷ rest) ≡ true
mem-tail v c rest h = ground (arith, mem-cons v c rest)

pub mem_nil : (v : Text) → mem v [] ≡ false
unfolding mem
mem_nil v = refl

none≢some : {b : Bool} → ◌≡◌ {A = Option Bool} none (some b) → ⊥
none≢some h = cc h

some-true_neq : some true ≡ some false → ⊥
some-true_neq e = cc e

pub Walk-on :
    {deps : Deps} {n : ℕ} {t u v : Text}
    → Walk deps n t u
    → mem v (successors deps u) ≡ true
    → Walk deps (suc n) t v
Walk-on (direct e) h = through e (direct h)
Walk-on (through e w) h = through e (Walk-on w h)

-- What takes the place of `c` on the stack is at the end of a chain when `c` is.
pushed-Waits :
    (deps : Deps) (t c : Text) (rest : List Text)
    → ((v : Text) → mem v (c ∷ rest) ≡ true → Waits deps t v)
    → (v : Text) → mem v (reverse (successors deps c) ++ rest) ≡ true
    → Waits deps t v
pushed-Waits deps t c rest h v q = elim (Bool-cases (mem v (successors deps c))) [
  | inl e ↦ let (n, w) = h c (mem-head c rest) in (suc n, Walk-on w e)
  | inr e ↦ h v (
      mem-tail v c rest (
        ground (
          arith,
          q,
          mem-append v (reverse (successors deps c)) rest,
          mem-reverse v (successors deps c),
        )))
]

-- A yes is a chain, when every id on the stack is the end of one.
search_sound :
    (fuel : ℕ) (deps : Deps) (t other : Text) (seen stack : List Text)
    → ((v : Text) → mem v stack ≡ true → Waits deps t v)
    → search fuel deps other seen stack ≡ some true
    → Waits deps t other
unfolding search
search_sound zero deps t other seen stack h k = absurd (none≢some k)
search_sound (suc fuel) deps t other seen [] h k = absurd (some-true_neq (sym k))
search_sound (suc fuel) deps t other seen (c ∷ rest) h k = elim (Bool-cases (text_eq c other)) [
  | inl e ↦ subst (Waits deps t) ((text_eq_iff c other).0 e) (h c (mem-head c rest))
  | inr e ↦ elim (Bool-cases (mem c seen)) [
    | inl m ↦
        search_sound fuel deps t other seen rest (λ v q. h v (mem-tail v c rest q))
          (sym (search-skip fuel deps other seen c rest e m) ∙ k)
    | inr m ↦
        search_sound fuel deps t other (c ∷ seen) (reverse (successors deps c) ++ rest)
          (λ v q. pushed-Waits deps t c rest h v q)
          (sym (search-push fuel deps other seen c rest e m) ∙ k)
  ]
]

-- The ids that were seen lead only to ids that were seen or wait on the stack, and are not `other`.
pub record IsClosed (deps : Deps) (other : Text) (seen stack : List Text) : Type 0 where
  pub fresh : mem other seen ≡ false
  pub next :
      (u v : Text)
      → mem u seen ≡ true
      → mem v (successors deps u) ≡ true
      → (mem v seen || mem v stack) ≡ true

pushed_next :
    (deps : Deps) (seen : List Text) (c : Text) (rest : List Text)
    → ((u v : Text)
        → mem u seen ≡ true
        → mem v (successors deps u) ≡ true
        → (mem v seen || mem v (c ∷ rest)) ≡ true)
    → (u v : Text) → mem u (c ∷ seen) ≡ true
    → mem v (successors deps u) ≡ true
    → (mem v (c ∷ seen) || mem v (reverse (successors deps c) ++ rest)) ≡ true
pushed_next deps seen c rest h u v p q = ground (
  arith,
  p,
  q,
  h u v,
  mem-cons v c seen,
  mem-cons u c seen,
  mem-cons v c rest,
  text_eq_iff c u,
  mem-append v (reverse (successors deps c)) rest,
  mem-reverse v (successors deps c),
)

-- A no leaves a closed set of ids that holds all that were on the stack.
search-IsClosed :
    (fuel : ℕ) (deps : Deps) (other : Text) (seen stack : List Text)
    → IsClosed deps other seen stack
    → search fuel deps other seen stack ≡ some false
    → (final : List Text) × IsClosed deps other final []
      × ((v : Text) → (mem v seen || mem v stack) ≡ true → mem v final ≡ true)
unfolding search
search-IsClosed zero deps other seen stack h k = absurd (none≢some k)
search-IsClosed (suc fuel) deps other seen [] h k = (seen, h, λ v q. ground (arith, q, mem_nil v))
search-IsClosed (suc fuel) deps other seen (c ∷ rest) h k = elim (Bool-cases (text_eq c other)) [
  | inl e ↦ absurd (some-true_neq (sym (search-hit fuel deps other seen c rest e) ∙ k))
  | inr e ↦ elim (Bool-cases (mem c seen)) [
    | inl m ↦
        let (final, closed, holds) =
          search-IsClosed fuel deps other seen rest
            (record {
              fresh = h.fresh;
              next = λ u v p q.
                  (ground (arith, h.next u v p q, mem-cons v c rest, text_eq_iff c v, m));
            })
            (sym (search-skip fuel deps other seen c rest e m) ∙ k) in
        (final, closed, λ v q. holds v (ground (arith, q, mem-cons v c rest, text_eq_iff c v, m)))
    | inr m ↦
        let pushed = reverse (successors deps c) in
        let (final, closed, holds) =
          search-IsClosed fuel deps other (c ∷ seen) (pushed ++ rest)
            (record {
              fresh = ground (arith, h.fresh, mem-cons other c seen, e);
              next = λ u v p q. pushed_next deps seen c rest h.next u v p q;
            })
            (sym (search-push fuel deps other seen c rest e m) ∙ k) in
        (
          final,
          closed,
          λ v q.
              holds v
                (ground (arith, q, mem-cons v c rest, mem-cons v c seen, mem-append v pushed rest)),
        )
  ]
]

IsClosed-Walk :
    {deps : Deps} {other : Text} {final : List Text} {n : ℕ} {u : Text}
    → IsClosed deps other final []
    → Walk deps n u other
    → mem u final ≡ true
    → ⊥
IsClosed-Walk {other} {u} h (direct e) m =
    absurd (true≢false (sym (ground (arith, h.next u other m e, mem_nil other)) ∙ h.fresh))
IsClosed-Walk {final} h (through {t} {u} e w) m =
    IsClosed-Walk h w (ground (arith, h.next t u m e, mem_nil u))

pub IsClosed-start : (deps : Deps) (other : Text) (stack : List Text) → IsClosed deps other [] stack
unfolding mem
IsClosed-start deps other stack = record {
  fresh = refl;
  next = λ u v p q. absurd (true≢false (sym p));
}

-- No chain leaves a closed set that holds the ids that a task depends on.
pub stuck :
    {deps : Deps} {t other : Text} {final : List Text} {n : ℕ}
    → IsClosed deps other final []
    → ((v : Text) → mem v (successors deps t) ≡ true → mem v final ≡ true)
    → Walk deps n t other
    → ⊥
stuck {other} h holds (direct e) = absurd (true≢false (sym (holds other e) ∙ h.fresh))
stuck h holds (through {u} e w) = IsClosed-Walk h w (holds u e)

-- The answer of `_depends_on` is yes exactly when a chain of dependencies leads from the task to
-- the other, whatever the dependencies are, cycles among them included.
pub depends_on-Waits :
    (deps : Deps) (t other : Text) → (depends_on deps t other ≡ true) ↔ Waits deps t other
unfolding depends_on
depends_on-Waits deps t other =
    let stack = reverse (successors deps t) in
    let (b, ends) = search-rounds deps other stack in
    (
      λ h.
          search_sound (rounds deps [] stack) deps t other [] stack
            (λ v q. (0, direct (sym (mem-reverse v (successors deps t)) ∙ q)))
            (ground (arith, h, ends)),
      λ (n, w). elim (Bool-cases b) [
        | inl y ↦ ground (arith, ends, y)
        | inr n ↦ absurd (
            let (final, closed, holds) =
              search-IsClosed (rounds deps [] stack) deps other [] stack
                (IsClosed-start deps other stack) (ends ∙ ap some n) in
            stuck closed
              (λ v m. holds v (ground (arith, m, mem-reverse v (successors deps t), mem_nil v))) w)
      ],
    )
