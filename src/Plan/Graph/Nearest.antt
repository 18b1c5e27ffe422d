-- ===== src/Plan/Graph/Nearest.antt =====
-- core/requirements.py, `_distance`: the answer is the length of the shortest chain.
use mathlib.Core.Bool.{true≢false}
use supervisor_harness.Prelude.{
  ℕ, zero, suc, ◌≤◌, ◌<◌, ◌≡◌, sym, ap, ◌∙◌, inl, inr, true, false, ◌||◌, Option, none, some, List,
  [], ◌∷◌, ◌++◌, length, arith, Bool-cases, subst,
}
use supervisor_harness.Text.{Text, mem, mem-append}
use supervisor_harness.Plan.Graph.{Deps, successors, onward, nearest, distance, settled}
use supervisor_harness.Plan.Graph.Walk.{Walk, direct, through, Waits}
use supervisor_harness.Plan.Graph.Chains.{IsClosed, IsClosed-start, mem_nil, stuck, Walk-on}
use supervisor_harness.Plan.Graph.Distance.{
  mem-gather, gather-mem, mem-onward, nearest-found, nearest-onward, nearest-rounds,
}

-- The number of dependencies on the shortest chain from `t` to `o`, none where there is no chain.
pub data Shortest (deps : Deps) (t o : Text) : Option ℕ → Type 0 where
  apart : ¬ Waits deps t o → Shortest deps t o none
  chain :
      {n : ℕ}
      → Walk deps n t o
      → ((m : ℕ) → Walk deps m t o → n ≤ m)
      → Shortest deps t o (some (suc n))

-- The last dependency of a chain.
Walk-last :
    {deps : Deps} {n : ℕ} {t v : Text}
    → Walk deps (suc n) t v
    → (u : Text) × Walk deps n t u × (mem v (successors deps u) ≡ true)
Walk-last {n = zero} (through {u} e (direct h)) = (u, direct e, h)
Walk-last {n = suc n} (through e w) = let (u, w', h) = Walk-last w in (u, through e w', h)

module _ (deps : Deps) (t other : Text) where
  -- After `k` rounds: what the frontier and the seen ids hold.
  record Rounds (k : ℕ) (seen frontier : List Text) : Type 0 where
    closed : IsClosed deps other seen frontier
    front : (v : Text) → mem v frontier ≡ true → Walk deps k t v
    before : (m : ℕ) (v : Text) → Walk deps m t v → m < k → mem v seen ≡ true
    near : (m : ℕ) (v : Text) → Walk deps m t v → m ≤ k → (mem v seen || mem v frontier) ≡ true

  first : (m : ℕ) (v : Text) → Walk deps m t v → m ≤ 0 → mem v (successors deps t) ≡ true
  first m v (direct e) h = e
  first m v (through e w) h = absurd (omega arith)

  Rounds-start : Rounds 0 [] (successors deps t)
  Rounds-start = record {
    closed = IsClosed-start deps other (successors deps t);
    front = λ v m. direct m;
    before = λ m v w h. absurd (omega arith);
    near = λ m v w h. (ground (arith, mem_nil v, first m v w h));
  }

  module _ (k : ℕ) (seen frontier : List Text) (h : Rounds k seen frontier) where
    abbrev after : List Text
    after = seen ++ frontier

    IsClosed-onward :
        mem other frontier ≡ false → IsClosed deps other after (onward deps after frontier)
    IsClosed-onward e = record {
      fresh = ground (arith, h.closed.fresh, e, mem-append other seen frontier);
      next = λ u v p q. ground (
        arith,
        p,
        h.closed.next u v,
        q,
        mem-append u seen frontier,
        mem-append v seen frontier,
        mem-onward deps v after frontier,
        gather-mem deps u v frontier,
      );
    }

    near_onward :
        IsClosed deps other after (onward deps after frontier)
        → (m : ℕ) (v : Text) → Walk deps m t v
        → m ≤ suc k
        → (mem v after || mem v (onward deps after frontier)) ≡ true
    near_onward c zero v w le = ground (arith, h.near 0 v w, mem-append v seen frontier)
    near_onward c (suc m) v w le =
        let (u, w', e) = Walk-last w in
        c.next u v (mem-append u seen frontier ∙ h.near m u w' (omega arith)) e

    Rounds-onward : mem other frontier ≡ false → Rounds (suc k) after (onward deps after frontier)
    Rounds-onward e = record {
      closed = IsClosed-onward e;
      front = λ v m.
          let (u, p, q) =
            mem-gather deps v frontier (ground (arith, m, mem-onward deps v after frontier)) in
          Walk-on (h.front u p) q;
      before = λ m v w le. mem-append v seen frontier ∙ h.near m v w (omega arith);
      near = near_onward (IsClosed-onward e);
    }

  least :
      (k : ℕ) (seen frontier : List Text)
      → Rounds k seen frontier
      → (m : ℕ) → Walk deps m t other
      → k ≤ m
  least k seen frontier h m w =
      let late : ¬ (m < k) = λ lt. true≢false (sym (h.before m other w lt) ∙ h.closed.fresh) in
      omega arith

  nearest_answer :
      (fuel k : ℕ) (seen frontier : List Text) (answer : Option ℕ)
      → Rounds k seen frontier
      → nearest fuel deps other seen (suc k) frontier ≡ some answer
      → Shortest deps t other answer
  unfolding nearest
  nearest_answer zero k seen frontier answer h e = absurd (cc e)
  nearest_answer (suc fuel) k seen [] answer h e =
      subst (Shortest deps t other) (ground (arith, e)) (
        apart
          (λ (n, w). stuck h.closed (λ v m. ground (arith, h.near 0 v (direct m), mem_nil v)) w))
  nearest_answer (suc fuel) k seen (f ∷ rest) answer h e =
      elim (Bool-cases (mem other (f ∷ rest))) [
        | inl m ↦
            subst (Shortest deps t other)
              (ground (arith, sym (nearest-found fuel deps other seen (suc k) f rest m) ∙ e))
              (chain (h.front other m) (least k seen (f ∷ rest) h))
        | inr m ↦
            nearest_answer fuel (suc k) (seen ++ f ∷ rest)
              (onward deps (seen ++ f ∷ rest) (f ∷ rest)) answer
              (Rounds-onward k seen (f ∷ rest) h m)
              (sym (nearest-onward fuel deps other seen (suc k) f rest m) ∙ e)
      ]

-- What `_distance` returns is the number of dependencies on the shortest chain from the task to the
-- other, and none exactly where no chain leads there.
pub distance-Shortest :
    (deps : Deps) (t other : Text) → Shortest deps t other (distance deps t other)
unfolding distance
distance-Shortest deps t other =
    let (answer, ends) = nearest-rounds deps other (successors deps t) in
    subst (Shortest deps t other) (sym (ap settled ends)) (
      nearest_answer deps t other (suc (suc (length deps))) 0 [] (successors deps t) answer
        (Rounds-start deps t other) ends)
