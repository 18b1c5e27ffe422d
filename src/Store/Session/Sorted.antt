-- ===== src/Store/Session/Sorted.antt =====
-- store/events.py: the events that are appended come last in the order of the fold.
use supervisor_harness.Prelude.{
  ◌≤◌, ◌≡◌, refl, sym, ap, ◌∙◌, inl, inr, List, [], ◌∷◌, ◌++◌, arith, All, Bool-cases, leb,
}
use supervisor_harness.Store.Fold.State.{RunState}
use supervisor_harness.Store.Fold.Events.{Event}
use supervisor_harness.Store.Fold.Project.{insert, sorted, apply_all, apply_contained, fold}

-- The numbers do not fall.
abbrev pub IsOrdered : List Event → Type 0
IsOrdered [] = Unit
IsOrdered (e ∷ es) = All (λ f. Event.seq e ≤ Event.seq f) es × IsOrdered es

All-insert :
    (P : Event → Type 0) (e : Event) (es : List Event) → P e → All P es → All P (insert e es)
unfolding insert
All-insert P e [] p h = (p, tt)
All-insert P e (f ∷ es) p (q, h) = elim (Bool-cases (leb (Event.seq e) (Event.seq f))) [
  | inl y ↦ rw (insert, y) (p, (q, h))
  | inr n ↦ rw (insert, n) (q, All-insert P e es p h)
]

All-weaken :
    (a b : Event) (es : List Event)
    → Event.seq a ≤ Event.seq b
    → All (λ f. Event.seq b ≤ Event.seq f) es
    → All (λ f. Event.seq a ≤ Event.seq f) es
All-weaken a b [] le h = tt
All-weaken a b (f ∷ es) le (q, h) = (omega arith, All-weaken a b es le h)

insert-IsOrdered : (e : Event) (es : List Event) → IsOrdered es → IsOrdered (insert e es)
unfolding insert
insert-IsOrdered e [] h = (tt, tt)
insert-IsOrdered e (f ∷ es) (below, h) = elim (Bool-cases (leb (Event.seq e) (Event.seq f))) [
  | inl y ↦
      let le : Event.seq e ≤ Event.seq f = ground arith in
      rw (insert, y) ((le, All-weaken e f es le below), (below, h))
  | inr n ↦
      rw (insert, n)
        (
          All-insert (λ g. Event.seq f ≤ Event.seq g) e es (ground arith) below,
          insert-IsOrdered e es h,
        )
]

sorted-IsOrdered : (es : List Event) → IsOrdered (sorted es)
unfolding sorted
sorted-IsOrdered [] = tt
sorted-IsOrdered (e ∷ es) = insert-IsOrdered e (sorted es) (sorted-IsOrdered es)

insert_least :
    (e : Event) (es : List Event) → All (λ f. Event.seq e ≤ Event.seq f) es → insert e es ≡ e ∷ es
unfolding insert
insert_least e [] h = refl
insert_least e (f ∷ es) (le, h) = ground arith

pub sorted_ordered : (es : List Event) → IsOrdered es → sorted es ≡ es
unfolding sorted
sorted_ordered [] h = refl
sorted_ordered (e ∷ es) (below, h) = ap (insert e) (sorted_ordered es h) ∙ insert_least e es below

pub sorted_twice : (es : List Event) → sorted (sorted es) ≡ sorted es
sorted_twice es = sorted_ordered (sorted es) (sorted-IsOrdered es)

insert_before :
    (e last : Event) (es : List Event)
    → Event.seq e ≤ Event.seq last
    → insert e (es ++ last ∷ []) ≡ insert e es ++ last ∷ []
unfolding insert
insert_before e last [] le = ground arith
insert_before e last (f ∷ es) le = ground (arith, insert_before e last es le)

-- An event whose number none exceeds is the last.
sorted_last :
    (es : List Event) (last : Event)
    → All (λ e. Event.seq e ≤ Event.seq last) es
    → sorted (es ++ last ∷ []) ≡ sorted es ++ last ∷ []
unfolding sorted
sorted_last [] last h = refl
sorted_last (e ∷ es) last (le, h) =
    ap (insert e) (sorted_last es last h) ∙ insert_before e last (sorted es) le

apply_all-append :
    (s : RunState) (es : List Event) (e : Event)
    → apply_all s (es ++ e ∷ []) ≡ apply_contained (apply_all s es) e
unfolding apply_all
apply_all-append s [] e = refl
apply_all-append s (f ∷ es) e = apply_all-append (apply_contained s f) es e

-- The fold of a log with one more event is the fold of the log with that event applied.
pub fold_last :
    (es : List Event) (last : Event) (s : RunState)
    → All (λ e. Event.seq e ≤ Event.seq last) es
    → fold (sorted (es ++ last ∷ [])) s ≡ apply_contained (fold (sorted es) s) last
unfolding fold
fold_last es last s h =
    ap (apply_all s) (sorted_twice (es ++ last ∷ []) ∙ sorted_last es last h)
    ∙ apply_all-append s (sorted es) last
    ∙ ap (λ z. apply_contained (apply_all s z) last) (sym (sorted_twice es))
