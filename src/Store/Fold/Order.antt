-- ===== src/Store/Fold/Order.antt =====
-- store/events.py: the order in which events are handed to the fold.
use supervisor_harness.Prelude.{◌≡◌, refl, ap, ◌∙◌, subst, false, List, [], ◌∷◌, ◌==◌, arith, All}
use supervisor_harness.Store.Fold.State.{RunState}
use supervisor_harness.Store.Fold.Events.{Event}
use supervisor_harness.Store.Fold.Project.{insert, sorted, apply_all, fold}
use mathlib.Core.List.{Permᴰ}
use mathlib.Core.List.Permᴰ.{nil, cons, swap, trans}

-- No two events of the list carry one sequence number.
abbrev pub Differs : Event → Event → Type 0
Differs e f = (Event.seq e == Event.seq f) ≡ false

abbrev pub Distinct : List Event → Type 0
Distinct [] = Unit
Distinct (e ∷ events) = All (Differs e) events × Distinct events

insert-swap :
    (a b : Event) (events : List Event)
    → Differs a b
    → insert a (insert b events) ≡ insert b (insert a events)
unfolding insert
insert-swap a b [] h = ground arith
insert-swap a b (e ∷ events) h = ground (arith, insert-swap a b events h)

All-Perm : (P : Event → Type 0) {l m : List Event} → Permᴰ l m → All P l → All P m
All-Perm P nil h = h
All-Perm P (cons e p) (h, k) = (subst P e h, All-Perm P p k)
All-Perm P (swap d e) (h, (k, r)) = (subst P e k, (subst P d h, r))
All-Perm P (trans p q) h = All-Perm P q (All-Perm P p h)

Differs-sym : (e f : Event) → Differs e f → Differs f e
Differs-sym e f h = ground arith

Distinct-Perm : {l m : List Event} → Permᴰ l m → Distinct l → Distinct m
Distinct-Perm nil h = h
Distinct-Perm (cons {b = b} {l₁ = l} e p) (h, k) =
    (All-Perm (Differs b) p (subst (λ x. All (Differs x) l) e h), Distinct-Perm p k)
Distinct-Perm (swap {a = a} {b = b} {b' = c} {l = l} d e) ((h, hs), (ks, r)) = (
  (
    subst (λ x. Differs x c) e (subst (Differs b) d (Differs-sym a b h)),
    subst (λ x. All (Differs x) l) e ks,
  ),
  (subst (λ x. All (Differs x) l) d hs, r),
)
Distinct-Perm (trans p q) h = Distinct-Perm q (Distinct-Perm p h)

sorted-Perm : {l m : List Event} → Permᴰ l m → Distinct l → sorted l ≡ sorted m
unfolding sorted
sorted-Perm nil h = refl
sorted-Perm (cons {a = a} {l₂ = m} e p) (h, k) =
    ap (insert a) (sorted-Perm p k) ∙ ap (λ x. insert x (sorted m)) e
sorted-Perm (swap {a = a} {b = b} {a' = c} {l = l} d e) ((h, hs), r) =
    insert-swap a b (sorted l) h
    ∙ ap (λ x. insert x (insert a (sorted l))) e
    ∙ ap (λ x. insert c (insert x (sorted l))) d
sorted-Perm (trans p q) h = sorted-Perm p h ∙ sorted-Perm q (Distinct-Perm p h)

-- The state is the same in whatever order the events are read, when no two carry one number.
pub fold-Perm : (l m : List Event) (s : RunState) → Permᴰ l m → Distinct l → fold l s ≡ fold m s
unfolding fold
fold-Perm l m s p h = ap (apply_all s) (sorted-Perm p h)
