-- ===== src/Store/Session/Numbered.antt =====
-- store/runstore.py: events with the numbers that the log gives them, in the order of the fold.
use supervisor_harness.Prelude.{
  ℕ, suc, ◌+◌, ◌≡◌, ◌≤◌, ap, ◌∙◌, List, [], ◌∷◌, ◌++◌, length, arith, All,
}
use supervisor_harness.Store.EventLog.Reread.{number_events}
use supervisor_harness.Store.Fold.State.{RunState}
use supervisor_harness.Store.Fold.Events.{Event}
use supervisor_harness.Store.Fold.Project.{apply_all, sorted, fold}
use supervisor_harness.Store.Session.{with_seq}
use supervisor_harness.Store.Session.Sorted.{sorted_ordered, IsOrdered}

number_events-All :
    (m n : ℕ) (es : List Event) → m ≤ n → All (λ f. m ≤ Event.seq f) (number_events with_seq n es)
unfolding number_events
number_events-All m n [] h = tt
number_events-All m n (e ∷ es) h = (h, number_events-All m (suc n) es (omega arith))

number_events-IsOrdered : (n : ℕ) (es : List Event) → IsOrdered (number_events with_seq n es)
unfolding number_events
number_events-IsOrdered n [] = tt
number_events-IsOrdered n (e ∷ es) =
    (number_events-All n (suc n) es (omega arith), number_events-IsOrdered (suc n) es)

-- The fold of numbered events takes them as they come.
pub fold-number_events :
    (n : ℕ) (es : List Event) (s : RunState)
    → fold (sorted (number_events with_seq n es)) s ≡ apply_all s (number_events with_seq n es)
unfolding fold
fold-number_events n es s =
    let alike = sorted_ordered (number_events with_seq n es) (number_events-IsOrdered n es) in
    ap (λ z. apply_all s (sorted z)) alike ∙ ap (apply_all s) alike

pub number_events-append :
    (n : ℕ) (xs ys : List Event)
    → number_events with_seq n (xs ++ ys)
      ≡ number_events with_seq n xs ++ number_events with_seq (n + length xs) ys
unfolding number_events
number_events-append n [] ys = ap (λ z. number_events with_seq z ys) (omega arith)
number_events-append n (x ∷ xs) ys =
    ap (λ z. with_seq n x ∷ z)
      (number_events-append (suc n) xs ys
        ∙ ap (λ z. number_events with_seq (suc n) xs ++ number_events with_seq z ys) (omega arith))

pub All-left : (P : Event → Type 0) (xs ys : List Event) → All P (xs ++ ys) → All P xs
All-left P [] ys h = tt
All-left P (x ∷ xs) ys (p, h) = (p, All-left P xs ys h)

pub All-right : (P : Event → Type 0) (xs ys : List Event) → All P (xs ++ ys) → All P ys
All-right P [] ys h = h
All-right P (x ∷ xs) ys (p, h) = All-right P xs ys h
