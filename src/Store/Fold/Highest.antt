-- ===== src/Store/Fold/Highest.antt =====
-- store/events.py: the watermark and the counter of checkpoints after a fold.
use supervisor_harness.Prelude.{ℕ, ◌≡◌, refl, ap, ◌∙◌, List, [], ◌∷◌, arith, some, none}
use supervisor_harness.Store.Fold.State.{RunState}
use supervisor_harness.Store.Fold.Events.{Event}
use supervisor_harness.Store.Fold.OnRun.{Handled, larger}
use supervisor_harness.Store.Fold.Project.{
  handle, stamp, apply, rejected, apply_contained, insert, sorted, apply_all, fold,
}
use supervisor_harness.Store.Fold.Kept.{Kept, handle-Kept, reached}

-- The highest value of `f` in a list of events.
unfoldable pub highest : (Event → ℕ) → List Event → ℕ
highest f [] = 0
highest f (e ∷ events) = larger (f e) (highest f events)

highest-insert :
    (f : Event → ℕ) (e : Event) (events : List Event)
    → highest f (insert e events) ≡ larger (f e) (highest f events)
unfolding highest insert
highest-insert f e [] = refl
highest-insert f e (d ∷ events) = ground (arith, highest-insert f e events)

pub highest-sorted :
    (f : Event → ℕ) (events : List Event) → highest f (sorted events) ≡ highest f events
unfolding highest sorted
highest-sorted f [] = refl
highest-sorted f (e ∷ events) =
    ground (arith, highest-insert f e (sorted events), highest-sorted f events)

rejected-last_seq :
    (event : Event) (h : Handled) → (rejected event (stamp event h)).last_seq ≡ h.0.last_seq
unfolding rejected stamp
rejected-last_seq event (s, none) = refl
rejected-last_seq event (s, some why) = refl

rejected-iteration :
    (event : Event) (h : Handled)
    → (rejected event (stamp event h)).checkpoint_iteration ≡ h.0.checkpoint_iteration
unfolding rejected stamp
rejected-iteration event (s, none) = refl
rejected-iteration event (s, some why) = refl

reached_by : Event → ℕ
reached_by e = reached e.body

apply_contained-last_seq :
    (s : RunState) (e : Event) → (apply_contained s e).last_seq ≡ larger s.last_seq e.seq
unfolding apply_contained apply
apply_contained-last_seq s e =
    ap (λ n. larger n e.seq)
      (rejected-last_seq e (handle e.body s e) ∙ Kept.last_seq (handle-Kept e.body s e))

apply_contained-iteration :
    (s : RunState) (e : Event)
    → (apply_contained s e).checkpoint_iteration ≡ larger s.checkpoint_iteration (reached e.body)
unfolding apply_contained apply
apply_contained-iteration s e =
    rejected-iteration e (handle e.body s e) ∙ Kept.iteration (handle-Kept e.body s e)

apply_all-highest :
    (s : RunState) (events : List Event)
    → ((apply_all s events).last_seq ≡ larger s.last_seq (highest Event.seq events))
      × ((apply_all s events).checkpoint_iteration
          ≡ larger s.checkpoint_iteration (highest (λ e. reached (Event.body e)) events))
unfolding apply_all highest
apply_all-highest s [] = ground arith
apply_all-highest s (e ∷ events) = ground (
  arith,
  apply_all-highest (apply_contained s e) events,
  apply_contained-last_seq s e,
  apply_contained-iteration s e,
)

-- After a fold, whatever the order of the events and whichever of them could not be applied, the
-- watermark is the highest sequence number seen and the counter of checkpoints the highest
-- iteration reached; the state that the fold starts from counts too.
pub fold-highest :
    (events : List Event) (s : RunState)
    → ((fold events s).last_seq ≡ larger s.last_seq (highest Event.seq events))
      × ((fold events s).checkpoint_iteration
          ≡ larger s.checkpoint_iteration (highest (λ e. reached (Event.body e)) events))
unfolding fold
fold-highest events s = ground (
  arith,
  apply_all-highest s (sorted events),
  highest-sorted Event.seq events,
  highest-sorted (λ e. reached (Event.body e)) events,
)
