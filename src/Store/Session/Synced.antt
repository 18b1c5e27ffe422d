-- ===== src/Store/Session/Synced.antt =====
-- store/runstore.py: a session's state beside the events of its log, as events are taken in.
use supervisor_harness.Prelude.{
  ℕ, suc, ◌+◌, ◌≤◌, ◌≡◌, refl, sym, ap, ◌∙◌, false, some, List, [], ◌∷◌, ◌++◌, length, append-nil,
  append_assoc, arith, All, subst,
}
use supervisor_harness.Text.{Text}
use supervisor_harness.Store.Lines.{Bytes}
use supervisor_harness.Store.EventLog.{
  Codec, Lawful, last_seq_unlocked, append, append_many, number_all,
}
use supervisor_harness.Store.EventLog.Written.{append-last_seq}
use supervisor_harness.Store.EventLog.Batch.{append_all, append_many-append_all, append-some}
use supervisor_harness.Store.EventLog.Reread.{number_events}
use supervisor_harness.Store.Fold.State.{RunState}
use supervisor_harness.Store.Fold.Events.{Event}
use supervisor_harness.Store.Fold.OnRun.{larger}
use supervisor_harness.Store.Fold.Project.{apply_contained, apply_all, sorted, fold}
use supervisor_harness.Store.Session.{with_seq, with_seqs}
use supervisor_harness.Store.Session.Sorted.{fold_last}
use supervisor_harness.Store.Session.Identity.{
  is_genesis, apply_contained-id, apply_contained-damaged_lines, apply_contained-last_seq,
}

-- Not the record that a run begins with.
abbrev pub IsLater : Event → Type 0
IsLater e = is_genesis e.body ≡ false

abbrev pub IsUpTo : ℕ → Event → Type 0
IsUpTo n e = Event.seq e ≤ n

-- The state is the fold of the events, whose numbers go up to `n`.
pub record Synced (run_id : Text) (initial : RunState) (events : List Event) (n : ℕ)
    (state : RunState) : Type 0 where
  pub below : All (IsUpTo n) events
  pub folds : state ≡ fold (sorted events) initial
  pub named : state.id ≡ run_id
  pub clean : state.damaged_lines ≡ 0
  pub watermark : state.last_seq ≤ n

All-IsUpTo : (m n : ℕ) (es : List Event) → m ≤ n → All (IsUpTo m) es → All (IsUpTo n) es
All-IsUpTo m n [] le h = tt
All-IsUpTo m n (e ∷ es) le (p, h) = (omega arith, All-IsUpTo m n es le h)

All-snoc :
    (P : Event → Type 0) (es : List Event) (e : Event) → All P es → P e → All P (es ++ e ∷ [])
All-snoc P [] e h p = (p, tt)
All-snoc P (f ∷ es) e (q, h) p = (q, All-snoc P es e h p)

larger_le : (a b n : ℕ) → a ≤ n → b ≤ n → larger a b ≤ n
larger_le a b n h k = ground arith

module _ (run_id : Text) (initial : RunState) where
  Synced-apply_contained :
      (events : List Event) (n : ℕ) (state : RunState) (e : Event)
      → IsLater e
      → Synced run_id initial events n state
      → Synced run_id initial
          (events ++ with_seq (suc n) e ∷ [])
          (suc n)
          (apply_contained state (with_seq (suc n) e))
  Synced-apply_contained events n state e later h =
      let event = with_seq (suc n) e in
      let below = All-IsUpTo n (suc n) events (omega arith) h.below in
      record {
        below = All-snoc (IsUpTo (suc n)) events event below (omega arith);
        folds =
            ap (λ z. apply_contained z event) h.folds ∙ sym (fold_last events event initial below);
        named = apply_contained-id state event later ∙ h.named;
        clean = apply_contained-damaged_lines state event ∙ h.clean;
        watermark =
            let top : larger state.last_seq (suc n) ≤ suc n =
              larger_le state.last_seq (suc n) (suc n) (omega (arith, h.watermark)) (omega arith) in
            omega (arith, apply_contained-last_seq state event, top);
      }

  pub Synced-apply_all :
      (es events : List Event) (n : ℕ) (state : RunState)
      → All IsLater es
      → Synced run_id initial events n state
      → Synced run_id initial
          (events ++ number_events with_seq (suc n) es)
          (n + length es)
          (apply_all state (number_events with_seq (suc n) es))
  unfolding number_events apply_all
  Synced-apply_all [] events n state later h =
      subst (λ z. Synced run_id initial z (n + 0) state) (sym (append-nil events))
        (subst (λ z. Synced run_id initial events z state) (omega arith) h)
  Synced-apply_all (e ∷ es) events n state (l, later) h =
      let event = with_seq (suc n) e in
      let rest = number_events with_seq (suc (suc n)) es in
      let after = apply_all (apply_contained state event) rest in
      let more =
        Synced-apply_all es (events ++ event ∷ []) (suc n) (apply_contained state event) later
          (Synced-apply_contained events n state e l h) in
      subst (λ z. Synced run_id initial z (n + length (e ∷ es)) after)
        (append_assoc events (event ∷ []) rest)
        (subst (λ z. Synced run_id initial ((events ++ event ∷ []) ++ rest) z after) (omega arith)
          more)

pub with_seqs-number_all :
    (codec : Codec Event) (n : ℕ) (es : List Event)
    → with_seqs (number_all codec n es) es ≡ number_events with_seq n es
unfolding with_seqs number_all number_events
with_seqs-number_all codec n [] = refl
with_seqs-number_all codec n (e ∷ es) =
    ap (λ z. with_seq n e ∷ z) (with_seqs-number_all codec (suc n) es)

module _ (codec : Codec Event) (lawful : Lawful codec) where
  append_all-last_seq :
      (es : List Event) (b : Bytes) (n : ℕ)
      → last_seq_unlocked codec b ≡ some n
      → last_seq_unlocked codec (append_all codec es b) ≡ some (n + length es)
  unfolding append_all
  append_all-last_seq [] b n h = h ∙ ap some (omega arith)
  append_all-last_seq (e ∷ es) b n h =
      append_all-last_seq es (append codec e b).0 (suc n)
        (append-last_seq codec lawful e b ∙ ap (λ p. p.1) (append-some codec e b n h))
      ∙ ap some (omega arith)

  -- The last number after a batch.
  pub append_many-last_seq :
      (es : List Event) (b : Bytes) (n : ℕ)
      → last_seq_unlocked codec b ≡ some n
      → last_seq_unlocked codec (append_many codec es b).0 ≡ some (n + length es)
  append_many-last_seq es b n h =
      ap (last_seq_unlocked codec) (append_many-append_all codec lawful es b)
      ∙ append_all-last_seq es b n h
