-- ===== src/Lifecycle/Emit.antt =====
-- store/runstore.py, `emit` and `emit_many` on a log whose last number is found, as the callers of a
-- session see them.
use supervisor_harness.Prelude.{ℕ, suc, ◌≡◌, refl, ap, ◌∙◌, some, List, [], ◌∷◌, arith}
use supervisor_harness.Store.EventLog.{Codec, Lawful, last_seq_unlocked, append, append_many}
use supervisor_harness.Store.EventLog.Reread.{number_events}
use supervisor_harness.Store.Fold.Events.{Event}
use supervisor_harness.Store.Fold.Project.{apply_contained, apply_all}
use supervisor_harness.Store.Session.{
  Write, landed, refused, escaped, Session, with_seq, with_seqs, returned, take_in, emit, emit_many,
}
use supervisor_harness.Store.Session.Synced.{append_many-last_seq, with_seqs-number_all}
use supervisor_harness.Store.Session.Emitted.{emit-taken, emit_many-taken, emit_many-nil}

-- No error escapes from the write of the snapshot.
abbrev pub IsContained : Write → Type 0
IsContained landed = Unit
IsContained refused = Unit
IsContained escaped = ⊥

abbrev pub IsNumbered : Codec Event → ℕ → Session → Type 0
IsNumbered codec n s = last_seq_unlocked codec s.log ≡ some n

returned-some : {A : Type 0} (write : Write) (a : A) → IsContained write → returned write a ≡ some a
unfolding returned
returned-some landed a h = refl
returned-some refused a h = refl
returned-some escaped a h = absurd h

module _ (codec : Codec Event) (lawful : Lawful codec) (write : Write) (s : Session) (n : ℕ)
    (h : IsNumbered codec n s) where
  pub emit-some :
      (e : Event) → IsContained write → (emit codec write e s).1 ≡ some (with_seq (suc n) e)
  unfolding emit append
  emit-some e c = rw (emit, append, h) (returned-some write (with_seq (suc n) e) c)

  pub emit-state :
      (e : Event) → (emit codec write e s).0.state ≡ apply_contained s.state (with_seq (suc n) e)
  unfolding take_in number_events apply_all
  emit-state e = ap (λ z. z.state) (emit-taken codec lawful write e s n h)

  pub emit-IsNumbered : (e : Event) → IsNumbered codec (suc n) (emit codec write e s).0
  unfolding take_in
  emit-IsNumbered e =
      ap (λ z. last_seq_unlocked codec z.log) (emit-taken codec lawful write e s n h)
      ∙ append_many-last_seq codec lawful (e ∷ []) s.log n h
      ∙ ap some (omega arith)

  pub emit_many-some :
      (es : List Event)
      → IsContained write
      → (emit_many codec write es s).1 ≡ some (number_events with_seq (suc n) es)
  unfolding emit_many append_many with_seqs number_events
  emit_many-some [] c = returned-some write [] c
  emit_many-some (e ∷ es) c =
      rw (emit_many, append_many, h)
        (ap (returned write) (with_seqs-number_all codec (suc n) (e ∷ es))
          ∙ returned-some write (number_events with_seq (suc n) (e ∷ es)) c)

  pub emit_many-state :
      (es : List Event)
      → (emit_many codec write es s).0.state ≡ apply_all s.state (number_events with_seq (suc n) es)
  unfolding take_in number_events apply_all
  emit_many-state [] = ap (λ z. z.state) (emit_many-nil codec write s)
  emit_many-state (e ∷ es) = ap (λ z. z.state) (emit_many-taken codec write e es s n h)
