-- ===== src/Store/Session/Emitted.antt =====
-- store/runstore.py, `emit`, `emit_many`, `aemit`, `aemit_many`: a live session stays live.
use supervisor_harness.Store.EventLog.Read.{Parsed}
use supervisor_harness.Prelude.{
  ℕ, suc, ◌+◌, ◌≡◌, refl, sym, ap, ◌∙◌, some, List, [], ◌∷◌, ◌++◌, length, append-nil, arith, All,
  subst,
}
use supervisor_harness.Text.{Text}
use supervisor_harness.Store.EventLog.{
  Codec, Lawful, terminate_last_line, last_seq_unlocked, append, append_many, write_all, number_all,
}
use supervisor_harness.Store.EventLog.Written.{append_one}
use supervisor_harness.Store.EventLog.Batch.{append-some, append_many-some}
use supervisor_harness.Store.EventLog.Reread.{Legible, number_events, append_many-reread}
use supervisor_harness.Store.Fold.State.{RunState}
use supervisor_harness.Store.Fold.Events.{Event}
use supervisor_harness.Store.Session.{
  Write, Session, with_seq, with_seqs, take_in, emit, emit_many, aemit_many, aemit,
}
use supervisor_harness.Store.Session.Synced.{IsLater, with_seqs-number_all, append_many-last_seq}
use supervisor_harness.Store.Session.Live.{Live, Live-take_in, Live-save}

module _ (codec : Codec Event) where
  emit_many-built :
      (write : Write) (e : Event) (es : List Event) (s : Session) (n : ℕ)
      → last_seq_unlocked codec s.log ≡ some n
      → (emit_many codec write (e ∷ es) s).0
        ≡ take_in write
            (with_seqs (number_all codec (suc n) (e ∷ es)) (e ∷ es))
            (terminate_last_line s.log ++ write_all codec (suc n) (e ∷ es))
            s
  unfolding emit_many append_many
  emit_many-built write e es s n h =
      rw (emit_many, append_many, h)
        (ap (λ z. take_in write (with_seqs (number_all codec (suc n) (e ∷ es)) (e ∷ es)) z s)
          (append_many-some codec e es s.log n h))

  -- A batch is taken in with the numbers that follow the log's last.
  pub emit_many-taken :
      (write : Write) (e : Event) (es : List Event) (s : Session) (n : ℕ)
      → last_seq_unlocked codec s.log ≡ some n
      → (emit_many codec write (e ∷ es) s).0
        ≡ take_in write
            (number_events with_seq (suc n) (e ∷ es))
            (append_many codec (e ∷ es) s.log).0
            s
  emit_many-taken write e es s n h =
      emit_many-built write e es s n h
      ∙ ap (λ z. take_in write z (terminate_last_line s.log ++ write_all codec (suc n) (e ∷ es)) s)
          (with_seqs-number_all codec (suc n) (e ∷ es))
      ∙ ap (λ z. take_in write (number_events with_seq (suc n) (e ∷ es)) z s)
          (sym (append_many-some codec e es s.log n h))

  pub emit_many-nil :
      (write : Write) (s : Session) → (emit_many codec write [] s).0 ≡ take_in write [] s.log s
  unfolding emit_many append_many with_seqs
  emit_many-nil write s = refl

  -- One event is a batch of one.
  pub emit-taken :
      (lawful : Lawful codec) (write : Write) (e : Event) (s : Session) (n : ℕ)
      → last_seq_unlocked codec s.log ≡ some n
      → (emit codec write e s).0
        ≡ take_in write
            (number_events with_seq (suc n) (e ∷ []))
            (append_many codec (e ∷ []) s.log).0
            s
  unfolding emit append number_events
  emit-taken lawful write e s n h =
      rw (emit, append-some codec e s.log n h)
        (ap (λ z. take_in write (with_seq (suc n) e ∷ []) z s) (append_one codec lawful e s.log))

  aemit-emit_many :
      (write : Write) (e : Event) (s : Session)
      → (aemit codec write e s).0 ≡ (emit_many codec write (e ∷ []) s).0
  unfolding aemit aemit_many
  aemit-emit_many write e s = refl

  module _ (event_of : Text → Parsed Event) (run_id : Text) (initial : RunState)
      (lawful : Lawful codec) {P : Event → Type 0} (legible : Legible codec event_of with_seq P)
      (events : List Event) (n : ℕ) (s : Session)
      (h : Live codec event_of run_id initial events n s) where
    -- Emitting `es` leaves a live session with these events after the others.
    abbrev pub LiveAfter : List Event → Session → Type 0
    LiveAfter es after =
        Live codec event_of run_id initial (events ++ number_events with_seq (suc n) es)
          (n + length es) after

    Live-batch :
        (write : Write) (e : Event) (es : List Event)
        → All P (e ∷ es)
        → All IsLater (e ∷ es)
        → LiveAfter (e ∷ es) (
            take_in write
              (number_events with_seq (suc n) (e ∷ es))
              (append_many codec (e ∷ es) s.log).0
              s)
    Live-batch write e es ok later =
        Live-take_in codec event_of run_id initial events n s h write e es
          (append_many codec (e ∷ es) s.log).0 later
          (append_many-reread codec event_of with_seq legible e es s.log n events 0 ok h.reads
            h.last)
          (append_many-last_seq codec lawful (e ∷ es) s.log n h.last)

    Live-none :
        (after : Session) → Live codec event_of run_id initial events n after → LiveAfter [] after
    unfolding number_events
    Live-none after k =
        subst (λ z. Live codec event_of run_id initial z (n + 0) after) (sym (append-nil events))
          (subst (λ z. Live codec event_of run_id initial events z after) (omega arith) k)

    pub Live-emit_many :
        (write : Write) (es : List Event)
        → All P es
        → All IsLater es
        → LiveAfter es (emit_many codec write es s).0
    Live-emit_many write [] ok later = Live-none (emit_many codec write [] s).0 (
        subst (Live codec event_of run_id initial events n) (sym (emit_many-nil write s))
          (Live-save codec event_of run_id initial events n s h write))
    Live-emit_many write (e ∷ es) ok later =
        subst (LiveAfter (e ∷ es)) (sym (emit_many-taken write e es s n h.last))
          (Live-batch write e es ok later)

    pub Live-aemit_many :
        (write : Write) (es : List Event)
        → All P es
        → All IsLater es
        → LiveAfter es (aemit_many codec write es s).0
    unfolding aemit_many
    Live-aemit_many write [] ok later = Live-none s h
    Live-aemit_many write (e ∷ es) ok later = Live-emit_many write (e ∷ es) ok later

    pub Live-emit :
        (write : Write) (e : Event) → P e → IsLater e → LiveAfter (e ∷ []) (emit codec write e s).0
    Live-emit write e ok later =
        subst (LiveAfter (e ∷ [])) (sym (emit-taken lawful write e s n h.last))
          (Live-batch write e [] (ok, tt) (later, tt))

    pub Live-aemit :
        (write : Write) (e : Event) → P e → IsLater e → LiveAfter (e ∷ []) (aemit codec write e s).0
    Live-aemit write e ok later =
        subst (LiveAfter (e ∷ [])) (sym (aemit-emit_many write e s))
          (Live-emit_many write (e ∷ []) (ok, tt) (later, tt))
