-- ===== src/Store/Session/Refined.antt =====
-- store/runstore.py: a run from `create` on, against the plain fold of what is emitted.
use supervisor_harness.Store.EventLog.Read.{Parsed}
use supervisor_harness.Prelude.{
  ℕ, suc, ◌+◌, ◌≡◌, refl, sym, ap, ◌∙◌, some, List, [], ◌∷◌, ◌++◌, length, length-append,
  append-nil, append_assoc, arith, All, subst,
}
use supervisor_harness.Text.{Text}
use supervisor_harness.Store.Lines.{Bytes}
use supervisor_harness.Store.EventLog.{Codec, Lawful, append_many}
use supervisor_harness.Store.EventLog.Reread.{Legible, number_events, append_many-reread}
use supervisor_harness.Store.Fold.State.{RunState}
use supervisor_harness.Store.Fold.Events.{Event, Genesis}
use supervisor_harness.Store.Fold.Project.{apply_all}
use supervisor_harness.Store.Session.{
  Write, Session, with_seq, take_in, open_run, emit, emit_many, aemit, aemit_many, create,
  load_state,
}
use supervisor_harness.Store.Session.Synced.{IsLater, append_many-last_seq}
use supervisor_harness.Store.Session.Live.{Live, Live-fold_log, Live-load_state}
use supervisor_harness.Store.Session.Emitted.{
  emit-taken, Live-emit, Live-emit_many, Live-aemit, Live-aemit_many,
}
use supervisor_harness.Store.Session.Numbered.{
  fold-number_events, number_events-append, All-left, All-right,
}
use supervisor_harness.Store.Session.Genesis.{
  named, genesis, unstarted, last-nil, read-nil, IsCached-absent, Synced-genesis,
}

-- What a session is asked to emit.
pub data Emission : Type 0 where
  one one_async : Event → Emission
  many many_async : List Event → Emission

abbrev pub events_of : Emission → List Event
events_of (one e) = e ∷ []
events_of (one_async e) = e ∷ []
events_of (many es) = es
events_of (many_async es) = es

abbrev pub all_events : List (Write × Emission) → List Event
all_events [] = []
all_events ((write, emission) ∷ rest) = events_of emission ++ all_events rest

-- The abstract run: the events in the order they were emitted, numbered from one, on the state that a
-- fold starts from.
abbrev pub run_of : RunState → List Event → RunState
run_of initial es = apply_all initial (number_events with_seq 1 es)

module _ (codec : Codec Event) where
  unfoldable pub run_emission : Write → Emission → Session → Session
  unfolding emit emit_many aemit aemit_many
  run_emission write (one e) s = (emit codec write e s).0
  run_emission write (one_async e) s = (aemit codec write e s).0
  run_emission write (many es) s = (emit_many codec write es s).0
  run_emission write (many_async es) s = (aemit_many codec write es s).0

  unfoldable pub run_emissions : List (Write × Emission) → Session → Session
  unfolding run_emission
  run_emissions [] s = s
  run_emissions ((write, emission) ∷ rest) s = run_emissions rest (run_emission write emission s)

  module _ (event_of : Text → Parsed Event) (run_id : Text) (initial : RunState)
      (lawful : Lawful codec) {P : Event → Type 0}
      (legible : Legible codec event_of with_seq P) where
    abbrev LiveWith : List Event → ℕ → Session → Type 0
    LiveWith = Live codec event_of run_id initial

    Live-run_emission :
        (write : Write) (emission : Emission) (events : List Event) (n : ℕ) (s : Session)
        → All P (events_of emission)
        → All IsLater (events_of emission)
        → LiveWith events n s
        → LiveWith
            (events ++ number_events with_seq (suc n) (events_of emission))
            (n + length (events_of emission))
            (run_emission write emission s)
    unfolding run_emission
    Live-run_emission write (one e) events n s (ok, t) (later, u) h =
        Live-emit codec event_of run_id initial lawful legible events n s h write e ok later
    Live-run_emission write (one_async e) events n s (ok, t) (later, u) h =
        Live-aemit codec event_of run_id initial lawful legible events n s h write e ok later
    Live-run_emission write (many es) events n s ok later h =
        Live-emit_many codec event_of run_id initial lawful legible events n s h write es ok later
    Live-run_emission write (many_async es) events n s ok later h =
        Live-aemit_many codec event_of run_id initial lawful legible events n s h write es ok later

    -- The events are the ones that were emitted, numbered from one.
    Live-run_emissions :
        (steps : List (Write × Emission)) (es : List Event) (s : Session)
        → All P (all_events steps)
        → All IsLater (all_events steps)
        → LiveWith (number_events with_seq 1 es) (length es) s
        → LiveWith
            (number_events with_seq 1 (es ++ all_events steps))
            (length (es ++ all_events steps))
            (run_emissions steps s)
    unfolding run_emissions
    Live-run_emissions [] es s ok later h =
        subst (λ z. LiveWith (number_events with_seq 1 z) (length z) s) (sym (append-nil es)) h
    Live-run_emissions ((write, emission) ∷ rest) es s ok later h =
        let now = events_of emission in
        let whole = es ++ now in
        let next = run_emission write emission s in
        let numbered : number_events with_seq 1 whole
            ≡ number_events with_seq 1 es ++ number_events with_seq (suc (length es)) now =
          number_events-append 1 es now
          ∙ ap (λ z. number_events with_seq 1 es ++ number_events with_seq z now) (omega arith) in
        let step =
          Live-run_emission write emission (number_events with_seq 1 es) (length es) s
            (All-left P now (all_events rest) ok) (All-left IsLater now (all_events rest) later)
            h in
        let live : LiveWith (number_events with_seq 1 whole) (length whole) next =
          subst (λ z. LiveWith z (length whole) next) (sym numbered)
            (subst
              (λ z.
                LiveWith
                  (number_events with_seq 1 es ++ number_events with_seq (suc (length es)) now) z
                  next)
              (sym (length-append es now)) step) in
        subst (λ z. LiveWith (number_events with_seq 1 z) (length z) (run_emissions rest next))
          (append_assoc es now (all_events rest))
          (Live-run_emissions rest whole next (All-right P now (all_events rest) ok)
            (All-right IsLater now (all_events rest) later) live)

    Live-create :
        (write : Write) (g : Genesis) (set : Genesis) (e : Event)
        → P (genesis e g)
        → g.id ≡ run_id
        → initial.damaged_lines ≡ 0
        → initial.last_seq ≡ 0
        → LiveWith
            (number_events with_seq 1 (genesis e g ∷ []))
            1
            (create codec write (named initial set) (genesis e g)).0
    unfolding create number_events
    Live-create write g set e ok same clean fresh =
        subst (LiveWith (with_seq 1 (genesis e g) ∷ []) 1)
          (sym (
            emit-taken codec lawful write (genesis e g) (unstarted (named initial set)) 0
              (last-nil codec)))
          (started write)
      where
        event : Event
        event = with_seq 1 (genesis e g)

        log : Bytes
        log = (append_many codec (genesis e g ∷ []) []).0

        started :
            (write : Write)
            → LiveWith
                (event ∷ [])
                1
                (take_in write (event ∷ []) log (unstarted (named initial set)))
        started write = record {
          reads =
              append_many-reread codec event_of with_seq legible (genesis e g) [] [] 0 [] 0 (ok, tt)
                (read-nil event_of) (last-nil codec);
          last = append_many-last_seq codec lawful (genesis e g ∷ []) [] 0 (last-nil codec);
          synced = Synced-genesis run_id initial set g e same clean fresh;
          cached = IsCached-absent write (apply_all (named initial set) (event ∷ [])) 1;
        }

    -- In step with its log, a session is what `open` makes of it.
    Live-open_run :
        (events : List Event) (n : ℕ) (s : Session)
        → LiveWith events n s
        → open_run event_of run_id initial s.snapshot s.log ≡ some s
    unfolding open_run
    Live-open_run events n s h =
        rw (open_run, Live-fold_log codec event_of run_id initial events n s h) refl

    -- A run that is created and then emits any events, one by one or in batches, on the loop or off
    -- it, has the state that the plain fold of those events gives, numbered from one in the order
    -- they were emitted; `load_state` finds that state and `open` that session, whichever writes of
    -- the snapshot landed, were refused or raised. The records are lines that read back as their
    -- events, only the first is a genesis record, which names the run, and a fold starts from a state
    -- with no number and no damaged line.
    pub create-load_state :
        (write : Write) (g set : Genesis) (e : Event) (steps : List (Write × Emission))
        → P (genesis e g)
        → All P (all_events steps)
        → All IsLater (all_events steps)
        → g.id ≡ run_id
        → initial.damaged_lines ≡ 0
        → initial.last_seq ≡ 0
        → let s = run_emissions steps (create codec write (named initial set) (genesis e g)).0 in
          let state = run_of initial (genesis e g ∷ all_events steps) in
          (s.state ≡ state)
          × (load_state event_of run_id initial codec s.snapshot s.log ≡ some state)
          × (open_run event_of run_id initial s.snapshot s.log ≡ some s)
    create-load_state write g set e steps first ok later same clean fresh =
        let es = genesis e g ∷ all_events steps in
        let s = run_emissions steps (create codec write (named initial set) (genesis e g)).0 in
        let live =
          Live-run_emissions steps (genesis e g ∷ [])
            (create codec write (named initial set) (genesis e g)).0 ok later
            (Live-create write g set e first same clean fresh) in
        let state = live.synced.folds ∙ fold-number_events 1 es initial in
        let events = number_events with_seq 1 es in
        (
          state,
          Live-load_state codec event_of run_id initial events (length es) s live ∙ ap some state,
          Live-open_run events (length es) s live,
        )
