-- ===== src/Store/Session.antt =====
-- store/runstore.py: `RunSession.emit` and `emit_many`, `RunStore._fold_log`, `open` and `load_state`.
-- The snapshot is the state that its text was made from; the progress file, which only a person
-- reads, and the index stay out.
pub mod Sorted
pub mod Identity
pub mod Synced
pub mod Live
pub mod Emitted
pub mod Numbered
pub mod Genesis
pub mod Refined
mod Examples
use supervisor_harness.Prelude.{ℕ, suc, Bool, Option, none, some, List, [], ◌∷◌, leb, if◌then◌else◌}
use supervisor_harness.Text.{Text}
use supervisor_harness.Store.Lines.{Bytes}
use supervisor_harness.Store.EventLog.{Codec, last_seq_unlocked, append, append_many}
use supervisor_harness.Store.EventLog.Read.{Parsed, read}
use supervisor_harness.Store.Fold.State.{RunState}
use supervisor_harness.Store.Fold.Events.{Event}
use supervisor_harness.Store.Fold.Project.{apply_contained, apply_all, sorted, fold}

-- What `state.json` holds.
pub data Snapshot : Type 0 where
  absent unreadable : Snapshot
  holds : RunState → Snapshot

-- What becomes of a write of the snapshot: it lands, it is refused with an error that is caught, or
-- an error escapes from before the `try`.
pub data Write : Type 0 where
  landed refused escaped : Write

pub record Session : Type 0 where
  pub state : RunState
  pub log : Bytes
  pub snapshot : Snapshot

-- `event.seq = seq`
abbrev pub with_seq : ℕ → Event → Event
with_seq n e = record e { seq = n }

-- `save_snapshot`
unfoldable pub save : Write → RunState → Snapshot → Snapshot
save landed state snapshot = holds state
save refused state snapshot = snapshot
save escaped state snapshot = snapshot

-- What an emission returns; an error of the write that escapes comes after all that it did.
unfoldable pub returned {ℓ} : {A : Type ℓ} → Write → A → Option A
returned landed a = some a
returned refused a = some a
returned escaped a = none

-- The events of a batch with the numbers that the append gave them.
unfoldable pub with_seqs : List ℕ → List Event → List Event
with_seqs [] es = []
with_seqs (n ∷ ns) [] = []
with_seqs (n ∷ ns) (e ∷ es) = with_seq n e ∷ with_seqs ns es

-- The state and the snapshot after events that the log took.
unfoldable pub take_in : Write → List Event → Bytes → Session → Session
unfolding apply_all save
take_in write events log s =
    let state = apply_all s.state events in
    record { state = state; log = log; snapshot = save write state s.snapshot }

-- `[0]`, none where it raises
abbrev first : List Event → Option Event
first [] = none
first (e ∷ es) = some e

module _ (codec : Codec Event) where
  -- `emit`, on the event that it built; none where it raises.
  unfoldable pub emit : Write → Event → Session → Session × Option Event
  unfolding append take_in returned
  emit write e s =
      let after = append codec e s.log in
      elim after.1 [
        | none ↦ (record s { log = after.0 }, none)
        | some n ↦
            let event = with_seq n e in (take_in write (event ∷ []) after.0 s, returned write event)
      ]

  -- `emit_many`, on the events that it built.
  unfoldable pub emit_many : Write → List Event → Session → Session × Option (List Event)
  unfolding append_many take_in returned with_seqs
  emit_many write es s =
      let after = append_many codec es s.log in
      elim after.1 [
        | none ↦ (record s { log = after.0 }, none)
        | some ns ↦
            let built = with_seqs ns es in (take_in write built after.0 s, returned write built)
      ]

  -- `aemit_many`: the append and the write of the snapshot in a thread, under a lock of the session.
  unfoldable pub aemit_many : Write → List Event → Session → Session × Option (List Event)
  unfolding emit_many
  aemit_many write [] s = (s, some [])
  aemit_many write (e ∷ es) s = emit_many write (e ∷ es) s

  -- `aemit`, on the event that it built.
  unfoldable pub aemit : Write → Event → Session → Session × Option Event
  unfolding aemit_many
  aemit write e s =
      let (after, built) = aemit_many write (e ∷ []) s in
      (after, elim built [ none ↦ none | some events ↦ first events ])

  -- `create`, on the state it is given and the event it built, whose log is empty and which has no
  -- snapshot.
  unfoldable pub create : Write → RunState → Event → Session × Option Event
  unfolding emit
  create write state e = emit write e (record { state = state; log = []; snapshot = absent })

-- What `_fold_log` makes of the events that were read and the lines that were skipped.
unfoldable pub folded : Text → RunState → List Event × ℕ → RunState
unfolding fold sorted
folded run_id initial (events, skipped) = record (fold (sorted events) initial) {
  id = run_id;
  damaged_lines = skipped;
}

-- The snapshot when it is not behind the log.
unfoldable pub current : RunState → Option ℕ → Option RunState
current state none = some state
current state (some tail) = if leb tail state.last_seq then some state else none

abbrev pub or_else : Option RunState → Option RunState → Option RunState
or_else none other = other
or_else (some state) other = some state

-- `initial` is the state that a fold starts from, with the id it draws.
module _ (event_of : Text → Parsed Event) (run_id : Text) (initial : RunState) where
  -- `_fold_log`; none where the read raises.
  unfoldable pub fold_log : Bytes → Option RunState
  unfolding read folded
  fold_log log = elim (read event_of log) [ none ↦ none | some r ↦ some (folded run_id initial r) ]

  -- `open` of a run that exists
  unfoldable pub open_run : Snapshot → Bytes → Option Session
  unfolding fold_log
  open_run snapshot log = elim (fold_log log) [
    | none ↦ none
    | some state ↦ some (record { state = state; log = log; snapshot = snapshot })
  ]

  -- `load_state` of a run that exists.
  unfoldable pub load_state : Codec Event → Snapshot → Bytes → Option RunState
  unfolding fold_log current last_seq_unlocked
  load_state codec absent log = fold_log log
  load_state codec unreadable log = fold_log log
  load_state codec (holds state) log =
      or_else (current (record state { id = run_id }) (last_seq_unlocked codec log)) (fold_log log)
