-- ===== src/Store/Session/Genesis.antt =====
-- store/runstore.py, `create`: the session before and after the record that a run begins with.
use supervisor_harness.Prelude.{ℕ, ◌≡◌, ◌≤◌, refl, inl, ap, some, [], ◌∷◌, arith}
use supervisor_harness.Text.{Text}
use supervisor_harness.Store.EventLog.{Codec, last_seq_unlocked}
use supervisor_harness.Store.EventLog.Read.{Parsed, decode_bytes, utf8, read_lines, read}
use supervisor_harness.Store.EventLog.Utf8.{text_lines-nil}
use supervisor_harness.Store.Fold.State.{RunState}
use supervisor_harness.Store.Fold.Events.{Event, Genesis, decoded, run_created}
use supervisor_harness.Store.Fold.OnRun.{on_run_created, larger}
use supervisor_harness.Store.Fold.Project.{
  handle, apply, stamp, rejected, apply_contained, apply_all, insert, sorted, fold,
}
use supervisor_harness.Store.Session.{
  absent, Write, landed, refused, escaped, Session, with_seq, save,
}
use supervisor_harness.Store.Session.Synced.{Synced}
use supervisor_harness.Store.Session.Live.{IsCached}

-- The state that `RunState` begins with, with what `create`'s caller sets.
abbrev pub named : RunState → Genesis → RunState
named s g = record s {
  id = g.id;
  prompt = g.prompt;
  workspace = g.workspace;
  mode = g.mode;
  backend = g.backend;
  host = g.host;
  created_at = g.created_at;
}

-- The event that `create` emits.
abbrev pub genesis : Event → Genesis → Event
genesis e g = record e { body = run_created (decoded g) }

-- A session before its first event.
abbrev pub unstarted : RunState → Session
unstarted state = record { state = state; log = []; snapshot = absent }

pub last-nil : (codec : Codec Event) → last_seq_unlocked codec [] ≡ some 0
unfolding last_seq_unlocked
last-nil codec = refl

pub read-nil : (event_of : Text → Parsed Event) → read event_of [] ≡ some ([], 0)
unfolding read utf8 decode_bytes
read-nil event_of = ap (λ z. read_lines event_of z) text_lines-nil

-- What the first event sets it sets whatever was set before.
apply_contained-named :
    (initial : RunState) (set g : Genesis) (e : Event)
    → apply_contained (named initial set) (genesis e g) ≡ apply_contained initial (genesis e g)
unfolding apply_contained apply handle stamp rejected on_run_created
apply_contained-named initial set g e = refl

larger_le : (a : ℕ) → a ≤ 1 → larger a 1 ≤ 1
larger_le a h = ground arith

pub IsCached-absent :
    (write : Write) (state : RunState) (n : ℕ) → IsCached state n (save write state absent)
unfolding save
IsCached-absent landed state n = inl refl
IsCached-absent refused state n = tt
IsCached-absent escaped state n = tt

pub Synced-genesis :
    (run_id : Text) (initial : RunState) (set g : Genesis) (e : Event)
    → g.id ≡ run_id
    → initial.damaged_lines ≡ 0
    → initial.last_seq ≡ 0
    → Synced run_id initial
        (with_seq 1 (genesis e g) ∷ [])
        1
        (apply_all (named initial set) (with_seq 1 (genesis e g) ∷ []))
unfolding apply_all fold sorted insert apply_contained apply handle stamp rejected on_run_created
Synced-genesis run_id initial set g e same clean fresh = record {
  below = (omega arith, tt);
  folds = apply_contained-named initial set g (with_seq 1 e);
  named = same;
  clean = clean;
  watermark = larger_le initial.last_seq (omega arith);
}
