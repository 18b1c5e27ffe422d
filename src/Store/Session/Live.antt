-- ===== src/Store/Session/Live.antt =====
-- store/runstore.py: a session's state is what its log says, and `load_state` finds it again.

use supervisor_harness.Prelude.{
  ℕ, suc, ◌+◌, ◌≤◌, ◌<◌, ◌≡◌, refl, sym, ap, ◌∙◌, ◌⊎◌, inl, inr, Option, none, some, List, [], ◌∷◌,
  ◌++◌, length, arith, All, Bool-cases, leb,
}
use supervisor_harness.Text.{Text}
use supervisor_harness.Store.Lines.{Bytes}
use supervisor_harness.Store.EventLog.{Codec, last_seq_unlocked}
use supervisor_harness.Store.EventLog.Read.{Parsed, read}
use supervisor_harness.Store.EventLog.Reread.{number_events}
use supervisor_harness.Store.Fold.State.{RunState}
use supervisor_harness.Store.Fold.Events.{Event}
use supervisor_harness.Store.Fold.Project.{apply_all, sorted, fold}
use supervisor_harness.Store.Session.{
  Snapshot, absent, unreadable, holds, Write, landed, refused, escaped, Session, with_seq, save,
  take_in, folded, fold_log, current, or_else, load_state,
}
use supervisor_harness.Store.Session.Synced.{IsLater, Synced, Synced-apply_all}

-- The snapshot is not one of the state's future: it is the state, or it is behind the log.
abbrev pub IsCached : RunState → ℕ → Snapshot → Type 0
IsCached state n absent = Unit
IsCached state n unreadable = Unit
IsCached state n (holds old) = (old ≡ state) ⊎ (old.last_seq < n)

-- What `_fold_log` stamps on the state of a log that reads whole.
abbrev found : Text → RunState → RunState
found run_id state = record state { id = run_id; damaged_lines = 0 }

as_found :
    (run_id : Text) (state : RunState)
    → state.id ≡ run_id
    → state.damaged_lines ≡ 0
    → found run_id state ≡ state
as_found run_id state h k =
    ap (λ z. record state { id = z; damaged_lines = 0 }) (sym h)
    ∙ ap (λ z. record state { damaged_lines = z }) (sym k)

current-behind : (old : RunState) (tail : ℕ) → old.last_seq < tail → current old (some tail) ≡ none
unfolding current
current-behind old tail h = ground arith

-- The snapshot or the log, when both are the state.
either_way :
    (state : RunState) (tail : Option ℕ) (other : Option RunState)
    → other ≡ some state
    → or_else (current state tail) other ≡ some state
unfolding current
either_way state none other h = refl
either_way state (some tail) other h = elim (Bool-cases (leb tail state.last_seq)) [
  | inl y ↦ rw (current, y) refl
  | inr n ↦ rw (current, n) h
]

IsCached-later :
    (state after : RunState) (m n : ℕ) (snapshot : Snapshot)
    → state.last_seq ≤ m
    → m < n
    → IsCached state m snapshot
    → IsCached after n snapshot
IsCached-later state after m n absent h k c = tt
IsCached-later state after m n unreadable h k c = tt
IsCached-later state after m n (holds old) h k (inl same) =
    let equal : old.last_seq ≡ state.last_seq = ap (λ z. z.last_seq) same in inr (omega arith)
IsCached-later state after m n (holds old) h k (inr behind) = inr (omega arith)

-- A write lands or leaves a snapshot that is further behind.
IsCached-save :
    (write : Write) (state after : RunState) (m n : ℕ) (snapshot : Snapshot)
    → state.last_seq ≤ m
    → m < n
    → IsCached state m snapshot
    → IsCached after n (save write after snapshot)
unfolding save
IsCached-save landed state after m n snapshot h k c = inl refl
IsCached-save refused state after m n snapshot h k c = IsCached-later state after m n snapshot h k c
IsCached-save escaped state after m n snapshot h k c = IsCached-later state after m n snapshot h k c

module _ (codec : Codec Event) (event_of : Text → Parsed Event) (run_id : Text)
    (initial : RunState) where
  -- A session in step with its log: every line of the log reads, the state is the fold of the events,
  -- and the log's last number is the highest.
  pub record Live (events : List Event) (tail : ℕ) (s : Session) : Type 0 where
    pub reads : read event_of s.log ≡ some (events, 0)
    pub last : last_seq_unlocked codec s.log ≡ some tail
    pub synced : Synced run_id initial events tail s.state
    pub cached : IsCached s.state tail s.snapshot

  module _ (events : List Event) (n : ℕ) (s : Session) (h : Live events n s) where
    -- The log says what the state of a live session is.
    pub Live-fold_log : fold_log event_of run_id initial s.log ≡ some s.state
    unfolding fold_log folded
    Live-fold_log =
        let folds : fold (sorted events) initial ≡ s.state = sym h.synced.folds in
        let same =
          ap (found run_id) folds ∙ as_found run_id s.state h.synced.named h.synced.clean in
        rw (fold_log, h.reads, folded) (ap some same)

    -- What `load_state` makes of a snapshot.
    from_snapshot : RunState → Option ℕ → Option RunState
    from_snapshot old tail =
        or_else (current (record old { id = run_id }) tail) (fold_log event_of run_id initial s.log)

    -- The snapshot, when it is used, is the state, and so is what the log says.
    pub Live-load_state : load_state event_of run_id initial codec s.snapshot s.log ≡ some s.state
    unfolding load_state from_snapshot
    Live-load_state = loaded s.snapshot h.cached
      where
        tail : Option ℕ
        tail = last_seq_unlocked codec s.log

        from_named : Text → Option ℕ → Option RunState
        from_named id tail =
            or_else (current (record s.state { id = id }) tail)
              (fold_log event_of run_id initial s.log)

        loaded :
            (snapshot : Snapshot)
            → IsCached s.state n snapshot
            → load_state event_of run_id initial codec snapshot s.log ≡ some s.state
        loaded absent c = Live-fold_log
        loaded unreadable c = Live-fold_log
        loaded (holds old) (inl same) =
            ap (λ z. from_snapshot z tail) same
            ∙ ap (λ z. from_named z tail) (sym h.synced.named)
            ∙ either_way s.state tail (fold_log event_of run_id initial s.log) Live-fold_log
        loaded (holds old) (inr behind) =
            ap (from_snapshot old) h.last
            ∙ ap (λ z. or_else z (fold_log event_of run_id initial s.log))
                (current-behind (record old { id = run_id }) n behind)
            ∙ Live-fold_log

    pub Live-take_in :
        (write : Write) (e : Event) (rest : List Event) (log : Bytes)
        → All IsLater (e ∷ rest)
        → read event_of log ≡ some (events ++ number_events with_seq (suc n) (e ∷ rest), 0)
        → last_seq_unlocked codec log ≡ some (n + length (e ∷ rest))
        → Live
            (events ++ number_events with_seq (suc n) (e ∷ rest))
            (n + length (e ∷ rest))
            (take_in write (number_events with_seq (suc n) (e ∷ rest)) log s)
    unfolding take_in
    Live-take_in write e rest log later reads last =
        let added = number_events with_seq (suc n) (e ∷ rest) in
        let after = n + length (e ∷ rest) in
        record {
          reads = reads;
          last = last;
          synced = Synced-apply_all run_id initial (e ∷ rest) events n s.state later h.synced;
          cached =
              IsCached-save write s.state (apply_all s.state added) n after s.snapshot
                h.synced.watermark (omega arith) h.cached;
        }

    -- A snapshot that is written again.
    pub Live-save : (write : Write) → Live events n (take_in write [] s.log s)
    unfolding take_in save
    Live-save landed = record {
      reads = h.reads;
      last = h.last;
      synced = h.synced;
      cached = inl refl;
    }
    Live-save refused = record {
      reads = h.reads;
      last = h.last;
      synced = h.synced;
      cached = h.cached;
    }
    Live-save escaped = record {
      reads = h.reads;
      last = h.last;
      synced = h.synced;
      cached = h.cached;
    }
