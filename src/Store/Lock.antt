-- ===== src/Store/Lock.antt =====
-- store/eventlog.py, `FileLock`: the lock file and the processes that contend for it, in the steps
-- between which another process may run. A file is known by the number of its creation, which is
-- also the token that its creator writes into it: tokens are random and taken not to repeat.
pub mod Exclusion
pub mod Race
pub mod Progress
mod Examples
use supervisor_harness.Prelude.{
  ℕ, ◌+◌, ◌≡◌, Bool, true, false, Option, none, some, ◌==◌, if◌then◌else◌,
}

pub record LockFile : Type 0 where
  pub made : ℕ
  -- whether the token is written
  pub stamped : Bool
  -- whether it has not been refreshed for longer than `stale_after`
  pub stale : Bool

-- Where a process stands in `acquire`, between the two, or in `release`.
pub data Local : Type 0 where
  idle : Local
  -- in the loop of `acquire`
  trying : Local
  -- in `_break_if_stale`: the token was read once
  seen : ℕ → Local
  -- at `_unlink_stale`
  breaking : Local
  -- the file is created and its token not yet written
  created : ℕ → Local
  -- `acquire` has returned
  holding : ℕ → Local
  -- in `release`: the token was found to be its own
  leaving : ℕ → Local

pub record System : Type 0 where
  pub file : Option LockFile
  pub procs : ℕ → Local
  -- the number of the next file
  pub next : ℕ
  -- how many times `_unlink_stale` has run
  pub breaks : ℕ

-- The state of one process replaced.
unfoldable pub move : ℕ → Local → (ℕ → Local) → ℕ → Local
move p l procs q = if q == p then l else procs q

-- A write to the descriptor reaches the file at the path only if it is the one that was created.
unfoldable pub stamp_file : ℕ → Option LockFile → Option LockFile
stamp_file t none = none
stamp_file t (some f) = if f.made == t then some (record f { stamped = true }) else some f

-- The token that `_owner_token` reads is `t`.
unfoldable pub owner_is : ℕ → Option LockFile → Bool
owner_is t none = false
owner_is t (some f) = if f.stamped then f.made == t else false

unfoldable pub old_file : Option LockFile → Option LockFile
old_file none = none
old_file (some f) = some (record f { stale = true })

-- One step of the process `p`, or of time.
pub data Step (s : System) : System → Type 0 where
  start : (p : ℕ) → s.procs p ≡ idle → Step s (record s { procs = move p trying s.procs })
  -- the deadline has passed, or too many stale locks were broken
  give_up : (p : ℕ) → s.procs p ≡ trying → Step s (record s { procs = move p idle s.procs })
  create :
      (p : ℕ)
      → s.procs p ≡ trying
      → s.file ≡ none
      → Step s (record s {
        file = some (record { made = s.next; stamped = false; stale = false });
        procs = move p (created s.next) s.procs;
        next = s.next + 1;
      })
  stamp :
      (p t : ℕ)
      → s.procs p ≡ created t
      → Step s (record s { file = stamp_file t s.file; procs = move p (holding t) s.procs })
  -- the file is not refreshed in time
  grow_stale : Step s (record s { file = old_file s.file })
  look :
      (p : ℕ) (f : LockFile)
      → s.procs p ≡ trying
      → s.file ≡ some f
      → f.stale ≡ true
      → f.stamped ≡ true
      → Step s (record s { procs = move p (seen f.made) s.procs })
  look_again :
      (p t : ℕ)
      → s.procs p ≡ seen t
      → Step s
          (record s { procs = move p (if owner_is t s.file then breaking else trying) s.procs })
  -- a file that never got its token, past the grace
  look_blank :
      (p : ℕ) (f : LockFile)
      → s.procs p ≡ trying
      → s.file ≡ some f
      → f.stale ≡ true
      → f.stamped ≡ false
      → Step s (record s { procs = move p breaking s.procs })
  unlink_stale :
      (p : ℕ)
      → s.procs p ≡ breaking
      → Step s (record s { file = none; procs = move p trying s.procs; breaks = s.breaks + 1 })
  check_owner :
      (p t : ℕ)
      → s.procs p ≡ holding t
      → Step s (record s { procs = move p (if owner_is t s.file then leaving t else idle) s.procs })
  unlink_own :
      (p t : ℕ)
      → s.procs p ≡ leaving t
      → Step s (record s { file = none; procs = move p idle s.procs })

-- No file, and no process at the lock.
abbrev pub initial : System
initial = record { file = none; procs = λ p. idle; next = 0; breaks = 0 }

-- The states that a system comes to.
pub data Run (s : System) : System → Type 0 where
  here : Run s s
  after : {t u : System} → Run s t → Step t u → Run s u

abbrev pub Reach : System → Type 0
Reach s = Run initial s
