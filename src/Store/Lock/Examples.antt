-- ===== src/Store/Lock/Examples.antt =====
-- store/eventlog.py, `FileLock`: runs of a few processes.
use supervisor_harness.Prelude.{◌≡◌, refl, ap, true, false, some, inr}
use supervisor_harness.Store.Lock.{
  LockFile, trying, holding, System, old_file, grow_stale, move, stamp_file, start, create, stamp,
  Reach, Run, here, after,
}
use supervisor_harness.Store.Lock.Exclusion.{is_holding, holding_alone}
use supervisor_harness.Store.Lock.Race.{race}
use supervisor_harness.Store.Lock.Progress.{stale_taken}

-- Process 3 has taken the lock and process 4 is in the loop of `acquire`.
taken : (s : System) × Reach s × (s.breaks ≡ 0) × (s.procs 3 ≡ holding 0)
unfolding move stamp_file
taken = (
  _,
  after (after (after (after here (start 3 refl)) (create 3 refl refl)) (stamp 3 0 refl))
      (start 4 refl),
  refl,
  refl,
)

holding_alone_example : is_holding (taken.0.procs 4) ≡ false
unfolding is_holding
holding_alone_example = holding_alone 3 4 taken.1 taken.2 refl (ap is_holding taken.3)

race_example : (s : System) × Reach s × (s.procs 1 ≡ holding 1) × (s.procs 2 ≡ holding 2)
race_example = race 0 1 2 refl refl refl

-- The lock of process 3 is no longer refreshed.
abandoned :
    (s : System) × Reach s
    × (s.procs 4 ≡ trying)
    × (f : LockFile) × (s.file ≡ some f)
    × (f.stale ≡ true)
unfolding move stamp_file old_file
abandoned = (
  _,
  after
      (after (after (after (after here (start 3 refl)) (create 3 refl refl)) (stamp 3 0 refl))
        (start 4 refl))
      grow_stale,
  refl,
  record { made = 0; stamped = true; stale = true },
  refl,
  refl,
)

stale_taken_example : (t : System) × Run abandoned.0 t × (t.procs 4 ≡ holding abandoned.0.next)
stale_taken_example = stale_taken 4 abandoned.2 (inr (abandoned.3, abandoned.4, abandoned.5))
