-- ===== src/Store/Lock/Race.antt =====
-- store/eventlog.py, `_break_if_stale`: two processes that break one stale lock.
use supervisor_harness.Prelude.{ℕ, ◌≡◌, refl, false, ◌==◌, arith}
use supervisor_harness.Store.Lock.{
  holding, System, move, stamp_file, owner_is, old_file, start, create, stamp, grow_stale, look,
  look_again, unlink_stale, initial, Run, Reach, here, after,
}

-- The lock does not exclude once a stale lock is broken: with any three processes, of which the
-- first holds the lock until it is stale, the run goes on to a state where the other two hold it at
-- once. Both have read the token of the stale file twice; the second removes the fresh lock of the
-- first.
pub race :
    (a b c : ℕ)
    → (a == b) ≡ false
    → (a == c) ≡ false
    → (b == c) ≡ false
    → (s : System) × Reach s × (s.procs b ≡ holding 1) × (s.procs c ≡ holding 2)
unfolding move stamp_file owner_is old_file
race a b c h k l =
    let begin : Run initial initial = here in
    let r0 =
      after (after (after begin (start a refl)) (create a (ground arith) refl))
        (stamp a 0 (ground arith)) in
    let r1 = after r0 grow_stale in
    let r2 =
      after (after (after r1 (start b (ground arith))) (look b _ (ground arith) refl refl refl))
        (look_again b 0 (ground arith)) in
    let r3 =
      after (after (after r2 (start c (ground arith))) (look c _ (ground arith) refl refl refl))
        (look_again c 0 (ground arith)) in
    let r4 =
      after (after (after r3 (unlink_stale b (ground arith))) (create b (ground arith) refl))
        (stamp b 1 (ground arith)) in
    let r5 =
      after (after (after r4 (unlink_stale c (ground arith))) (create c (ground arith) refl))
        (stamp c 2 (ground arith)) in
    (_, r5, ground arith, ground arith)
