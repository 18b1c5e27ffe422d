-- ===== src/Store/Lock/Progress.antt =====
-- store/eventlog.py, `FileLock`: a lock whose holder is gone does not stay taken.
use supervisor_harness.Prelude.{
  ℕ, ◌≡◌, refl, ap, ◌∙◌, ◌⊎◌, inl, inr, true, none, some, if◌then◌else◌, arith, Bool-cases,
}
use supervisor_harness.Store.Lock.{
  LockFile, Local, trying, seen, breaking, created, holding, System, move, owner_is, create, stamp,
  look, look_again, look_blank, unlink_stale, Run, here, after,
}

move-same : (p : ℕ) (l : Local) (procs : ℕ → Local) → move p l procs p ≡ l
unfolding move
move-same p l procs = ground arith

-- With no file, a process in the loop takes the lock.
take :
    {o s : System} (p : ℕ)
    → Run o s
    → s.procs p ≡ trying
    → s.file ≡ none
    → (t : System) × Run o t × (t.procs p ≡ holding s.next)
take {o} {s} p r e f = (
  _,
  after (after r (create p e f)) (stamp p s.next (move-same p (created s.next) s.procs)),
  move-same p (holding s.next) (move p (created s.next) s.procs),
)

-- At `_unlink_stale`, a process removes the file and takes the lock.
break_and_take :
    {o s : System} (p : ℕ)
    → Run o s
    → s.procs p ≡ breaking
    → (t : System) × Run o t × (t.procs p ≡ holding s.next)
break_and_take {o} {s} p r e = take p (after r (unlink_stale p e)) (move-same p trying s.procs) refl

owner_is-made : (f : LockFile) → f.stamped ≡ true → owner_is f.made (some f) ≡ true
unfolding owner_is
owner_is-made f h = ground arith

-- From every state in which the lock file is missing or stale, a process in the loop of `acquire`
-- can come to hold the lock: nothing a crashed holder leaves behind locks the log for good, whether
-- it died before or after it wrote its token.
pub stale_taken :
    {s : System} (p : ℕ)
    → s.procs p ≡ trying
    → (s.file ≡ none) ⊎ ((f : LockFile) × (s.file ≡ some f) × (f.stale ≡ true))
    → (t : System) × Run s t × (t.procs p ≡ holding s.next)
stale_taken {s} p e (inl f) = take p here e f
stale_taken {s} p e (inr (f, at_path, old)) = elim (Bool-cases f.stamped) [
  | inl y ↦
      let looked = after here (look p f e at_path old y) in
      let mine = move-same p (seen f.made) s.procs in
      let owner : owner_is f.made s.file ≡ true =
        ap (owner_is f.made) at_path ∙ owner_is-made f y in
      break_and_take p (after looked (look_again p f.made mine)) (
        move-same p (if owner_is f.made s.file then breaking else trying)
          (move p (seen f.made) s.procs)
        ∙ ap (λ b. if b then breaking else trying) owner)
  | inr n ↦
      break_and_take p (after here (look_blank p f e at_path old n)) (move-same p breaking s.procs)
]
