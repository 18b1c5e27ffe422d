-- ===== src/Store/Lock/Exclusion.antt =====
-- store/eventlog.py, `FileLock`: while no lock was broken, at most one process holds it.
use mathlib.Core.Bool.{false≢true}
use supervisor_harness.Prelude.{
  ℕ, ◌+◌, ◌≡◌, ◌≢◌, subst, refl, sym, ap, ◌∙◌, ◌⊎◌, inl, inr, Bool, true, false, Option, none, some,
  ◌==◌, if◌then◌else◌, arith, Bool-cases,
}
use supervisor_harness.Store.Lock.{
  LockFile, Local, idle, trying, seen, breaking, created, holding, leaving, System, move,
  stamp_file, owner_is, old_file, Step, start, give_up, create, stamp, grow_stale, look, look_again,
  look_blank, unlink_stale, check_owner, unlink_own, Reach, here, after,
}

-- The file that a process has created and not yet removed.
unfoldable pub owned : Local → Option ℕ
owned (created t) = some t
owned (holding t) = some t
owned (leaving t) = some t
owned _ = none

none≢some {κ} : {A : Type κ} {a : A} → none ≢ some a
none≢some h = cc

unfoldable made_of : Option LockFile → Option ℕ
made_of none = none
made_of (some f) = some f.made

-- The file at the path is that of each process that owns one, and no two own one.
record IsOwned (file : Option LockFile) (procs : ℕ → Local) : Type 0 where
  at_path : (p t : ℕ) → owned (procs p) ≡ some t → made_of file ≡ some t
  alone : (p q t u : ℕ) → owned (procs p) ≡ some t → owned (procs q) ≡ some u → p ≡ q

eq_of-eqb : (q p : ℕ) → (q == p) ≡ true → q ≡ p
eq_of-eqb q p h = ground arith

-- A process that gains no file.
owned-move :
    (procs : ℕ → Local) (p : ℕ) (l : Local) (q t : ℕ)
    → (owned l ≡ none) ⊎ (owned l ≡ owned (procs p))
    → owned (move p l procs q) ≡ some t
    → owned (procs q) ≡ some t
unfolding move
owned-move procs p l q t h e = elim (Bool-cases (q == p)) [
  | inl y ↦
      let mine : owned l ≡ some t = rw (y, move) at e in
      elim h [
        | inl n ↦ absurd (none≢some (sym n ∙ mine))
        | inr same ↦ ap (λ r. owned (procs r)) (eq_of-eqb q p y) ∙ sym same ∙ mine
      ]
  | inr n ↦ rw (n, move) at e
]

move-IsOwned :
    (file : Option LockFile) (procs : ℕ → Local) (p : ℕ) (l : Local)
    → (owned l ≡ none) ⊎ (owned l ≡ owned (procs p))
    → IsOwned file procs
    → IsOwned file (move p l procs)
move-IsOwned file procs p l h inv = record {
  at_path = λ q t e. inv.at_path q t (owned-move procs p l q t h e);
  alone = λ q r t u e f.
      inv.alone q r t u (owned-move procs p l q t h e) (owned-move procs p l r u h f);
}

-- Another file of the same number.
file-IsOwned :
    (file later : Option LockFile) (procs : ℕ → Local)
    → made_of later ≡ made_of file
    → IsOwned file procs
    → IsOwned later procs
file-IsOwned file later procs h inv = record {
  at_path = λ p t e. h ∙ inv.at_path p t e;
  alone = inv.alone;
}

made_of-stamp_file : (t : ℕ) (file : Option LockFile) → made_of (stamp_file t file) ≡ made_of file
unfolding made_of stamp_file
made_of-stamp_file t none = refl
made_of-stamp_file t (some f) = ground arith

made_of-old_file : (file : Option LockFile) → made_of (old_file file) ≡ made_of file
unfolding made_of old_file
made_of-old_file none = refl
made_of-old_file (some f) = refl

unowned :
    (procs : ℕ → Local) (q u : ℕ) → IsOwned none procs → owned (procs q) ≡ some u → none ≡ some u
unfolding made_of
unowned procs q u inv e = inv.at_path q u e

created-move :
    (procs : ℕ → Local) (p t q u : ℕ)
    → IsOwned none procs
    → owned (move p (created t) procs q) ≡ some u
    → (q ≡ p) × (some t ≡ some u)
unfolding owned move
created-move procs p t q u inv e = elim (Bool-cases (q == p)) [
  | inl y ↦ (eq_of-eqb q p y, rw (y, move) at e)
  | inr n ↦ absurd (none≢some (unowned procs q u inv (rw (n, move) at e)))
]

-- With no file nobody owns one, and then the creator is alone.
create-IsOwned :
    (procs : ℕ → Local) (p t : ℕ)
    → IsOwned none procs
    → IsOwned
        (some (record { made = t; stamped = false; stale = false }))
        (move p (created t) procs)
unfolding made_of
create-IsOwned procs p t inv = record {
  at_path = λ q u e. (created-move procs p t q u inv e).1;
  alone = λ q r u v e f.
      (created-move procs p t q u inv e).0 ∙ sym (created-move procs p t r v inv f).0;
}

not_both : (q p : ℕ) → (q == p) ≡ false → q ≡ p → none ≡ some p
not_both q p n e = ground arith

removed-move :
    (file : Option LockFile) (procs : ℕ → Local) (p t q u : ℕ)
    → owned (procs p) ≡ some t
    → IsOwned file procs
    → owned (move p idle procs q) ≡ some u
    → none ≡ some p
unfolding owned move
removed-move file procs p t q u e inv f = elim (Bool-cases (q == p)) [
  | inl y ↦ absurd (none≢some (rw (y, move) at f))
  | inr n ↦ not_both q p n (inv.alone q p u t (rw (n, move) at f) e)
]

-- The owner removes its file.
unlink-IsOwned :
    (file : Option LockFile) (procs : ℕ → Local) (p t : ℕ)
    → owned (procs p) ≡ some t
    → IsOwned file procs
    → IsOwned none (move p idle procs)
unlink-IsOwned file procs p t e inv = record {
  at_path = λ q u f. absurd (none≢some (removed-move file procs p t q u e inv f));
  alone = λ q r u v f g. absurd (none≢some (removed-move file procs p t q u e inv f));
}

checked :
    (b : Bool) (t : ℕ) (l : Local)
    → l ≡ holding t
    → (owned (if b then leaving t else idle) ≡ none)
      ⊎ (owned (if b then leaving t else idle) ≡ owned l)
unfolding owned
checked true t l e = inr (sym (ap owned e))
checked false t l e = inl refl

suc≢zero : (n : ℕ) → n + 1 ≢ 0
suc≢zero n h = omega arith

-- Before the first break nobody is at `_unlink_stale` with a file that has another owner.
step-IsOwned :
    {s u : System} → Step s u → u.breaks ≡ 0 → IsOwned s.file s.procs → IsOwned u.file u.procs
unfolding owned
step-IsOwned {s} (start p e) h inv = move-IsOwned s.file s.procs p trying (inl refl) inv
step-IsOwned {s} (give_up p e) h inv = move-IsOwned s.file s.procs p idle (inl refl) inv
step-IsOwned {s} (create p e f) h inv =
    create-IsOwned s.procs p s.next (subst (λ x. IsOwned x s.procs) f inv)
step-IsOwned {s} (stamp p t e) h inv =
    file-IsOwned s.file (stamp_file t s.file) (move p (holding t) s.procs)
      (made_of-stamp_file t s.file)
      (move-IsOwned s.file s.procs p (holding t) (inr (sym (ap owned e))) inv)
step-IsOwned {s} grow_stale h inv =
    file-IsOwned s.file (old_file s.file) s.procs (made_of-old_file s.file) inv
step-IsOwned {s} (look p f e d c b) h inv =
    move-IsOwned s.file s.procs p (seen f.made) (inl refl) inv
step-IsOwned {s} (look_again p t e) h inv =
    move-IsOwned s.file s.procs p (if owner_is t s.file then breaking else trying)
      (inl (ground arith)) inv
step-IsOwned {s} (look_blank p f e d c b) h inv =
    move-IsOwned s.file s.procs p breaking (inl refl) inv
step-IsOwned {s} (unlink_stale p e) h inv = absurd (suc≢zero s.breaks h)
step-IsOwned {s} (check_owner p t e) h inv =
    move-IsOwned s.file s.procs p (if owner_is t s.file then leaving t else idle)
      (checked (owner_is t s.file) t (s.procs p) e) inv
step-IsOwned {s} (unlink_own p t e) h inv = unlink-IsOwned s.file s.procs p t (ap owned e) inv

step-breaks : {s u : System} → Step s u → u.breaks ≡ 0 → s.breaks ≡ 0
step-breaks (start p e) h = h
step-breaks (give_up p e) h = h
step-breaks (create p e f) h = h
step-breaks (stamp p t e) h = h
step-breaks grow_stale h = h
step-breaks (look p f e d c b) h = h
step-breaks (look_again p t e) h = h
step-breaks (look_blank p f e d c b) h = h
step-breaks (unlink_stale p e) h = omega arith
step-breaks (check_owner p t e) h = h
step-breaks (unlink_own p t e) h = h

initial-IsOwned : IsOwned none (λ p. idle)
unfolding owned
initial-IsOwned = record {
  at_path = λ p t e. absurd (none≢some e);
  alone = λ p q t u e f. absurd (none≢some e);
}

reach-IsOwned : {s : System} → Reach s → s.breaks ≡ 0 → IsOwned s.file s.procs
reach-IsOwned here h = initial-IsOwned
reach-IsOwned (after {t = s} r step) h = step-IsOwned step h (reach-IsOwned r (step-breaks step h))

-- `acquire` has returned, and `release` is not begun.
unfoldable pub is_holding : Local → Bool
is_holding (holding t) = true
is_holding _ = false

holding_owned : (l : Local) → is_holding l ≡ true → (t : ℕ) × (owned l ≡ some t)
unfolding is_holding owned
holding_owned (holding t) h = (t, refl)
holding_owned idle h = absurd (false≢true h)
holding_owned trying h = absurd (false≢true h)
holding_owned (seen t) h = absurd (false≢true h)
holding_owned breaking h = absurd (false≢true h)
holding_owned (created t) h = absurd (false≢true h)
holding_owned (leaving t) h = absurd (false≢true h)

-- As long as no process has removed a lock as stale, the lock excludes: while one process holds
-- it, no other does.
pub holding_alone :
    {s : System} (p q : ℕ)
    → Reach s
    → s.breaks ≡ 0
    → (q == p) ≡ false
    → is_holding (s.procs p) ≡ true
    → is_holding (s.procs q) ≡ false
holding_alone {s} p q r h n e = elim (Bool-cases (is_holding (s.procs q))) [
  | inl f ↦
      let (t, owns_p) = holding_owned (s.procs p) e in
      let (u, owns_q) = holding_owned (s.procs q) f in
      absurd (none≢some (not_both q p n (IsOwned.alone (reach-IsOwned r h) q p u t owns_q owns_p)))
  | inr f ↦ f
]
