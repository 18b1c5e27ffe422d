-- ===== src/Plan/Graph/Walk.antt =====
-- What `_depends_on` decides: the chains of dependencies from one task to another.
use supervisor_harness.Prelude.{ℕ, suc, ◌≡◌, true}
use supervisor_harness.Text.{Text, mem}
use supervisor_harness.Plan.Graph.{Deps, successors}

-- `Walk deps n t o`: a chain of `n` more dependencies than one leads from `t` to `o`.
pub data Walk (deps : Deps) : ℕ → Text → Text → Type 0 where
  direct : {t o : Text} → mem o (successors deps t) ≡ true → Walk deps 0 t o
  through :
      {n : ℕ} {t u o : Text}
      → mem u (successors deps t) ≡ true
      → Walk deps n u o
      → Walk deps (suc n) t o

abbrev pub Waits : Deps → Text → Text → Type 0
Waits deps t o = (n : ℕ) × Walk deps n t o
