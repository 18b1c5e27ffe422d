-- ===== src/Plan/Meet/Owed.antt =====
-- core/requirements.py, the loop of `attach_requirements`: whose work a task tests, and that the rounds
-- of the loop do not change it.
use mathlib.Core.Bool.{true≢false}
use mathlib.Core.List.{map-map}
use supervisor_harness.Prelude.{
  ℕ, ◌≡◌, refl, sym, ap, ◌∙◌, inl, inr, true, false, not, ◌&&◌, ◌||◌, List, [], ◌∷◌, ◌++◌, map,
  arith, Bool-cases, filter, is_empty, ◌==◌,
}
use supervisor_harness.Text.{Text, mem, mem-cons, mem-append, mem-filter, text_eq_iff}
use supervisor_harness.Store.Fold.Dict.{Dict}
use supervisor_harness.Plan.Graph.Chains.{mem_nil}
use supervisor_harness.Plan.Tasks.{PlanTask, Requirement, tested_ids, tested_in}
use supervisor_harness.Plan.Tasks.Change.{read_at-map}
use supervisor_harness.Plan.Parts.{requirements_at, tested_at}
use supervisor_harness.Plan.Fences.{paths_at}
use supervisor_harness.Plan.Fences.Met.{KeptOff, KeptOff-Grows}
use supervisor_harness.Plan.Meet.{is_known, from_keys, to_test}
use supervisor_harness.Plan.Meet.Keeps.{Keeps, frame}

pub paths_of-Keeps :
    (before after : List PlanTask) (i : ℕ)
    → Keeps before after
    → paths_at after i ≡ paths_at before i
paths_of-Keeps before after i k =
    read_at-map (λ t. t.scope.paths) [] i after before
      (sym (map-map (λ z. z.0) frame after)
        ∙ ap (map (λ z. z.0)) k.frames
        ∙ map-map (λ z. z.0) frame before)

pub requirements_of-Keeps :
    (before after : List PlanTask) (i : ℕ)
    → Keeps before after
    → requirements_at after i ≡ requirements_at before i
requirements_of-Keeps before after i k = read_at-map PlanTask.requirements [] i after before (
    sym (map-map (λ z. z.1) frame after)
    ∙ ap (map (λ z. z.1)) k.frames
    ∙ map-map (λ z. z.1) frame before)

pub tested_of-Keeps :
    (before after : List PlanTask) (i : ℕ)
    → Keeps before after
    → tested_at after i ≡ tested_at before i
unfolding tested_ids
tested_of-Keeps before after i k = read_at-map tested_ids [] i after before (
    sym (map-map (λ z. tested_in z.2) frame after)
    ∙ ap (map (λ z. tested_in z.2)) k.frames
    ∙ map-map (λ z. tested_in z.2) frame before)

pub mem-from_keys :
    (r : Text) (seen xs : List Text) → mem r (from_keys seen xs) ≡ (mem r seen || mem r xs)
unfolding from_keys mem
mem-from_keys r seen [] = ground arith
mem-from_keys r seen (x ∷ xs) = ground (
  arith,
  mem-from_keys r seen xs,
  mem-from_keys r (seen ++ x ∷ []) xs,
  mem-append r seen (x ∷ []),
  mem-cons r x [],
  mem_nil r,
  text_eq_iff x r,
)

pub full-of_mem : (r : Text) (xs : List Text) → mem r xs ≡ true → is_empty xs ≡ false
full-of_mem r [] h = absurd (true≢false (sym h ∙ mem_nil r))
full-of_mem r (x ∷ xs) h = refl

module _ (ledger : Dict Requirement) where
  -- A task at `j` delivers something that the one at `i` tests, on the ledger, and does not deliver.
  pub record Owes (tasks : List PlanTask) (i j : ℕ) (rid : Text) : Type 0 where
    pub on_ledger : is_known ledger rid ≡ true
    pub tested : mem rid (tested_at tasks i) ≡ true
    pub not_own : mem rid (requirements_at tasks i) ≡ false
    pub delivered : mem rid (requirements_at tasks j) ≡ true

  pub Owes-Keeps :
      (before after : List PlanTask) (i j : ℕ) (rid : Text)
      → Keeps before after
      → Owes after i j rid
      → Owes before i j rid
  Owes-Keeps before after i j rid k o = record {
    on_ledger = o.on_ledger;
    tested = ap (mem rid) (sym (tested_of-Keeps before after i k)) ∙ o.tested;
    not_own = ap (mem rid) (sym (requirements_of-Keeps before after i k)) ∙ o.not_own;
    delivered = ap (mem rid) (sym (requirements_of-Keeps before after j k)) ∙ o.delivered;
  }

  -- The files of the one are kept from the other, who delivers what it tests.
  abbrev pub Fenced : List PlanTask → ℕ → ℕ → Type 0
  Fenced tasks i j =
      (rid q : Text) → Owes tasks i j rid → mem q (paths_at tasks i) ≡ true → KeptOff j i q tasks

  pub Fenced-Keeps :
      (before after : List PlanTask) (i j : ℕ)
      → Keeps before after
      → Fenced before i j
      → Fenced after i j
  Fenced-Keeps before after i j k h rid q o m =
      KeptOff-Grows j i q before after k.grows (paths_of-Keeps before after j k) (
        h rid q (Owes-Keeps before after i j rid k o)
          (ap (mem q) (sym (paths_of-Keeps before after i k)) ∙ m))

  pub mem-to_test :
      (tasks : List PlanTask) (i j : ℕ) (rid : Text)
      → Owes tasks i j rid
      → mem rid (to_test ledger tasks i) ≡ true
  unfolding to_test
  mem-to_test tasks i j rid o =
      let test = λ (r : Text). is_known ledger r && not (mem r (requirements_at tasks i)) in
      mem-from_keys rid [] (filter test (tested_at tasks i))
      ∙ (ground (
        arith,
        mem_nil rid,
        mem-filter test rid (tested_at tasks i),
        o.on_ledger,
        o.tested,
        o.not_own,
      ))

  pub apart : (tasks : List PlanTask) (i j : ℕ) (rid : Text) → Owes tasks i j rid → (j == i) ≡ false
  apart tasks i j rid o = elim (Bool-cases (j == i)) [
    | inl same ↦
        let e : j ≡ i = ground (arith, same) in
        absurd
          (true≢false (sym o.delivered ∙ ap (λ z. mem rid (requirements_at tasks z)) e ∙ o.not_own))
    | inr other ↦ other
  ]
