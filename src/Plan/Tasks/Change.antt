-- ===== src/Plan/Tasks/Change.antt =====
-- A change of the task at one place of the plan: what it leaves, for every field and predicate.
use mathlib.Core.Bool.{true≢false}
use supervisor_harness.Prelude.{
  ℕ, zero, suc, ◌+◌, ◌<◌, ◌≡◌, refl, sym, ap, ◌∙◌, true, false, none, some, List, [], ◌∷◌, map,
  arith, All, length, subst,
}
use supervisor_harness.Text.{Text, strip, mem, text_eq_refl}
use supervisor_harness.Store.Fold.Dict.{Dict, put}
use supervisor_harness.Plan.Tasks.{PlanTask, task_at, change, read_at, places, task_ids, by_title}

module _ {ℓ} {A : Type ℓ} (field : PlanTask → A) where
  pub map-change :
      (f : PlanTask → PlanTask)
      → ((t : PlanTask) → field (f t) ≡ field t)
      → (i : ℕ) (tasks : List PlanTask) → map field (change i f tasks) ≡ map field tasks
  unfolding change
  map-change f h i [] = refl
  map-change f h zero (t ∷ tasks) = ap (λ x. x ∷ map field tasks) (h t)
  map-change f h (suc i) (t ∷ tasks) = ap (λ rest. field t ∷ rest) (map-change f h i tasks)

  pub read_at-map :
      (default : A) (i : ℕ) (ts us : List PlanTask)
      → map field ts ≡ map field us
      → read_at field default i ts ≡ read_at field default i us
  unfolding read_at task_at
  read_at-map default i [] [] h = refl
  read_at-map default i [] (u ∷ us) h = cc h
  read_at-map default i (t ∷ ts) [] h = cc h
  read_at-map default zero (t ∷ ts) (u ∷ us) h = cc h
  read_at-map default (suc i) (t ∷ ts) (u ∷ us) h = read_at-map default i ts us (cc h)

  pub read_at-some :
      (default : A) (i : ℕ) (tasks : List PlanTask) (t : PlanTask)
      → task_at i tasks ≡ some t
      → read_at field default i tasks ≡ field t
  unfolding read_at
  read_at-some default i tasks t h = rw (read_at, h) refl

module _ {ℓ κ} {P : PlanTask → Type ℓ} {Q : PlanTask → Type κ}
    (keep : (t : PlanTask) → P t → Q t) where
  pub All-map : (tasks : List PlanTask) → All P tasks → All Q tasks
  All-map [] h = tt
  All-map (t ∷ tasks) (p, h) = (keep t p, All-map tasks h)

  -- The changed task is the one at the place.
  pub All-change :
      (f : PlanTask → PlanTask) (i : ℕ) (tasks : List PlanTask)
      → ((t : PlanTask) → task_at i tasks ≡ some t → P t → Q (f t))
      → All P tasks
      → All Q (change i f tasks)
  unfolding change task_at
  All-change f i [] new h = tt
  All-change f zero (t ∷ tasks) new (p, h) = (new t refl p, All-map tasks h)
  All-change f (suc i) (t ∷ tasks) new (p, h) = (keep t p, All-change f i tasks new h)

abbrev pub names : PlanTask → Text × Text
names t = (t.id, t.title)

pub task_ids-names :
    (ts us : List PlanTask) → map names ts ≡ map names us → task_ids ts ≡ task_ids us
unfolding task_ids
task_ids-names [] [] h = refl
task_ids-names [] (u ∷ us) h = cc h
task_ids-names (t ∷ ts) [] h = cc h
task_ids-names (t ∷ ts) (u ∷ us) h =
    let head : names t ≡ names u = cc h in
    let tail : map names ts ≡ map names us = cc h in
    cc (ap (λ p. p.0) head, task_ids-names ts us tail)

pub by_title-names :
    (casefold : Text → Text) (titles : Dict Text) (ts us : List PlanTask)
    → map names ts ≡ map names us
    → by_title casefold titles ts ≡ by_title casefold titles us
unfolding by_title
by_title-names casefold titles [] [] h = refl
by_title-names casefold titles [] (u ∷ us) h = cc h
by_title-names casefold titles (t ∷ ts) [] h = cc h
by_title-names casefold titles (t ∷ ts) (u ∷ us) h =
    let head : names t ≡ names u = cc h in
    let tail : map names ts ≡ map names us = cc h in
    ap (λ p. by_title casefold (put (casefold (strip p.1)) p.0 titles) ts) head
    ∙ by_title-names casefold (put (casefold (strip u.title)) u.id titles) ts us tail

-- A place within the plan has a task.
pub task_at_lt :
    (i : ℕ) (tasks : List PlanTask) → i < length tasks → (t : PlanTask) × (task_at i tasks ≡ some t)
unfolding task_at
task_at_lt i [] h = absurd (omega arith)
task_at_lt zero (t ∷ tasks) h = (t, refl)
task_at_lt (suc i) (t ∷ tasks) h = task_at_lt i tasks (omega arith)

pub mem-task_ids :
    (i : ℕ) (tasks : List PlanTask) (t : PlanTask)
    → task_at i tasks ≡ some t
    → mem t.id (task_ids tasks) ≡ true
unfolding task_at task_ids mem
mem-task_ids i [] t h = cc h
mem-task_ids zero (u ∷ tasks) t h = ground (arith, h, text_eq_refl t.id)
mem-task_ids (suc i) (u ∷ tasks) t h = ground (arith, mem-task_ids i tasks t h)

-- No id stands twice.
abbrev pub Distinct : List Text → Type 0
Distinct [] = Unit
Distinct (x ∷ xs) = (mem x xs ≡ false) × Distinct xs

pub Distinct-task_at :
    (i j : ℕ) (tasks : List PlanTask) (t u : PlanTask)
    → Distinct (task_ids tasks)
    → task_at i tasks ≡ some t
    → task_at j tasks ≡ some u
    → t.id ≡ u.id
    → i ≡ j
unfolding task_at task_ids
Distinct-task_at i j [] t u d h k e = cc h
Distinct-task_at zero zero (x ∷ tasks) t u d h k e = refl
Distinct-task_at zero (suc j) (x ∷ tasks) t u (new, d) h k e =
    let head : x ≡ t = cc h in
    absurd (
      true≢false (
        sym (mem-task_ids j tasks u k)
        ∙ ap (λ z. mem z (task_ids tasks)) (sym e ∙ ap PlanTask.id (sym head))
        ∙ new))
Distinct-task_at (suc i) zero (x ∷ tasks) t u (new, d) h k e =
    let head : x ≡ u = cc k in
    absurd (
      true≢false (
        sym (mem-task_ids i tasks t h)
        ∙ ap (λ z. mem z (task_ids tasks)) (e ∙ ap PlanTask.id (sym head))
        ∙ new))
Distinct-task_at (suc i) (suc j) (x ∷ tasks) t u (new, d) h k e =
    ap suc (Distinct-task_at i j tasks t u d h k e)

pub lt-of_task_at :
    (i : ℕ) (tasks : List PlanTask) (t : PlanTask) → task_at i tasks ≡ some t → i < length tasks
unfolding task_at
lt-of_task_at i [] t h = cc h
lt-of_task_at zero (u ∷ tasks) t h = omega arith
lt-of_task_at (suc i) (u ∷ tasks) t h = omega (arith, lt-of_task_at i tasks t h)

pub length-task_ids : (tasks : List PlanTask) → length (task_ids tasks) ≡ length tasks
unfolding task_ids
length-task_ids [] = refl
length-task_ids (t ∷ tasks) = ap suc (length-task_ids tasks)

pub read_at-none {ℓ} :
    {A : Type ℓ} (field : PlanTask → A) (default : A) (i : ℕ) (tasks : List PlanTask)
    → task_at i tasks ≡ none
    → read_at field default i tasks ≡ default
unfolding read_at
read_at-none field default i tasks h = rw (read_at, h) refl

-- What stands at the place that a change is of.
pub read_at-change {ℓ} :
    {A : Type ℓ} (field : PlanTask → A) (default : A) (f : PlanTask → PlanTask) (i : ℕ)
    (tasks : List PlanTask) (t : PlanTask)
    → task_at i tasks ≡ some t
    → read_at field default i (change i f tasks) ≡ field (f t)
unfolding read_at task_at change
read_at-change field default f i [] t h = cc h
read_at-change field default f zero (u ∷ tasks) t h =
    let same : u ≡ t = cc h in ap (λ x. field (f x)) same
read_at-change field default f (suc i) (u ∷ tasks) t h = read_at-change field default f i tasks t h

-- A place of the plan is on the list of its places.
pub All-places {ℓ} :
    (P : ℕ → Type ℓ) (from : ℕ) (tasks : List PlanTask) (j : ℕ)
    → j < length tasks
    → All P (places from tasks)
    → P (from + j)
unfolding places
All-places P from [] j lt h = absurd (omega arith)
All-places P from (t ∷ tasks) zero lt (p, h) = subst P (omega arith) p
All-places P from (t ∷ tasks) (suc j) lt (p, h) =
    subst P (omega arith) (All-places P (suc from) tasks j (omega arith) h)

-- As many tasks, when a field of theirs is the same.
pub length-same {ℓ} :
    {A : Type ℓ} (field : PlanTask → A) (ts us : List PlanTask)
    → map field ts ≡ map field us
    → length ts ≡ length us
length-same field [] [] h = refl
length-same field [] (u ∷ us) h = cc h
length-same field (t ∷ ts) [] h = cc h
length-same field (t ∷ ts) (u ∷ us) h = ap suc (length-same field ts us (cc h))

pub All-lt_eq : (is : List ℕ) {m n : ℕ} → m ≡ n → All (λ j. j < n) is → All (λ j. j < m) is
All-lt_eq [] e h = tt
All-lt_eq (j ∷ is) e (lt, h) = (omega (arith, e), All-lt_eq is e h)

pub places_lt :
    (from : ℕ) (tasks : List PlanTask) → All (λ j. j < from + length tasks) (places from tasks)
unfolding places
places_lt from [] = tt
places_lt from (t ∷ tasks) =
    (omega arith, All-lt_eq (places (suc from) tasks) (omega arith) (places_lt (suc from) tasks))

pub All-all_places {ℓ} :
    (P : ℕ → Type ℓ) (tasks : List PlanTask) (j : ℕ)
    → j < length tasks
    → All P (places 0 tasks)
    → P j
All-all_places P tasks j lt h =
    let same : 0 + j ≡ j = omega arith in subst P same (All-places P 0 tasks j lt h)

pub All-places_lt : (tasks : List PlanTask) → All (λ j. j < length tasks) (places 0 tasks)
All-places_lt tasks = All-lt_eq (places 0 tasks) (omega arith) (places_lt 0 tasks)
