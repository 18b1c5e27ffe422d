-- ===== src/Plan/Meet/Sound.antt =====
-- core/requirements.py, the loop of `attach_requirements`: every dependency of a task is among
-- those that are kept beside the plan, and those have no cycle.
use mathlib.Core.List.{map-map}
use supervisor_harness.Prelude.{
  map-append, ℕ, ◌≡◌, refl, sym, ap, ◌∙◌, ◌⊎◌, inl, inr, true, false, not, ◌&&◌, List, [], ◌∷◌,
  ◌++◌, map, arith, All, Bool-cases, subst, is_empty,
}
use supervisor_harness.Text.{Text, mem, mem-cons, mem-append, mem-filter, text_eq_iff}
use supervisor_harness.Store.Fold.Dict.{Dict}
use supervisor_harness.Plan.Graph.{Deps, successors, depends_on}
use supervisor_harness.Plan.Graph.Chains.{mem_nil}
use supervisor_harness.Plan.Tasks.{PlanTask, Plan, read_at, task_ids, by_title, named, named_ids}
use supervisor_harness.Plan.Tasks.Change.{
  map-change, read_at-some, All-change, names, task_ids-names, by_title-names,
}
use supervisor_harness.Plan.Parts.{id_at}
use supervisor_harness.Plan.Fences.{fence, blind, forbid, hide, paths_at}
use supervisor_harness.Plan.Fences.Kept.{fence_each-map, blind-map}
use supervisor_harness.Plan.Meet.{Linked, link, depend, order}
use supervisor_harness.Plan.Meet.Steps.{ordered, order_early, order_there, order_added}
use supervisor_harness.Plan.Meet.Cycles.{IsAcyclic, link-IsAcyclic, link-successors, link_there}

-- What the dependencies of a plan are read from.
abbrev pub links : PlanTask → (Text × Text) × List Text
links t = (names t, t.depends_on)

module _ (casefold : Text → Text) (ids : List Text) (titles : Dict Text) where
  -- The dependencies of a task, as ids, are kept beside the plan.
  abbrev pub Covers : Deps → PlanTask → Type 0
  Covers deps t =
      (v : Text)
      → mem v (named_ids casefold ids titles t.depends_on) ≡ true
      → mem v (successors deps t.id) ≡ true

  pub record Sound (l : Linked) : Type 0 where
    pub same_ids : task_ids l.plan.tasks ≡ ids
    pub same_titles : by_title casefold [] l.plan.tasks ≡ titles
    pub acyclic : IsAcyclic l.deps
    pub covered : All (Covers l.deps) l.plan.tasks

  All-links :
      (deps : Deps) (ts us : List PlanTask)
      → map links ts ≡ map links us
      → All (Covers deps) us
      → All (Covers deps) ts
  All-links deps [] us e h = tt
  All-links deps (t ∷ ts) [] e h = cc e
  All-links deps (t ∷ ts) (u ∷ us) e (c, h) =
      let head : links t ≡ links u = cc e in
      (
        subst
            (λ z.
              (v : Text)
              → mem v (named_ids casefold ids titles z.1) ≡ true
              → mem v (successors deps (z.0).0) ≡ true)
            (sym head) c,
        All-links deps ts us (cc e) h,
      )

  -- A step that leaves the links of every task as they are.
  pub Sound-links :
      (l : Linked) (p : Plan)
      → map links p.tasks ≡ map links l.plan.tasks
      → Sound l
      → Sound (record l { plan = p })
  Sound-links l p e h =
      let same : map names p.tasks ≡ map names l.plan.tasks =
        sym (map-map (λ z. z.0) links p.tasks)
        ∙ ap (map (λ z. z.0)) e
        ∙ map-map (λ z. z.0) links l.plan.tasks in
      record {
        same_ids = task_ids-names p.tasks l.plan.tasks same ∙ h.same_ids;
        same_titles = by_title-names casefold [] p.tasks l.plan.tasks same ∙ h.same_titles;
        acyclic = h.acyclic;
        covered = All-links l.deps p.tasks l.plan.tasks e h.covered;
      }

  named_self : (b : Text) → mem b ids ≡ true → named casefold ids titles b ≡ b
  unfolding named
  named_self b m = rw (named, m) refl

  named_ids-append :
      (entries : List Text) (b v : Text)
      → mem b ids ≡ true
      → mem v (named_ids casefold ids titles (entries ++ b ∷ [])) ≡ true
      → (mem v (named_ids casefold ids titles entries) ≡ true) ⊎ (b ≡ v)
  unfolding named_ids
  named_ids-append entries b v m h =
      let as_id = λ (d : Text). named casefold ids titles d in
      let full = λ (d : Text). not (is_empty d) in
      let found : (full v && mem v (map as_id (entries ++ b ∷ []))) ≡ true =
        sym (mem-filter full v (map as_id (entries ++ b ∷ []))) ∙ h in
      ground (
        arith,
        found,
        mem-filter full v (map as_id entries),
        map-append as_id entries (b ∷ []),
        mem-append v (map as_id entries) (as_id b ∷ []),
        mem-cons v (as_id b) [],
        mem_nil v,
        named_self b m,
        text_eq_iff (as_id b) v,
      )

  module _ (builder tester : ℕ) (l : Linked) where
    names-depend : map names (ordered builder tester l).plan.tasks ≡ map names l.plan.tasks
    names-depend =
        map-change names (depend (id_at l.plan.tasks builder)) (λ x. unfold depend in refl) tester
          l.plan.tasks

    Covers-depend :
        mem (id_at l.plan.tasks builder) ids ≡ true
        → (x : PlanTask) → x.id ≡ (id_at l.plan.tasks tester)
        → Covers l.deps x
        → Covers
            (link l.deps (id_at l.plan.tasks tester) (id_at l.plan.tasks builder))
            (depend (id_at l.plan.tasks builder) x)
    unfolding depend
    Covers-depend m x e c v h =
        elim (named_ids-append x.depends_on (id_at l.plan.tasks builder) v m h) [
          | inl old ↦
              link-successors l.deps (id_at l.plan.tasks tester) (id_at l.plan.tasks builder) x.id v
                (c v old)
          | inr new ↦
              subst
                (λ z.
                  mem v (
                    successors
                      (link l.deps (id_at l.plan.tasks tester) (id_at l.plan.tasks builder)) z)
                  ≡ true)
                (sym e)
                (subst
                  (λ z.
                    mem z (
                      successors
                        (link l.deps (id_at l.plan.tasks tester) (id_at l.plan.tasks builder))
                        (id_at l.plan.tasks tester))
                    ≡ true)
                  new (link_there l.deps (id_at l.plan.tasks tester) (id_at l.plan.tasks builder)))
        ]

    Sound-ordered :
        Sound l
        → mem (id_at l.plan.tasks builder) ids ≡ true
        → ¬ ((id_at l.plan.tasks builder) ≡ (id_at l.plan.tasks tester))
        → depends_on l.deps (id_at l.plan.tasks builder) (id_at l.plan.tasks tester) ≡ false
        → Sound (ordered builder tester l)
    Sound-ordered h m apart e = record {
      same_ids =
          task_ids-names (ordered builder tester l).plan.tasks l.plan.tasks names-depend
          ∙ h.same_ids;
      same_titles =
          by_title-names casefold [] (ordered builder tester l).plan.tasks l.plan.tasks names-depend
          ∙ h.same_titles;
      acyclic =
          link-IsAcyclic l.deps (id_at l.plan.tasks tester) (id_at l.plan.tasks builder) h.acyclic
            apart e;
      covered =
          All-change
            (λ x c v q.
              link-successors l.deps (id_at l.plan.tasks tester) (id_at l.plan.tasks builder) x.id v
                (c v q))
            (depend (id_at l.plan.tasks builder)) tester l.plan.tasks
            (λ x at c.
              Covers-depend m x (sym (read_at-some PlanTask.id [] tester l.plan.tasks x at)) c)
            h.covered;
    }

    pub Sound-order :
        Sound l
        → mem (id_at l.plan.tasks builder) ids ≡ true
        → ¬ ((id_at l.plan.tasks builder) ≡ (id_at l.plan.tasks tester))
        → Sound (order builder tester l)
    Sound-order h m apart =
        elim (Bool-cases
          (depends_on l.deps (id_at l.plan.tasks builder) (id_at l.plan.tasks tester))) [
            | inl e ↦ subst Sound (sym (order_early builder tester l e)) (Sound-links l _ refl h)
            | inr e ↦
                elim (Bool-cases (
                  mem (id_at l.plan.tasks builder)
                    (read_at PlanTask.depends_on [] tester l.plan.tasks))) [
                      | inl d ↦ subst Sound (sym (order_there builder tester l e d)) h
                      | inr d ↦
                          subst Sound (sym (order_added builder tester l e d))
                            (Sound-ordered h m apart e)
                    ]
          ]

  pub Sound-fence : (b t : ℕ) (l : Linked) → Sound l → Sound (record l { plan = fence b t l.plan })
  unfolding fence
  Sound-fence b t l h =
      Sound-links l (fence b t l.plan)
        (fence_each-map links (λ pattern x. unfold forbid in refl) b t (paths_at l.plan.tasks t)
          l.plan)
        h

  pub Sound-blind : (b t : ℕ) (l : Linked) → Sound l → Sound (record l { plan = blind b t l.plan })
  Sound-blind b t l h =
      Sound-links l (blind b t l.plan) (blind-map links (λ paths x. unfold hide in refl) b t l.plan)
        h
