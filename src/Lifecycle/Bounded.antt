-- ===== src/Lifecycle/Bounded.antt =====
-- core/lifecycle.py, `_spawn`: its first loop bounds every agent by the ceilings that the run had, and
-- the notes that it emits change none of them.
use supervisor_harness.Prelude.{
  ℕ, suc, ◌≡◌, refl, sym, ap, subst, ◌∙◌, inl, inr, true, false, none, some, List, [], ◌∷◌, map,
  is_empty, Bool-cases, if◌then◌else◌,
}
use supervisor_harness.Text.{Text}
use supervisor_harness.Envelope
use supervisor_harness.Envelope.{ScopeEnvelope, Scope, Ceiling, attenuate}
use supervisor_harness.Envelope.Notes.{attenuate_unnoted}
use supervisor_harness.Store.EventLog.{Codec, Lawful}
use supervisor_harness.Store.Fold.Dict.{Dict}
use supervisor_harness.Store.Fold.State.{RunState, AgentSpec}
use supervisor_harness.Store.Fold.Events.{Event, note}
use supervisor_harness.Store.Fold.OnRun.{on_note}
use supervisor_harness.Store.Fold.Project.{handle, apply, stamp, rejected, apply_contained}
use supervisor_harness.Store.Session.{Write, Session, with_seq, emit}
use supervisor_harness.Lifecycle.{
  ceilings, bounded, build, note_by, context_of, tell, bound_one, bound_each,
}
use supervisor_harness.Lifecycle.Emit.{
  IsContained, IsNumbered, emit-some, emit-state, emit-IsNumbered,
}

-- What the ceilings are read from.
pub record SameCeilings (s t : RunState) : Type 0 where
  pub envelope : s.envelope ≡ t.envelope
  pub tasks : s.tasks ≡ t.tasks
  pub agents : s.agents ≡ t.agents

SameCeilings-refl : (s : RunState) → SameCeilings s s
SameCeilings-refl s = record { envelope = refl; tasks = refl; agents = refl }

SameCeilings-trans : (s t u : RunState) → SameCeilings s t → SameCeilings t u → SameCeilings s u
SameCeilings-trans s t u h k = record {
  envelope = h.envelope ∙ k.envelope;
  tasks = h.tasks ∙ k.tasks;
  agents = h.agents ∙ k.agents;
}

ceilings_same :
    (now : Text) (s t : RunState) (spec : AgentSpec)
    → SameCeilings s t
    → ceilings now s spec ≡ ceilings now t spec
unfolding ceilings
ceilings_same now s t spec h = rw (ceilings, h.envelope, h.tasks, h.agents) refl

pub bounded_same :
    (now : Text) (s t : RunState) (spec : AgentSpec)
    → SameCeilings s t
    → bounded now s spec ≡ bounded now t spec
unfolding bounded
bounded_same now s t spec h =
    ap (λ z. rescoped spec (attenuate spec.scope z).0) (ceilings_same now s t spec h)
  where
    rescoped : AgentSpec → Scope → AgentSpec
    rescoped spec scope = record spec { scope = scope }

note-SameCeilings :
    (s : RunState) (e : Event) (text : Text) (context : Dict Text)
    → SameCeilings s (apply_contained s (record e { body = note text context }))
unfolding apply_contained apply handle stamp rejected on_note
note-SameCeilings s e text context = record { envelope = refl; tasks = refl; agents = refl }

empty-nil {ℓ} : {A : Type ℓ} (xs : List A) → is_empty xs ≡ true → xs ≡ []
empty-nil [] h = refl
empty-nil (x ∷ xs) h = cc h

map_same : {A B : Type 0} (f g : A → B) (xs : List A) → ((x : A) → f x ≡ g x) → map f xs ≡ map g xs
map_same f g [] h = refl
map_same f g (x ∷ xs) h = rw (h x, map_same f g xs h) refl

module _ (codec : Codec Event) (issue : Session → ℕ → Text × Text) (disk : Session → Write)
    (now : Text) (say : Envelope.Note → Text) (stored : AgentSpec → AgentSpec)
    (lawful : Lawful codec) (contained : (s : Session) → IsContained (disk s)) where
  -- Where a loop stands that emitted notes.
  pub record Going (s t : Session) : Type 0 where
    pub tail : ℕ
    pub numbered : IsNumbered codec tail t
    pub same : SameCeilings s.state t.state

  Going-then : (s t u : Session) → SameCeilings s.state t.state → Going t u → Going s u
  Going-then s t u h g = record {
    tail = g.tail;
    numbered = g.numbered;
    same = SameCeilings-trans s.state t.state u.state h g.same;
  }

  tell-told :
      (spec : AgentSpec) (m : Envelope.Note) (notes : List Envelope.Note) (s : Session) (e : Event)
      → (note_by codec issue disk spec.id (say m) (context_of spec) s).1 ≡ some e
      → tell codec issue disk now say stored spec (m ∷ notes) s
        ≡ tell codec issue disk now say stored spec notes
            (note_by codec issue disk spec.id (say m) (context_of spec) s).0
  unfolding tell
  tell-told spec m notes s e h = rw (tell, h) refl

  tell-Going :
      (spec : AgentSpec) (notes : List Envelope.Note) (s : Session) (n : ℕ)
      → IsNumbered codec n s
      → ((tell codec issue disk now say stored spec notes s).1 ≡ true)
        × Going s (tell codec issue disk now say stored spec notes s).0
  unfolding tell note_by
  tell-Going spec [] s n h =
      (refl, record { tail = n; numbered = h; same = SameCeilings-refl s.state })
  tell-Going spec (m ∷ notes) s n h =
      let context = context_of spec in
      let event = build codec issue disk s 0 spec.id (note (say m) context) in
      let after = (emit codec (disk s) event s).0 in
      let same : SameCeilings s.state after.state =
        subst (SameCeilings s.state) (sym (emit-state codec lawful (disk s) s n h event))
          (note-SameCeilings s.state (with_seq (suc n) event) (say m) context) in
      let (told, going) =
        tell-Going spec notes after (suc n) (emit-IsNumbered codec lawful (disk s) s n h event) in
      subst (λ z. (z.1 ≡ true) × Going s z.0)
        (sym (
          tell-told spec m notes s (with_seq (suc n) event)
            (emit-some codec lawful (disk s) s n h event (contained s))))
        (
          told,
          Going-then s after (tell codec issue disk now say stored spec notes after).0 same going,
        )

  bound_one-untold :
      (spec : AgentSpec) (s : Session)
      → is_empty (attenuate spec.scope (ceilings now s.state spec)).1 ≡ true
      → bound_one codec issue disk now say stored spec s ≡ (s, some spec)
  unfolding bound_one
  bound_one-untold spec s h = rw (bound_one, h) refl

  bound_one-told :
      (spec : AgentSpec) (s : Session)
      → is_empty (attenuate spec.scope (ceilings now s.state spec)).1 ≡ false
      → let t =
          tell codec issue disk now say stored spec
            (attenuate spec.scope (ceilings now s.state spec)).1
            s in
        bound_one codec issue disk now say stored spec s
        ≡ (t.0, if t.1 then some (bounded now s.state spec) else none)
  unfolding bound_one bounded
  bound_one-told spec s h = rw (bound_one, h) refl

  unnoted :
      (spec : AgentSpec) (s : RunState)
      → is_empty (attenuate spec.scope (ceilings now s spec)).1 ≡ true
      → spec ≡ bounded now s spec
  unfolding bounded
  unnoted spec s h = ap rescoped (
      sym (
        attenuate_unnoted spec.scope (ceilings now s spec)
          (empty-nil (attenuate spec.scope (ceilings now s spec)).1 h)))
    where
      rescoped : Scope → AgentSpec
      rescoped scope = record spec { scope = scope }

  bound_one-Going :
      (spec : AgentSpec) (s : Session) (n : ℕ)
      → IsNumbered codec n s
      → ((bound_one codec issue disk now say stored spec s).1 ≡ some (bounded now s.state spec))
        × Going s (bound_one codec issue disk now say stored spec s).0
  bound_one-Going spec s n h =
      let notes = (attenuate spec.scope (ceilings now s.state spec)).1 in
      elim (Bool-cases (is_empty notes)) [
        | inl y ↦
            subst (λ z. (z.1 ≡ some (bounded now s.state spec)) × Going s z.0)
              (sym (bound_one-untold spec s y))
              (
                ap some (unnoted spec s.state y),
                record { tail = n; numbered = h; same = SameCeilings-refl s.state },
              )
        | inr k ↦
            let (told, going) = tell-Going spec notes s n h in
            subst (λ z. (z.1 ≡ some (bounded now s.state spec)) × Going s z.0)
              (sym (bound_one-told spec s k))
              (ap (λ z. if z then some (bounded now s.state spec) else none) told, going)
      ]

  bound_each-cons :
      (spec : AgentSpec) (specs : List AgentSpec) (s : Session) (agent : AgentSpec)
      (agents : List AgentSpec)
      → let after = (bound_one codec issue disk now say stored spec s).0 in
        (bound_one codec issue disk now say stored spec s).1 ≡ some agent
        → (bound_each codec issue disk now say stored specs after).1 ≡ some agents
        → bound_each codec issue disk now say stored (spec ∷ specs) s
          ≡ ((bound_each codec issue disk now say stored specs after).0, some (agent ∷ agents))
  unfolding bound_each
  bound_each-cons spec specs s agent agents h k = rw (bound_each, h, k) refl

  -- Every agent is bounded by the ceilings there were before the first note.
  pub bound_each-Going :
      (specs : List AgentSpec) (s : Session) (n : ℕ)
      → IsNumbered codec n s
      → ((bound_each codec issue disk now say stored specs s).1
          ≡ some (map (bounded now s.state) specs))
        × Going s (bound_each codec issue disk now say stored specs s).0
  unfolding bound_each
  bound_each-Going [] s n h =
      (refl, record { tail = n; numbered = h; same = SameCeilings-refl s.state })
  bound_each-Going (spec ∷ specs) s n h =
      let after = (bound_one codec issue disk now say stored spec s).0 in
      let (first, going) = bound_one-Going spec s n h in
      let (rest, onwards) = bound_each-Going specs after going.tail going.numbered in
      let alike : map (bounded now after.state) specs ≡ map (bounded now s.state) specs =
        map_same (bounded now after.state) (bounded now s.state) specs
          (λ a. sym (bounded_same now s.state after.state a going.same)) in
      subst
        (λ z.
          (z.1 ≡ some (bounded now s.state spec ∷ map (bounded now s.state) specs)) × Going s z.0)
        (sym (
          bound_each-cons spec specs s (bounded now s.state spec) (map (bounded now s.state) specs)
            first (rest ∙ ap some alike)))
        (
          refl,
          Going-then s after (bound_each codec issue disk now say stored specs after).0 going.same
              onwards,
        )
