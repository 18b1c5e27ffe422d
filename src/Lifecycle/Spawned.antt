-- ===== src/Lifecycle/Spawned.antt =====
-- core/lifecycle.py, `_spawn`: the agents that come back are the ones that were asked for, bounded.
use supervisor_harness.Prelude.{
  ℕ, suc, ◌≡◌, refl, ap, ◌∙◌, false, ◌||◌, any, some, List, [], ◌∷◌, map, is_empty, All,
  if◌then◌else◌,
}
use supervisor_harness.Text.{Text, codes, mem, text_eq, text_eq_refl}
use supervisor_harness.Envelope
use supervisor_harness.Envelope.{Scope, Ceiling, attenuate, effective}
use supervisor_harness.Envelope.Forbidden.{forbids, attenuate-forbidden}
use supervisor_harness.Store.EventLog.{Codec, Lawful}
use supervisor_harness.Store.EventLog.Reread.{number_events}
use supervisor_harness.Store.Fold.Dict.{Dict, get, put}
use supervisor_harness.Store.Fold.Lookup.{get-put_any}
use supervisor_harness.Store.Fold.State.{RunState, AgentSpec}
use supervisor_harness.Store.Fold.Events.{Event, decoded, agent_spawned}
use supervisor_harness.Store.Fold.OnAgents.{on_agent_spawned}
use supervisor_harness.Store.Fold.Project.{
  handle, apply, stamp, rejected, apply_contained, apply_all,
}
use supervisor_harness.Store.Session.{Write, Session, with_seq, emit_many}
use supervisor_harness.Lifecycle.{
  build, ceilings, bounded, bound_each, spawn_events, spawned, spawn,
}
use supervisor_harness.Lifecycle.Emit.{IsContained, IsNumbered, emit_many-some, emit_many-state}
use supervisor_harness.Lifecycle.Bounded.{bound_each-Going}

-- No two agents have one id.
abbrev pub AreDistinct : List AgentSpec → Type 0
AreDistinct [] = Unit
AreDistinct (a ∷ agents) =
    All (λ b. text_eq b.id (AgentSpec.id a) ≡ false) agents × AreDistinct agents

abbrev spawned_in : (AgentSpec → AgentSpec) → List AgentSpec → Dict AgentSpec → Dict AgentSpec
spawned_in stored [] d = d
spawned_in stored (a ∷ agents) d =
    spawned_in stored agents (put (AgentSpec.id (stored a)) (stored a) d)

apply_contained-spawned :
    (s : RunState) (e : Event) (a : AgentSpec)
    → (apply_contained s (record e { body = agent_spawned (decoded a) })).agents
      ≡ put a.id a s.agents
unfolding apply_contained apply handle stamp rejected on_agent_spawned
apply_contained-spawned s e a = refl

module _ (stored : AgentSpec → AgentSpec) (keeps_id : (a : AgentSpec) → (stored a).id ≡ a.id) where
  get-spawned_in :
      (agents : List AgentSpec) (a : AgentSpec) (d : Dict AgentSpec)
      → All (λ b. text_eq b.id (AgentSpec.id a) ≡ false) agents
      → get a.id (spawned_in stored agents d) ≡ get a.id d
  get-spawned_in [] a d h = refl
  get-spawned_in (b ∷ agents) a d (k, h) =
      get-spawned_in agents a (put (stored b).id (stored b) d) h
      ∙ get-put_any (stored b).id a.id (stored b) d
      ∙ (rw (keeps_id b, k) refl)

  spawned-spawned_in :
      (agents : List AgentSpec) (d : Dict AgentSpec)
      → AreDistinct agents
      → spawned (spawned_in stored agents d) agents ≡ some (map stored agents)
  unfolding spawned
  spawned-spawned_in [] d h = refl
  spawned-spawned_in (a ∷ agents) d (k, h) =
      let after = put (stored a).id (stored a) d in
      let own : get a.id (spawned_in stored agents after) ≡ some (stored a) =
        get-spawned_in agents a after k
        ∙ get-put_any (stored a).id a.id (stored a) d
        ∙ ap (λ z. if z then some (stored a) else get a.id d)
            (ap (λ z. text_eq z a.id) (keeps_id a) ∙ text_eq_refl a.id) in
      rw (spawned, own, spawned-spawned_in agents after h) refl

bounded-forbidden :
    (now : Text) (state : RunState) (spec : AgentSpec) (p : Text)
    → is_empty p ≡ false
    → mem p (bounded now state spec).scope.forbidden_paths
      ≡ (mem p spec.scope.forbidden_paths || any (forbids p) (ceilings now state spec))
unfolding bounded
bounded-forbidden now state spec p h = attenuate-forbidden p spec.scope (ceilings now state spec) h

map-AreDistinct :
    (f : AgentSpec → AgentSpec)
    → ((a : AgentSpec) → (f a).id ≡ a.id)
    → (agents : List AgentSpec) → AreDistinct agents
    → AreDistinct (map f agents)
map-AreDistinct f same [] h = tt
map-AreDistinct f same (a ∷ agents) (k, h) = (apart agents k, map-AreDistinct f same agents h)
  where
    apart :
        (bs : List AgentSpec)
        → All (λ b. text_eq b.id (AgentSpec.id a) ≡ false) bs
        → All (λ b. text_eq b.id (AgentSpec.id (f a)) ≡ false) (map f bs)
    apart [] k = tt
    apart (b ∷ bs) (k, ks) = (rw (same b, same a) k, apart bs ks)

map-map :
    {A B C : Type 0} (g : B → C) (f : A → B) (xs : List A)
    → map g (map f xs) ≡ map (λ x. g (f x)) xs
map-map g f [] = refl
map-map g f (x ∷ xs) = ap (λ z. g (f x) ∷ z) (map-map g f xs)

module _ (codec : Codec Event) (issue : Session → ℕ → Text × Text) (disk : Session → Write)
    (now : Text) (say : Envelope.Note → Text) (stored : AgentSpec → AgentSpec) where
  apply_all-spawned_in :
      (agents : List AgentSpec) (k i : ℕ) (s : Session) (state : RunState)
      → (apply_all state (
          number_events with_seq k
            (spawn_events codec issue disk now say stored s i agents))).agents
        ≡ spawned_in stored agents state.agents
  unfolding apply_all number_events spawn_events
  apply_all-spawned_in [] k i s state = refl
  apply_all-spawned_in (a ∷ agents) k i s state =
      let event =
        build codec issue disk s i (codes "supervisor") (agent_spawned (decoded (stored a))) in
      apply_all-spawned_in agents (suc k) (suc i) s (apply_contained state (with_seq k event))
      ∙ ap (spawned_in stored agents) (apply_contained-spawned state (with_seq k event) (stored a))

  module _ (lawful : Lawful codec) (contained : (s : Session) → IsContained (disk s))
      (keeps_id : (a : AgentSpec) → (stored a).id ≡ a.id) where
    spawn-spawned :
        (specs bs : List AgentSpec) (s : Session) (es : List Event)
        → let after = (bound_each codec issue disk now say stored specs s).0 in
          let emitted =
            emit_many codec
              (disk after)
              (spawn_events codec issue disk now say stored after 0 bs)
              after in
          (bound_each codec issue disk now say stored specs s).1 ≡ some bs
          → emitted.1 ≡ some es
          → (spawn codec issue disk now say stored specs s).1 ≡ spawned emitted.0.state.agents bs
    unfolding spawn
    spawn-spawned specs bs s es h k = rw (spawn, h, k) refl

    spawn_returned :
        (specs : List AgentSpec) (s : Session) (n : ℕ)
        → IsNumbered codec n s
        → AreDistinct specs
        → (spawn codec issue disk now say stored specs s).1
          ≡ some (map (λ spec. stored (bounded now s.state spec)) specs)
    unfolding bounded
    spawn_returned specs s n h d =
        let bs = map (bounded now s.state) specs in
        let after = (bound_each codec issue disk now say stored specs s).0 in
        let (agents, going) =
          bound_each-Going codec issue disk now say stored lawful contained specs s n h in
        let events = spawn_events codec issue disk now say stored after 0 bs in
        let emitted =
          emit_many-some codec lawful (disk after) after going.tail going.numbered events
            (contained after) in
        let state =
          emit_many-state codec lawful (disk after) after going.tail going.numbered events in
        spawn-spawned specs bs s (number_events with_seq (suc going.tail) events) agents emitted
        ∙ ap (λ z. spawned z bs)
            (ap (λ z. z.agents) state
              ∙ apply_all-spawned_in bs (suc going.tail) 0 after after.state)
        ∙ spawned-spawned_in stored keeps_id bs after.state.agents
            (map-AreDistinct (bounded now s.state) (bounded-id s.state) specs d)
        ∙ ap some (map-map stored (bounded now s.state) specs)
      where
        bounded-id : (state : RunState) (a : AgentSpec) → (bounded now state a).id ≡ a.id
        bounded-id state a = refl

    -- On a log whose last number is found, with no error escaping from the writes of the snapshot,
    -- `_spawn` gives back each agent that it was asked for, in order, as the state holds it: as its
    -- event was stored, with its scope attenuated by the ceilings that the state had at the start. A
    -- pattern that is not empty is forbidden to it if it was, or if one of these ceilings - the run's
    -- envelope, the task, the spawning agent - forbids it. The ids are distinct, and storing an agent
    -- keeps its id and its scope.
    pub spawn-bounded :
        (keeps_scope : (a : AgentSpec) → (stored a).scope ≡ a.scope) (specs : List AgentSpec)
        (s : Session) (n : ℕ) (p : Text)
        → IsNumbered codec n s
        → AreDistinct specs
        → is_empty p ≡ false
        → ((spawn codec issue disk now say stored specs s).1
            ≡ some (map (λ spec. stored (bounded now s.state spec)) specs))
          × All
              (λ spec. mem p (stored (bounded now s.state spec)).scope.forbidden_paths ≡ (
                mem p (AgentSpec.scope spec).forbidden_paths
                || any (forbids p) (ceilings now s.state spec)))
              specs
    spawn-bounded keeps_scope specs s n p h d k = (spawn_returned specs s n h d, fenced specs)
      where
        fenced :
            (specs : List AgentSpec)
            → All
                (λ spec. mem p (stored (bounded now s.state spec)).scope.forbidden_paths ≡ (
                  mem p (AgentSpec.scope spec).forbidden_paths
                  || any (forbids p) (ceilings now s.state spec)))
                specs
        fenced [] = tt
        fenced (spec ∷ specs) = (
          ap (λ z. mem p (Scope.forbidden_paths z)) (keeps_scope (bounded now s.state spec))
              ∙ bounded-forbidden now s.state spec p k,
          fenced specs,
        )
