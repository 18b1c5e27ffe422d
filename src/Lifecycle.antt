-- ===== src/Lifecycle.antt =====
-- core/lifecycle.py: `Lifecycle._spawn` and `_ceilings`, the one place where every agent of a run
-- passes, and `_set_status`, `_abandonment_reason`, `_abandon_agent`, `_reap_unreported`; Stage holds `_stage_agent`.
pub mod Emit
pub mod Bounded
pub mod Spawned
pub mod Stage
mod Examples
use supervisor_harness.Prelude.{
  ℕ, zero, suc, Bool, true, false, not, ◌&&◌, Option, none, some, List, [], ◌∷◌, ◌++◌, map,
  is_empty, leb, if◌then◌else◌,
}
use mathlib.Core.Option
use supervisor_harness.Text.{Text, codes, text_eq}
use supervisor_harness.Envelope
use supervisor_harness.Envelope.{
  ScopeEnvelope, Scope, Ceiling, of_scope, of_envelope, ceiling_of, effective, attenuate,
}
use supervisor_harness.Store.EventLog.{Codec}
use supervisor_harness.Store.Fold.Dict.{Dict, get}
use supervisor_harness.Store.Fold.State.{RunState, AgentSpec, ExecutionTask}
use supervisor_harness.Store.Fold.Events.{Event, Body, decoded, note, agent_spawned, agent_status}
use supervisor_harness.Store.Session.{Write, Session, emit, emit_many, aemit}

-- `policy.max_unreported_dispatches` and `policy.agent_timeout_seconds`
pub record Bounds : Type 0 where
  pub max_unreported_dispatches : ℕ
  pub agent_timeout_seconds : ℕ

-- Which of the bounds an agent is past.
pub data Silence : Type 0 where
  unreported : ℕ → ℕ → Silence
  timed_out : ℕ → ℕ → Silence

abbrev pub or_blank : Option Text → Text
or_blank none = []
or_blank (some t) = t

-- `now` is the stamp of an envelope that is made for a run without one.
module _ (now : Text) where
  -- The label of the third ceiling and its source.
  unfoldable pub spawner_ceiling : Option AgentSpec → Option Ceiling
  unfolding ceiling_of
  spawner_ceiling none = ceiling_of (codes "spawner scope") none
  spawner_ceiling (some parent) =
      ceiling_of (codes "scope of `" ++ AgentSpec.id parent ++ codes "`")
        (some (of_scope (AgentSpec.scope parent)))

  -- `_ceilings`
  unfoldable pub ceilings : RunState → AgentSpec → List (Option Ceiling)
  unfolding ceiling_of effective get spawner_ceiling
  ceilings state spec =
      let task = get (or_blank spec.task_id) state.tasks in
      let parent = get spec.parent_agent_id state.agents in
      ceiling_of (codes "run envelope") (some (of_envelope (effective now state.envelope)))
      ∷ ceiling_of (codes "task scope") (Option.map (λ t. of_scope (ExecutionTask.scope t)) task)
      ∷ spawner_ceiling parent
      ∷ []

  -- The agent with the scope that its ceilings leave.
  unfoldable pub bounded : RunState → AgentSpec → AgentSpec
  unfolding ceilings attenuate
  bounded state spec = record spec { scope = (attenuate spec.scope (ceilings state spec)).0 }

abbrev pub context_of : AgentSpec → Dict Text
context_of spec = (codes "role", spec.role) ∷ (codes "kind", spec.kind) ∷ []

-- The state's own objects; none where one is missing.
unfoldable pub spawned : Dict AgentSpec → List AgentSpec → Option (List AgentSpec)
unfolding get
spawned agents [] = some []
spawned agents (a ∷ rest) =
    let others = spawned agents rest in
    elim (get (AgentSpec.id a) agents) [
      | none ↦ none
      | some own ↦ Option.map (λ owns. own ∷ owns) others
    ]

-- `issue` gives the id and the time of the events that a session builds, by their place in the batch;
-- `disk` says what becomes of the write of its snapshot.
module _ (codec : Codec Event) (issue : Session → ℕ → Text × Text) (disk : Session → Write) where
  abbrev pub build : Session → ℕ → Text → Body → Event
  build s i actor body = record {
    seq = 0;
    id = (issue s i).0;
    actor = actor;
    ts = (issue s i).1;
    body = body;
  }

  -- `RunSession.note`
  unfoldable pub note_by : Text → Text → Dict Text → Session → Session × Option Event
  unfolding emit
  note_by actor text context s = emit codec (disk s) (build s 0 actor (note text context)) s

  -- `say` puts a note in words, and `stored` is an agent as its event's payload gives it back.
  module _ (now : Text) (say : Envelope.Note → Text) (stored : AgentSpec → AgentSpec) where
    -- The loop over the notes of one agent; false where one of them raises.
    unfoldable pub tell : AgentSpec → List Envelope.Note → Session → Session × Bool
    unfolding note_by
    tell spec [] s = (s, true)
    tell spec (n ∷ notes) s =
        let (after, event) = note_by spec.id (say n) (context_of spec) s in
        let rest = tell spec notes after in elim event [ none ↦ (after, false) | some e ↦ rest ]

    -- One round of the loop over the agents.
    unfoldable pub bound_one : AgentSpec → Session → Session × Option AgentSpec
    unfolding ceilings attenuate tell
    bound_one spec s =
        let (narrowed, notes) = attenuate spec.scope (ceilings now s.state spec) in
        if is_empty notes
        then (s, some spec)
        else let (after, told) = tell spec notes s in
          (after, if told then some (record spec { scope = narrowed }) else none)

    unfoldable pub bound_each : List AgentSpec → Session → Session × Option (List AgentSpec)
    unfolding bound_one
    bound_each [] s = (s, some [])
    bound_each (spec ∷ specs) s =
        let (after, first) = bound_one spec s in
        let (end, rest) = bound_each specs after in
        elim first [
          | none ↦ (after, none)
          | some agent ↦ (end, Option.map (λ agents. agent ∷ agents) rest)
        ]

    -- The events of the batch.
    unfoldable pub spawn_events : Session → ℕ → List AgentSpec → List Event
    spawn_events s i [] = []
    spawn_events s i (a ∷ agents) =
        build s i (codes "supervisor") (agent_spawned (decoded (stored a)))
        ∷ spawn_events s (suc i) agents

    -- `_spawn`; none where it raises.
    unfoldable pub spawn : List AgentSpec → Session → Session × Option (List AgentSpec)
    unfolding bound_each spawn_events emit_many spawned
    spawn specs s =
        let (after, agents) = bound_each specs s in
        elim agents [
          | none ↦ (after, none)
          | some bounded_agents ↦
              let (end, events) =
                emit_many codec (disk after) (spawn_events after 0 bounded_agents) after in
              (end, elim events [ none ↦ none | some es ↦ spawned end.state.agents bounded_agents ])
        ]

  -- `_set_status`; false where it raises.
  unfoldable pub set_status : AgentSpec → Text → Option (Text × Text) → Session → Session × Bool
  unfolding aemit text_eq
  set_status agent status cause s =
      if text_eq agent.status status
      then (s, true)
      else let (after, event) =
          aemit codec (disk s)
            (build s 0 (codes "supervisor")
              (agent_status (decoded agent.id) (decoded status) cause))
            s in
        (after, elim event [ none ↦ false | some e ↦ true ])

  -- `tell_silence` puts the reason of an end in words.
  module _ (bounds : Bounds) (seconds_since : Text → Option ℕ) (tell_silence : Silence → Text) where
    -- The second half of `_abandonment_reason`.
    unfoldable pub timeout_reason : Option ℕ → Option Silence
    timeout_reason none = none
    timeout_reason (some elapsed) =
        if leb 1 bounds.agent_timeout_seconds && leb bounds.agent_timeout_seconds elapsed
        then some (timed_out elapsed bounds.agent_timeout_seconds)
        else none

    unfoldable pub abandonment_reason : AgentSpec → Option Silence
    unfolding timeout_reason
    abandonment_reason agent =
        let limit = bounds.max_unreported_dispatches in
        if leb 1 limit && leb limit agent.unreported_dispatches
        then some (unreported agent.unreported_dispatches limit)
        else timeout_reason (seconds_since agent.unreported_since)

    -- `_abandon_agent`; false where it raises.
    unfoldable pub abandon_agent : AgentSpec → Silence → Session → Session × Bool
    unfolding aemit set_status
    abandon_agent agent reason s =
        let words = tell_silence reason in
        let text = codes "agent `" ++ agent.id ++ codes "` abandoned: " ++ words in
        let context = context_of agent ++ (codes "task_id", or_blank agent.task_id) ∷ [] in
        let (after, event) = aemit codec (disk s) (build s 0 agent.id (note text context)) s in
        let ended = set_status agent (codes "failed") (some (codes "abandoned", words)) after in
        elim event [ none ↦ (after, false) | some e ↦ ended ]

    -- `_reap_unreported` after its test of the backend: the agents that are left.
    unfoldable pub reap_each : List AgentSpec → Session → Session × Option (List AgentSpec)
    unfolding abandonment_reason abandon_agent
    reap_each [] s = (s, some [])
    reap_each (agent ∷ agents) s = elim (abandonment_reason agent) [
      | none ↦
          let (end, rest) = reap_each agents s in (end, Option.map (λ alive. agent ∷ alive) rest)
      | some reason ↦
          let (after, done) = abandon_agent agent reason s in
          let rest = reap_each agents after in if done then rest else (after, none)
    ]

    unfoldable pub reap_unreported : List AgentSpec → Session → Session × Option (List AgentSpec)
    unfolding reap_each text_eq
    reap_unreported agents s =
        let rest = reap_each agents s in
        if text_eq s.state.backend (codes "autonomous") then (s, some agents) else rest
