-- ===== src/Store/Fold/OnAgents.antt =====
-- store/events.py: the handlers of what concerns agents, their turns and their messages.
use supervisor_harness.Prelude.{
  ◌+◌, Bool, true, false, not, ◌&&◌, Option, none, some, List, [], ◌∷◌, ◌++◌, map, is_empty,
  if◌then◌else◌,
}
use supervisor_harness.Text.{Text, mem}
use supervisor_harness.Envelope.{Scope}
use supervisor_harness.Store.Fold.Dict.{Dict, get, put, set_default, upsert}
use supervisor_harness.Store.Fold.State.{
  add_usage, AgentSpec, AgentTurn, Message, ExecutionTask, RunState,
}
use supervisor_harness.Store.Fold.Events.{Decoded, Event}
use supervisor_harness.Store.Fold.OnRun.{
  Handled, done, reading, and_then, orphan, or_zero, or_no_usage,
}

unfoldable pub on_brief_rendered : RunState → Decoded (Text × Text) → Handled
unfolding put
on_brief_rendered s brief = reading s brief (λ p. done (record s { briefs = put p.0 p.1 s.briefs }))

-- `_merge_into` gives the agent that is there every field of the one that came.
unfoldable pub on_agent_spawned : RunState → Decoded AgentSpec → Handled
unfolding put set_default
on_agent_spawned s agent = reading s agent (λ a. done (record s {
  agents = put (AgentSpec.id a) a s.agents;
  turn_counts = set_default (AgentSpec.id a) 0 s.turn_counts;
}))

-- An agent that was handed one more packet.
unfoldable pub handed : Event → AgentSpec → AgentSpec
handed event a = record a {
  unreported_dispatches = a.unreported_dispatches + 1;
  unreported_since = if is_empty a.unreported_since then event.ts else a.unreported_since;
}

unfoldable pub on_agent_dispatched : RunState → Event → Decoded Text → Handled
unfolding get put orphan handed
on_agent_dispatched s event key = reading s key (λ k. elim (get k s.agents) [
  | none ↦ done (orphan s event k)
  | some a ↦ done (record s { agents = put k (handed event a) s.agents })
])

abbrev pub ended : Option (Text × Text) → AgentSpec → AgentSpec
ended none a = a
ended (some cause) a = record a { ended_cause = cause.0; ended_reason = cause.1 }

unfoldable pub on_agent_status :
    RunState → Event → Decoded Text → Decoded Text → Option (Text × Text) → Handled
unfolding get put orphan
on_agent_status s event key status cause = reading s key (λ k. elim (get k s.agents) [
  | none ↦ done (orphan s event k)
  | some a ↦
      reading s status
        (λ t. done (record s { agents = put k (ended cause (record a { status = t })) s.agents }))
])

-- The running totals of the agent `k`, which a turn that was there already does not add to. The count
-- is written before the usage is added.
unfoldable pub count_turn : Bool → AgentTurn → Text → RunState → Handled
unfolding get put add_usage
count_turn false turn k s = done s
count_turn true turn k s =
    let counted = record s {
      turn_counts = put k (or_zero (get k s.turn_counts) + 1) s.turn_counts;
    } in
    reading counted turn.usage (λ u. done (record counted {
      usage = put k (add_usage (or_no_usage (get k counted.usage)) u) counted.usage;
    }))

-- The agent answered: it is not silent.
unfoldable pub answered : Text → RunState → RunState
unfolding get put
answered k s = elim (get k s.agents) [
  | none ↦ s
  | some a ↦ record s {
    agents = put k (record a { unreported_dispatches = 0; unreported_since = [] }) s.agents;
  }
]

unfoldable pub on_turn_recorded : RunState → Decoded AgentTurn → Handled
unfolding upsert count_turn answered
on_turn_recorded s recorded = reading s recorded (λ turn.
    let (turns, first_time) = upsert AgentTurn.id s.turns turn in
    let placed = record s { turns = turns } in
    reading placed turn.agent_id (λ k. and_then (count_turn first_time turn k placed) (answered k)))

unfoldable pub on_message_sent : RunState → Decoded Message → Handled
unfolding upsert
on_message_sent s message =
    reading s message (λ m. done (record s { messages = (upsert Message.id s.messages m).0 }))

-- One message of a delivery.
unfoldable pub delivered : List Text → Text → Message → Message
unfolding mem
delivered ids recipient m =
    if mem m.id ids && not (is_empty recipient) && not (mem recipient m.delivered_to)
    then record m { delivered_to = m.delivered_to ++ recipient ∷ [] }
    else m

unfoldable pub on_message_delivered : RunState → Decoded (List Text) → Text → Handled
unfolding delivered
on_message_delivered s delivery recipient =
    reading s delivery
      (λ ids. done (record s { messages = map (delivered ids recipient) s.messages }))

-- `scope.paths.extend(x for x in paths if x not in scope.paths)`, in a scope that names a path:
-- the generator reads the list while it grows.
unfoldable pub extended : List Text → List Text → List Text
unfolding mem
extended paths [] = paths
extended paths (x ∷ xs) = extended (if mem x paths then paths else paths ++ x ∷ []) xs

abbrev pub widened_scope : List Text → Scope → Scope
widened_scope paths scope =
    if is_empty scope.paths then scope else record scope { paths = extended scope.paths paths }

-- The agent and the task that the payload names, where the state has them.
unfoldable pub on_scope_widened : RunState → List Text → Text → Text → Handled
unfolding get put extended
on_scope_widened s paths agent_id task_id =
    let agents : Dict AgentSpec = elim (get agent_id s.agents) [
      | none ↦ s.agents
      | some a ↦ put agent_id (record a { scope = widened_scope paths a.scope }) s.agents
    ] in
    let tasks : Dict ExecutionTask = elim (get task_id s.tasks) [
      | none ↦ s.tasks
      | some t ↦ put task_id (record t { scope = widened_scope paths t.scope }) s.tasks
    ] in
    done (record s { agents = agents; tasks = tasks })
