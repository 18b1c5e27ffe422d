-- ===== src/Lifecycle/Stage.antt =====
-- core/lifecycle.py, `_stage_agent`: the agent that carries out a stage, found, given up or spawned.
use supervisor_harness.Prelude.{
  ℕ, Bool, Option, none, some, List, [], ◌∷◌, map, filter, any, if◌then◌else◌,
}
use supervisor_harness.Text.{Text, codes, text_eq, mem}
use supervisor_harness.Envelope
use supervisor_harness.Store.EventLog.{Codec}
use supervisor_harness.Store.Fold.Dict.{get}
use supervisor_harness.Store.Fold.State.{RunState, AgentSpec}
use supervisor_harness.Store.Fold.Events.{Event}
use supervisor_harness.Store.Session.{Write, Session}
use supervisor_harness.Lifecycle.{Bounds, Silence, abandonment_reason, abandon_agent, spawn}

-- `ACTIVE_AGENT_STATUSES`
unfoldable pub is_active : Text → Bool
unfolding mem
is_active status = mem status (codes "pending" ∷ codes "running" ∷ codes "awaiting_directive" ∷ [])

-- The agent of a stage, or that the stage is given up.
pub data Stage : Type 0 where
  given_up : Stage
  carried_by : AgentSpec → Stage

-- The first active agent.
unfoldable pub first_active : List AgentSpec → Option AgentSpec
unfolding is_active
first_active [] = none
first_active (a ∷ agents) =
    let rest = first_active agents in if is_active (AgentSpec.status a) then some a else rest

-- `fresh` is the agent that is built for a stage without one.
module _ (codec : Codec Event) (issue : Session → ℕ → Text × Text) (disk : Session → Write)
    (now : Text) (say : Envelope.Note → Text) (stored : AgentSpec → AgentSpec) (bounds : Bounds)
    (seconds_since : Text → Option ℕ) (tell_silence : Silence → Text)
    (fresh : RunState → Text → Text → AgentSpec) where
  -- The end of `_stage_agent`: the agent that was spawned, as the state has it.
  unfoldable pub spawn_stage : AgentSpec → Session → Session × Option Stage
  unfolding spawn get
  spawn_stage spec s =
      let (after, agents) = spawn codec issue disk now say stored (spec ∷ []) s in
      (
        after,
        elim agents [
          | none ↦ none
          | some own ↦ elim (get (AgentSpec.id spec) after.state.agents) [
            | none ↦ none
            | some a ↦ some (carried_by a)
          ]
        ],
      )

  -- `_stage_agent`; none where it raises.
  unfoldable pub stage_agent : Text → Text → Session → Session × Option Stage
  unfolding first_active abandonment_reason abandon_agent spawn_stage text_eq
  stage_agent role stage s =
      let existing =
        filter (λ a. text_eq (AgentSpec.role a) role) (map (λ e. e.1) s.state.agents) in
      elim (first_active existing) [
        | some agent ↦
            elim (abandonment_reason codec issue disk bounds seconds_since tell_silence agent) [
              | none ↦ (s, some (carried_by agent))
              | some reason ↦
                  let (after, done) =
                    abandon_agent codec issue disk bounds seconds_since tell_silence agent reason
                      s in
                  (after, if done then some given_up else none)
            ]
        | none ↦
            let spawned = spawn_stage (fresh s.state role stage) s in
            if any (λ a. text_eq (AgentSpec.status a) (codes "failed")) existing
            then (s, some given_up)
            else spawned
      ]
