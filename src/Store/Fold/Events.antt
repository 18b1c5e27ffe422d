-- ===== src/Store/Fold/Events.antt =====
-- store/events.py: an event and its payload. What a handler reads of the payload is decoded here,
-- and an expression of the handler that raises is `raised` with the exception's text.
use supervisor_harness.Prelude.{ℕ, Bool, Option, List}
use supervisor_harness.Text.{Text, codes}
use supervisor_harness.Envelope.{ScopeEnvelope}
use supervisor_harness.Store.Fold.Dict.{Dict}
pub use supervisor_harness.Store.Fold.State.{Decoded, raised, decoded}
use supervisor_harness.Store.Fold.State.{
  Doc, Usage, AgentSpec, AgentTurn, Fact, Item, Message, Checkpoint, ExecutionTask, Escalation,
  RunWorktree,
}

-- What `run_created` takes over of the state that its payload holds.
pub record Genesis : Type 0 where
  pub id : Text
  pub prompt : Text
  pub workspace : Text
  pub mode : Text
  pub backend : Text
  pub host : Text
  pub created_at : Text

pub record WorktreeEnd : Type 0 where
  pub commit : Text
  pub diffstat : Text
  pub removed : Bool
  pub note : Text

-- One constructor for each member of `EventType`, with what its handler reads.
pub data Body : Type 0 where
  run_created : Decoded Genesis → Body
  phase_changed : Decoded Text → Text → Body
  host_agents_declared : Decoded (List Doc) → Body
  run_mode_set : Decoded Text → Body
  envelope_set : Decoded ScopeEnvelope → Body
  context_set : Option Text → Decoded (Dict Text) → Body
  fact_established : Decoded Fact → Body
  brief_rendered : Decoded (Text × Text) → Body
  agent_spawned : Decoded AgentSpec → Body
  agent_dispatched : Decoded Text → Body
  agent_status : Decoded Text → Decoded Text → Option (Text × Text) → Body
  turn_recorded : Decoded AgentTurn → Body
  finding_added : Decoded Item → Body
  directive_issued : Decoded Item → Body
  drift_assessed : Decoded (Text × Doc) → Body
  assists_recorded : List (Text × Decoded ℕ) → Body
  message_sent : Decoded Message → Body
  message_delivered : Decoded (List Text) → Text → Body
  task_proposed : Decoded ExecutionTask → Decoded (List Text) → Body
  task_decided : Decoded ExecutionTask → Body
  task_updated : Decoded ExecutionTask → Body
  criterion_verified : Decoded Text → Decoded Text → Decoded Text → Text → Body
  report_written : Decoded Doc → Body
  checkpoint_recorded : Decoded Checkpoint → Body
  lesson_learned : Decoded Item → Body
  lessons_consolidated : Dict Doc → Body
  artifact_written : Text → Text → Body
  note : Text → Dict Text → Body
  usage_recorded : Text → Decoded Usage → Body
  escalation_raised : Decoded Escalation → Body
  escalation_resolved : Decoded Text → Decoded Text → Text → Body
  worktree_opened : Decoded RunWorktree → Body
  worktree_closed : WorktreeEnd → Body
  envelope_granted : Decoded Doc → Body
  scope_widened : List Text → Text → Text → Body
  goal_set : Decoded (List Doc) → Body
  requirements_set : Decoded (List Doc) → Body
  coordinated : Decoded Doc → Body
  run_ended : Decoded Text → Text → Body
  unknown : Text → Body

pub record Event : Type 0 where
  pub seq : ℕ
  pub id : Text
  pub actor : Text
  pub ts : Text
  pub body : Body

-- The value of `event.type`.
unfoldable pub type_of : Body → Text
type_of (run_created _) = codes "run_created"
type_of (phase_changed _ _) = codes "phase_changed"
type_of (host_agents_declared _) = codes "host_agents_declared"
type_of (run_mode_set _) = codes "run_mode_set"
type_of (envelope_set _) = codes "envelope_set"
type_of (context_set _ _) = codes "context_set"
type_of (fact_established _) = codes "fact_established"
type_of (brief_rendered _) = codes "brief_rendered"
type_of (agent_spawned _) = codes "agent_spawned"
type_of (agent_dispatched _) = codes "agent_dispatched"
type_of (agent_status _ _ _) = codes "agent_status"
type_of (turn_recorded _) = codes "turn_recorded"
type_of (finding_added _) = codes "finding_added"
type_of (directive_issued _) = codes "directive_issued"
type_of (drift_assessed _) = codes "drift_assessed"
type_of (assists_recorded _) = codes "assists_recorded"
type_of (message_sent _) = codes "message_sent"
type_of (message_delivered _ _) = codes "message_delivered"
type_of (task_proposed _ _) = codes "task_proposed"
type_of (task_decided _) = codes "task_decided"
type_of (task_updated _) = codes "task_updated"
type_of (criterion_verified _ _ _ _) = codes "criterion_verified"
type_of (report_written _) = codes "report_written"
type_of (checkpoint_recorded _) = codes "checkpoint_recorded"
type_of (lesson_learned _) = codes "lesson_learned"
type_of (lessons_consolidated _) = codes "lessons_consolidated"
type_of (artifact_written _ _) = codes "artifact_written"
type_of (note _ _) = codes "note"
type_of (usage_recorded _ _) = codes "usage_recorded"
type_of (escalation_raised _) = codes "escalation_raised"
type_of (escalation_resolved _ _ _) = codes "escalation_resolved"
type_of (worktree_opened _) = codes "worktree_opened"
type_of (worktree_closed _) = codes "worktree_closed"
type_of (envelope_granted _) = codes "envelope_granted"
type_of (scope_widened _ _ _) = codes "scope_widened"
type_of (goal_set _) = codes "goal_set"
type_of (requirements_set _) = codes "requirements_set"
type_of (coordinated _) = codes "coordinated"
type_of (run_ended _ _) = codes "run_ended"
type_of (unknown _) = codes "unknown"
