-- ===== src/Store/Fold/Kept.antt =====
-- store/events.py: what every handler leaves alone.
use supervisor_harness.Prelude.{◌≡◌, arith, List, [], ◌∷◌, ℕ, ◌+◌}
use supervisor_harness.Store.Fold.State.{RunState}
use supervisor_harness.Store.Fold.Dict.{get, put}
use supervisor_harness.Text.{Text}
use supervisor_harness.Store.Fold.Events.{
  Decoded, raised, decoded, Body, Event, run_created, phase_changed, host_agents_declared,
  run_mode_set, envelope_set, context_set, fact_established, brief_rendered, agent_spawned,
  agent_dispatched, agent_status, turn_recorded, finding_added, directive_issued, drift_assessed,
  assists_recorded, message_sent, message_delivered, task_proposed, task_decided, task_updated,
  criterion_verified, report_written, checkpoint_recorded, lesson_learned, lessons_consolidated,
  artifact_written, note, usage_recorded, escalation_raised, escalation_resolved, worktree_opened,
  worktree_closed, envelope_granted, scope_widened, goal_set, requirements_set, coordinated,
  run_ended, unknown,
}
use supervisor_harness.Store.Fold.OnRun.{
  larger, or_zero, orphan, on_run_created, on_phase_changed, on_host_agents_declared,
  on_run_mode_set, on_envelope_set, on_context_set, on_fact_established, on_finding_added,
  on_directive_issued, on_lesson_learned, on_drift_assessed, on_assists_recorded,
  on_lessons_consolidated, on_usage_recorded, on_goal_set, on_requirements_set, on_coordinated,
  on_report_written, on_checkpoint_recorded, on_artifact_written, on_note, on_escalation_raised,
  on_escalation_resolved, on_worktree_opened, on_worktree_closed, on_envelope_granted,
}
use supervisor_harness.Store.Fold.OnAgents.{
  on_brief_rendered, on_agent_spawned, on_agent_dispatched, on_agent_status, count_turn, answered,
  on_turn_recorded, on_message_sent, on_message_delivered, on_scope_widened,
}
use supervisor_harness.Store.Fold.OnTasks.{on_task_updated, on_task_proposed, on_criterion_verified}
use supervisor_harness.Store.Fold.Project.{handle}

-- An iteration that cannot be compared reaches nothing.
abbrev or_raised : Decoded ℕ → ℕ
or_raised (raised why) = 0
or_raised (decoded n) = n

-- The iteration that an event's checkpoint has reached.
unfoldable pub reached : Body → ℕ
reached (checkpoint_recorded (decoded c)) = or_raised c.iteration
reached _ = 0

-- The watermark, the time of the last event applied, the rejected events and the damaged lines stay, and the counter of checkpoints
-- rises to the iteration of the event.
pub record Kept (b : Body) (s t : RunState) : Type 0 where
  pub last_seq : t.last_seq ≡ s.last_seq
  pub updated_at : t.updated_at ≡ s.updated_at
  pub rejected_events : t.rejected_events ≡ s.rejected_events
  pub damaged_lines : t.damaged_lines ≡ s.damaged_lines
  pub iteration : t.checkpoint_iteration ≡ larger s.checkpoint_iteration (reached b)

assists-Kept :
    (s : RunState) (counts : List (Text × Decoded ℕ))
    → Kept (assists_recorded counts) s (on_assists_recorded s counts).0
unfolding on_assists_recorded reached
assists-Kept s [] = ground arith
assists-Kept s ((kind, raised why) ∷ rest) = ground arith
assists-Kept s ((kind, decoded n) ∷ rest) =
    let later =
      assists-Kept (record s { assists = put kind (or_zero (get kind s.assists) + n) s.assists })
        rest in
    record {
      last_seq = later.last_seq;
      updated_at = later.updated_at;
      rejected_events = later.rejected_events;
      damaged_lines = later.damaged_lines;
      iteration = later.iteration;
    }

pub handle-Kept : (b : Body) (s : RunState) (event : Event) → Kept b s (handle b s event).0
unfolding reached handle orphan on_run_created on_phase_changed on_host_agents_declared
    on_run_mode_set on_envelope_set on_context_set on_fact_established on_finding_added
    on_directive_issued on_lesson_learned on_drift_assessed on_lessons_consolidated
    on_usage_recorded on_goal_set on_requirements_set on_coordinated on_report_written
    on_checkpoint_recorded on_artifact_written on_note on_escalation_raised on_escalation_resolved
    on_worktree_opened on_worktree_closed on_envelope_granted on_brief_rendered on_agent_spawned
    on_agent_dispatched on_agent_status count_turn answered on_turn_recorded on_message_sent
    on_message_delivered on_scope_widened on_task_updated on_task_proposed on_criterion_verified
handle-Kept (run_created run) s event = ground arith
handle-Kept (phase_changed phase error) s event = ground arith
handle-Kept (host_agents_declared agents) s event = ground arith
handle-Kept (run_mode_set mode) s event = ground arith
handle-Kept (envelope_set envelope) s event = ground arith
handle-Kept (context_set context facts) s event = ground arith
handle-Kept (fact_established fact) s event = ground arith
handle-Kept (brief_rendered brief) s event = ground arith
handle-Kept (agent_spawned agent) s event = ground arith
handle-Kept (agent_dispatched key) s event = ground arith
handle-Kept (agent_status key status cause) s event = ground arith
handle-Kept (turn_recorded turn) s event = ground arith
handle-Kept (finding_added finding) s event = ground arith
handle-Kept (directive_issued directive) s event = ground arith
handle-Kept (drift_assessed assessment) s event = ground arith
handle-Kept (assists_recorded counts) s event = assists-Kept s counts
handle-Kept (message_sent message) s event = ground arith
handle-Kept (message_delivered ids recipient) s event = ground arith
handle-Kept (task_proposed task notes) s event = ground arith
handle-Kept (task_decided task) s event = ground arith
handle-Kept (task_updated task) s event = ground arith
handle-Kept (criterion_verified task criterion status evidence) s event = ground arith
handle-Kept (report_written report) s event = ground arith
handle-Kept (checkpoint_recorded checkpoint) s event = ground arith
handle-Kept (lesson_learned lesson) s event = ground arith
handle-Kept (lessons_consolidated payload) s event = ground arith
handle-Kept (artifact_written path kind) s event = ground arith
handle-Kept (note text context) s event = ground arith
handle-Kept (usage_recorded stage usage) s event = ground arith
handle-Kept (escalation_raised escalation) s event = ground arith
handle-Kept (escalation_resolved key resolution answer) s event = ground arith
handle-Kept (worktree_opened worktree) s event = ground arith
handle-Kept (worktree_closed end) s event = ground arith
handle-Kept (envelope_granted grant) s event = ground arith
handle-Kept (scope_widened paths agent_id task_id) s event = ground arith
handle-Kept (goal_set goal) s event = ground arith
handle-Kept (requirements_set requirements) s event = ground arith
handle-Kept (coordinated coordination) s event = ground arith
handle-Kept (run_ended phase error) s event = ground arith
handle-Kept (unknown name) s event = ground arith
