-- ===== src/Store/Session/Identity.antt =====
-- store/events.py: only the first record of a run says which run it is, and the watermark follows the
-- numbers.
use supervisor_harness.Prelude.{Bool, true, false, refl, ◌≡◌, arith, List, [], ◌∷◌, ℕ, ◌+◌}
use supervisor_harness.Store.Fold.State.{RunState}
use supervisor_harness.Store.Fold.Dict.{get, put}
use supervisor_harness.Text.{Text}
use supervisor_harness.Store.Fold.Events.{
  Decoded, raised, decoded, Body, Event, run_created, phase_changed, host_agents_declared,
  run_mode_set, envelope_set, context_set, fact_established, brief_rendered, agent_spawned,
  agent_dispatched, agent_status, turn_recorded, finding_added, directive_issued, drift_assessed,
  assists_recorded, message_sent, message_delivered, task_proposed, task_decided, task_updated,
  criterion_verified, report_written, checkpoint_recorded, lesson_learned, lessons_consolidated,
  artifact_written, note, usage_recorded, escalation_raised, escalation_resolved, worktree_opened,
  worktree_closed, envelope_granted, scope_widened, goal_set, requirements_set, coordinated,
  run_ended, unknown,
}
use supervisor_harness.Store.Fold.OnRun.{
  larger, or_zero, orphan, on_run_created, on_phase_changed, on_host_agents_declared,
  on_run_mode_set, on_envelope_set, on_context_set, on_fact_established, on_finding_added,
  on_directive_issued, on_lesson_learned, on_drift_assessed, on_assists_recorded,
  on_lessons_consolidated, on_usage_recorded, on_goal_set, on_requirements_set, on_coordinated,
  on_report_written, on_checkpoint_recorded, on_artifact_written, on_note, on_escalation_raised,
  on_escalation_resolved, on_worktree_opened, on_worktree_closed, on_envelope_granted,
}
use supervisor_harness.Store.Fold.OnAgents.{
  on_brief_rendered, on_agent_spawned, on_agent_dispatched, on_agent_status, count_turn, answered,
  on_turn_recorded, on_message_sent, on_message_delivered, on_scope_widened,
}
use supervisor_harness.Store.Fold.OnTasks.{on_task_updated, on_task_proposed, on_criterion_verified}
use supervisor_harness.Store.Fold.Project.{handle}
use supervisor_harness.Store.Fold.Project.{apply, stamp, rejected, apply_contained}
use supervisor_harness.Store.Fold.Kept.{handle-Kept}

-- The record that a run begins with.
unfoldable pub is_genesis : Body → Bool
is_genesis (run_created run) = true
is_genesis _ = false

assists-id :
    (s : RunState) (counts : List (Text × Decoded ℕ)) → (on_assists_recorded s counts).0.id ≡ s.id
unfolding on_assists_recorded
assists-id s [] = refl
assists-id s ((kind, raised why) ∷ rest) = ground arith
assists-id s ((kind, decoded n) ∷ rest) =
    assists-id (record s { assists = put kind (or_zero (get kind s.assists) + n) s.assists }) rest

pub handle-id :
    (b : Body) (s : RunState) (event : Event)
    → is_genesis b ≡ false
    → (handle b s event).0.id ≡ s.id
unfolding is_genesis handle orphan on_run_created on_phase_changed on_host_agents_declared
    on_run_mode_set on_envelope_set on_context_set on_fact_established on_finding_added
    on_directive_issued on_lesson_learned on_drift_assessed on_lessons_consolidated
    on_usage_recorded on_goal_set on_requirements_set on_coordinated on_report_written
    on_checkpoint_recorded on_artifact_written on_note on_escalation_raised on_escalation_resolved
    on_worktree_opened on_worktree_closed on_envelope_granted on_brief_rendered on_agent_spawned
    on_agent_dispatched on_agent_status count_turn answered on_turn_recorded on_message_sent
    on_message_delivered on_scope_widened on_task_updated on_task_proposed on_criterion_verified
handle-id (run_created run) s event h = cc h
handle-id (phase_changed phase error) s event h = ground arith
handle-id (host_agents_declared agents) s event h = ground arith
handle-id (run_mode_set mode) s event h = ground arith
handle-id (envelope_set envelope) s event h = ground arith
handle-id (context_set context facts) s event h = ground arith
handle-id (fact_established fact) s event h = ground arith
handle-id (brief_rendered brief) s event h = ground arith
handle-id (agent_spawned agent) s event h = ground arith
handle-id (agent_dispatched key) s event h = ground arith
handle-id (agent_status key status cause) s event h = ground arith
handle-id (turn_recorded turn) s event h = ground arith
handle-id (finding_added finding) s event h = ground arith
handle-id (directive_issued directive) s event h = ground arith
handle-id (drift_assessed assessment) s event h = ground arith
handle-id (assists_recorded counts) s event h = assists-id s counts
handle-id (message_sent message) s event h = ground arith
handle-id (message_delivered ids recipient) s event h = ground arith
handle-id (task_proposed task notes) s event h = ground arith
handle-id (task_decided task) s event h = ground arith
handle-id (task_updated task) s event h = ground arith
handle-id (criterion_verified task criterion status evidence) s event h = ground arith
handle-id (report_written report) s event h = ground arith
handle-id (checkpoint_recorded checkpoint) s event h = ground arith
handle-id (lesson_learned lesson) s event h = ground arith
handle-id (lessons_consolidated payload) s event h = ground arith
handle-id (artifact_written path kind) s event h = ground arith
handle-id (note text context) s event h = ground arith
handle-id (usage_recorded stage usage) s event h = ground arith
handle-id (escalation_raised escalation) s event h = ground arith
handle-id (escalation_resolved key resolution answer) s event h = ground arith
handle-id (worktree_opened worktree) s event h = ground arith
handle-id (worktree_closed end) s event h = ground arith
handle-id (envelope_granted grant) s event h = ground arith
handle-id (scope_widened paths agent_id task_id) s event h = ground arith
handle-id (goal_set goal) s event h = ground arith
handle-id (requirements_set requirements) s event h = ground arith
handle-id (coordinated coordination) s event h = ground arith
handle-id (run_ended phase error) s event h = ground arith
handle-id (unknown name) s event h = ground arith

module _ (s : RunState) (e : Event) where
  pub apply_contained-id : is_genesis e.body ≡ false → (apply_contained s e).id ≡ s.id
  unfolding apply_contained apply stamp rejected
  apply_contained-id h = ground (arith, handle-id e.body s e h)

  pub apply_contained-damaged_lines : (apply_contained s e).damaged_lines ≡ s.damaged_lines
  unfolding apply_contained apply stamp rejected
  apply_contained-damaged_lines =
      let kept = handle-Kept e.body s e in ground (arith, kept.damaged_lines)

  pub apply_contained-last_seq : (apply_contained s e).last_seq ≡ larger s.last_seq e.seq
  unfolding apply_contained apply stamp rejected
  apply_contained-last_seq = let kept = handle-Kept e.body s e in ground (arith, kept.last_seq)
