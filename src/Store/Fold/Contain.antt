-- ===== src/Store/Fold/Contain.antt =====
-- store/events.py: an event that cannot be applied, and the state it leaves.
use supervisor_harness.Prelude.{
  ◌≢◌, ap, ◌∙◌, Bool, true, false, none, some, ◌≡◌, arith, ◌⊎◌, inl, inr, Bool-cases,
}
use supervisor_harness.Store.Fold.Kept.{handle-Kept}
use supervisor_harness.Store.Fold.State.{RunState}
use supervisor_harness.Store.Fold.Dict.{remember}
use supervisor_harness.Text.{Text}
use supervisor_harness.Store.Fold.Events.{
  raised, decoded, Body, Event, run_created, phase_changed, host_agents_declared, run_mode_set,
  envelope_set, context_set, fact_established, brief_rendered, agent_spawned, agent_dispatched,
  agent_status, turn_recorded, finding_added, directive_issued, drift_assessed, assists_recorded,
  message_sent, message_delivered, task_proposed, task_decided, task_updated, criterion_verified,
  report_written, checkpoint_recorded, lesson_learned, lessons_consolidated, artifact_written, note,
  usage_recorded, escalation_raised, escalation_resolved, worktree_opened, worktree_closed,
  envelope_granted, scope_widened, goal_set, requirements_set, coordinated, run_ended, unknown,
}
use supervisor_harness.Store.Fold.OnRun.{
  Handled, larger, orphan, on_run_created, on_phase_changed, on_host_agents_declared,
  on_run_mode_set, on_envelope_set, on_context_set, on_fact_established, on_finding_added,
  on_directive_issued, on_lesson_learned, on_drift_assessed, on_lessons_consolidated,
  on_usage_recorded, on_goal_set, on_requirements_set, on_coordinated, on_report_written,
  on_checkpoint_recorded, on_artifact_written, on_note, on_escalation_raised,
  on_escalation_resolved, on_worktree_opened, on_worktree_closed, on_envelope_granted,
}
use supervisor_harness.Store.Fold.OnAgents.{
  on_brief_rendered, on_agent_spawned, on_agent_dispatched, on_agent_status, count_turn, answered,
  on_turn_recorded, on_message_sent, on_message_delivered, on_scope_widened,
}
use supervisor_harness.Store.Fold.OnTasks.{on_task_updated, on_task_proposed, on_criterion_verified}
use supervisor_harness.Store.Fold.Project.{
  handle, apply, stamp, rejected, rejection, apply_contained,
}

-- The events whose handler may raise when it has written already: on the second or a later read of the
-- payload, on a field of the wrong type in what the payload holds, or, for a delivery and a wider
-- scope, on a part of the state whose fields are not of their types.
unfoldable pub is_partial : Body → Bool
is_partial (assists_recorded _) = true
is_partial (context_set _ _) = true
is_partial (task_proposed (decoded _) _) = true
is_partial (turn_recorded (decoded _)) = true
is_partial (checkpoint_recorded (decoded _)) = true
is_partial (message_delivered _ _) = true
is_partial (scope_widened _ _ _) = true
is_partial _ = false

-- A handler that raises has changed nothing, but for those.
handle-raised :
    (b : Body) (s : RunState) (event : Event) (why : Text)
    → is_partial b ≡ false
    → (handle b s event).1 ≡ some why
    → (handle b s event).0 ≡ s
unfolding is_partial handle orphan on_run_created on_phase_changed on_host_agents_declared
    on_run_mode_set on_envelope_set on_context_set on_fact_established on_finding_added
    on_directive_issued on_lesson_learned on_drift_assessed on_lessons_consolidated
    on_usage_recorded on_goal_set on_requirements_set on_coordinated on_report_written
    on_checkpoint_recorded on_artifact_written on_note on_escalation_raised on_escalation_resolved
    on_worktree_opened on_worktree_closed on_envelope_granted on_brief_rendered on_agent_spawned
    on_agent_dispatched on_agent_status count_turn answered on_turn_recorded on_message_sent
    on_message_delivered on_scope_widened on_task_updated on_task_proposed on_criterion_verified
handle-raised (run_created run) s event why h k = ground arith
handle-raised (phase_changed phase error) s event why h k = ground arith
handle-raised (host_agents_declared agents) s event why h k = ground arith
handle-raised (run_mode_set mode) s event why h k = ground arith
handle-raised (envelope_set envelope) s event why h k = ground arith
handle-raised (context_set context facts) s event why h k = ground arith
handle-raised (fact_established fact) s event why h k = ground arith
handle-raised (brief_rendered brief) s event why h k = ground arith
handle-raised (agent_spawned agent) s event why h k = ground arith
handle-raised (agent_dispatched key) s event why h k = ground arith
handle-raised (agent_status key status cause) s event why h k = ground arith
handle-raised (turn_recorded (raised w)) s event why h k = ground arith
handle-raised (turn_recorded (decoded turn)) s event why h k = ground arith
handle-raised (finding_added finding) s event why h k = ground arith
handle-raised (directive_issued directive) s event why h k = ground arith
handle-raised (drift_assessed assessment) s event why h k = ground arith
handle-raised (assists_recorded counts) s event why h k = ground arith
handle-raised (message_sent message) s event why h k = ground arith
handle-raised (message_delivered ids recipient) s event why h k = ground arith
handle-raised (task_proposed (raised w) notes) s event why h k = ground arith
handle-raised (task_proposed (decoded task) notes) s event why h k = ground arith
handle-raised (task_decided task) s event why h k = ground arith
handle-raised (task_updated task) s event why h k = ground arith
handle-raised (criterion_verified task criterion status evidence) s event why h k = ground arith
handle-raised (report_written report) s event why h k = ground arith
handle-raised (checkpoint_recorded (raised w)) s event why h k = ground arith
handle-raised (checkpoint_recorded (decoded checkpoint)) s event why h k = ground arith
handle-raised (lesson_learned lesson) s event why h k = ground arith
handle-raised (lessons_consolidated payload) s event why h k = ground arith
handle-raised (artifact_written path kind) s event why h k = ground arith
handle-raised (note text context) s event why h k = ground arith
handle-raised (usage_recorded stage usage) s event why h k = ground arith
handle-raised (escalation_raised escalation) s event why h k = ground arith
handle-raised (escalation_resolved key resolution answer) s event why h k = ground arith
handle-raised (worktree_opened worktree) s event why h k = ground arith
handle-raised (worktree_closed end) s event why h k = ground arith
handle-raised (envelope_granted grant) s event why h k = ground arith
handle-raised (scope_widened paths agent_id task_id) s event why h k = ground arith
handle-raised (goal_set goal) s event why h k = ground arith
handle-raised (requirements_set requirements) s event why h k = ground arith
handle-raised (coordinated coordination) s event why h k = ground arith
handle-raised (run_ended phase error) s event why h k = ground arith
handle-raised (unknown name) s event why h k = ground arith

none≢some {κ} : {A : Type κ} {a : A} → none ≢ some a
none≢some h = cc

rejected-raised :
    (event : Event) (h : Handled) (why : Text)
    → h.1 ≡ some why
    → rejected event (stamp event h)
      ≡ record h.0 { rejected_events = remember h.0.rejected_events (rejection event why) }
unfolding rejected stamp
rejected-raised event (t, none) why raises = absurd (none≢some raises)
rejected-raised event (t, some w) why raises = ap (λ o. rejected event (stamp event (t, o))) raises

-- The state with the line that names the event and the reason, and with the watermark past it.
abbrev pub with_rejection : Event → Text → RunState → RunState
with_rejection event why s = record s {
  rejected_events = remember s.rejected_events (rejection event why);
  last_seq = larger s.last_seq event.seq;
}

apply_contained-handled :
    (s : RunState) (event : Event) (why : Text)
    → (handle event.body s event).1 ≡ some why
    → apply_contained s event ≡ with_rejection event why (handle event.body s event).0
unfolding apply_contained apply
apply_contained-handled s event why k =
    ap {A = RunState} {B = RunState} (λ t. record t { last_seq = larger t.last_seq event.seq })
      (rejected-raised event (handle event.body s event) why k)

-- Any event whose handler raises, whatever it had written by then, adds the line that names the event
-- and the reason to the rejected events, once, moves the watermark past the event and leaves the time
-- of the last update. Unless the event is of one of seven kinds, nothing else of the state changes. The
-- seven are those whose handler may raise after a write: the counts of assists, the shared context, a
-- delivery and a wider scope, and a proposed task, a turn and a checkpoint that have been decoded.
pub apply_contained-raised :
    (s : RunState) (event : Event) (why : Text)
    → (handle event.body s event).1 ≡ some why
    → ((apply_contained s event).rejected_events ≡ remember s.rejected_events (rejection event why))
      × ((apply_contained s event).last_seq ≡ larger s.last_seq event.seq)
      × ((apply_contained s event).updated_at ≡ s.updated_at)
      × ((is_partial event.body ≡ true) ⊎ (apply_contained s event ≡ with_rejection event why s))
apply_contained-raised s event why k =
    let kept = handle-Kept event.body s event in
    let whole = apply_contained-handled s event why k in
    (
      ap RunState.rejected_events whole
          ∙ ap (λ l. remember l (rejection event why)) kept.rejected_events,
      ap RunState.last_seq whole ∙ ap (λ n. larger n event.seq) kept.last_seq,
      ap RunState.updated_at whole ∙ kept.updated_at,
      elim (Bool-cases (is_partial event.body)) [
        | inl partial ↦ inl partial
        | inr n ↦
            inr (whole ∙ ap (with_rejection event why) (handle-raised event.body s event why n k))
      ],
    )
