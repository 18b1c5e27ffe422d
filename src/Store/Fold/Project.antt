-- ===== src/Store/Fold/Project.antt =====
-- store/events.py: the dispatch of an event, its containment, and the fold.
use supervisor_harness.Prelude.{none, some, List, [], ◌∷◌, ◌++◌, is_empty, leb, if◌then◌else◌}
use supervisor_harness.Text.{Text, codes}
use supervisor_harness.Store.Fold.Dict.{remember}
use supervisor_harness.Store.Fold.State.{RunState}
use supervisor_harness.Store.Fold.Events.{
  Body, Event, type_of, run_created, phase_changed, host_agents_declared, run_mode_set,
  envelope_set, context_set, fact_established, brief_rendered, agent_spawned, agent_dispatched,
  agent_status, turn_recorded, finding_added, directive_issued, drift_assessed, assists_recorded,
  message_sent, message_delivered, task_proposed, task_decided, task_updated, criterion_verified,
  report_written, checkpoint_recorded, lesson_learned, lessons_consolidated, artifact_written, note,
  usage_recorded, escalation_raised, escalation_resolved, worktree_opened, worktree_closed,
  envelope_granted, scope_widened, goal_set, requirements_set, coordinated, run_ended, unknown,
}
use supervisor_harness.Store.Fold.OnRun.{
  Handled, done, larger, on_artifact_written, on_assists_recorded, on_checkpoint_recorded,
  on_context_set, on_coordinated, on_directive_issued, on_drift_assessed, on_envelope_granted,
  on_envelope_set, on_escalation_raised, on_escalation_resolved, on_fact_established,
  on_finding_added, on_goal_set, on_host_agents_declared, on_lesson_learned,
  on_lessons_consolidated, on_note, on_phase_changed, on_report_written, on_requirements_set,
  on_run_created, on_run_mode_set, on_usage_recorded, on_worktree_closed, on_worktree_opened,
}
use supervisor_harness.Store.Fold.OnAgents.{
  on_agent_dispatched, on_agent_spawned, on_agent_status, on_brief_rendered, on_message_delivered,
  on_message_sent, on_scope_widened, on_turn_recorded,
}
use supervisor_harness.Store.Fold.OnTasks.{on_criterion_verified, on_task_proposed, on_task_updated}

-- `_HANDLERS`, and what `_apply` does with a type that has no handler.
unfoldable pub handle : Body → RunState → Event → Handled
unfolding remember
handle (run_created run) s event = on_run_created s run
handle (phase_changed phase error) s event = on_phase_changed s phase error
handle (host_agents_declared agents) s event = on_host_agents_declared s agents
handle (run_mode_set mode) s event = on_run_mode_set s mode
handle (envelope_set envelope) s event = on_envelope_set s envelope
handle (context_set context facts) s event = on_context_set s context facts
handle (fact_established fact) s event = on_fact_established s fact
handle (brief_rendered brief) s event = on_brief_rendered s brief
handle (agent_spawned agent) s event = on_agent_spawned s agent
handle (agent_dispatched key) s event = on_agent_dispatched s event key
handle (agent_status key status cause) s event = on_agent_status s event key status cause
handle (turn_recorded turn) s event = on_turn_recorded s turn
handle (finding_added finding) s event = on_finding_added s finding
handle (directive_issued directive) s event = on_directive_issued s directive
handle (drift_assessed assessment) s event = on_drift_assessed s assessment
handle (assists_recorded counts) s event = on_assists_recorded s counts
handle (message_sent message) s event = on_message_sent s message
handle (message_delivered ids recipient) s event = on_message_delivered s ids recipient
handle (task_proposed task notes) s event = on_task_proposed s task notes
handle (task_decided task) s event = on_task_updated s task
handle (task_updated task) s event = on_task_updated s task
handle (criterion_verified task criterion status evidence) s event =
    on_criterion_verified s event task criterion status evidence
handle (report_written report) s event = on_report_written s report
handle (checkpoint_recorded checkpoint) s event = on_checkpoint_recorded s checkpoint
handle (lesson_learned lesson) s event = on_lesson_learned s lesson
handle (lessons_consolidated payload) s event = on_lessons_consolidated s payload
handle (artifact_written path kind) s event = on_artifact_written s event path kind
handle (note text context) s event = on_note s event text context
handle (usage_recorded stage usage) s event = on_usage_recorded s stage usage
handle (escalation_raised escalation) s event = on_escalation_raised s escalation
handle (escalation_resolved key resolution answer) s event =
    on_escalation_resolved s event key resolution answer
handle (worktree_opened worktree) s event = on_worktree_opened s worktree
handle (worktree_closed end) s event = on_worktree_closed s event end
handle (envelope_granted grant) s event = on_envelope_granted s grant
handle (scope_widened paths agent_id task_id) s event = on_scope_widened s paths agent_id task_id
handle (goal_set goal) s event = on_goal_set s goal
handle (requirements_set requirements) s event = on_requirements_set s requirements
handle (coordinated coordination) s event = on_coordinated s coordination
handle (run_ended phase error) s event = on_phase_changed s phase error
handle (unknown name) s event = done (record s {
  unhandled_events = remember s.unhandled_events (if is_empty name then codes "unknown" else name);
})

-- `state.updated_at = event.ts`, which a handler that raised does not reach.
unfoldable pub stamp : Event → Handled → Handled
stamp event (s, none) = (record s { updated_at = event.ts }, none)
stamp event (s, some why) = (s, some why)

-- `_apply`
unfoldable pub apply : RunState → Event → Handled
unfolding handle stamp
apply s event = stamp event (handle event.body s event)

-- How an event and the exception's text are told.
unfoldable pub rejection : Event → Text → Text
unfolding type_of
rejection event why = type_of event.body ++ codes " (" ++ why ++ codes ")"

-- The exception's text on the list of rejected events.
unfoldable pub rejected : Event → Handled → RunState
unfolding rejection remember
rejected event (s, none) = s
rejected event (s, some why) = record s {
  rejected_events = remember s.rejected_events (rejection event why);
}

unfoldable pub apply_contained : RunState → Event → RunState
unfolding apply rejected
apply_contained s event =
    let after = rejected event (apply s event) in
    record after { last_seq = larger after.last_seq event.seq }

-- `sorted(events, key=lambda e: e.seq)`, which is stable.
unfoldable pub insert : Event → List Event → List Event
insert e [] = e ∷ []
insert e (f ∷ events) =
    let rest = insert e events in
    if leb (Event.seq e) (Event.seq f) then e ∷ f ∷ events else f ∷ rest

unfoldable pub sorted : List Event → List Event
unfolding insert
sorted [] = []
sorted (e ∷ events) = insert e (sorted events)

unfoldable pub apply_all : RunState → List Event → RunState
unfolding apply_contained
apply_all s [] = s
apply_all s (e ∷ events) = apply_all (apply_contained s e) events

unfoldable pub fold : List Event → RunState → RunState
unfolding sorted apply_all
fold events initial = apply_all initial (sorted events)
