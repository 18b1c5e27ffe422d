-- ===== src/Store/Fold/Start.antt =====
-- store/events.py: a state with nothing in it, for the examples.
use supervisor_harness.Prelude.{none, []}
use supervisor_harness.Store.Fold.State.{RunState}

abbrev pub start : RunState
start = record {
  id = [];
  prompt = [];
  workspace = [];
  mode = [];
  backend = [];
  phase = [];
  host = [];
  created_at = [];
  updated_at = [];
  host_agents = [];
  envelope = none;
  agents = [];
  briefs = [];
  shared_context = [];
  facts = [];
  established = [];
  turn_counts = [];
  usage = [];
  turns = [];
  notes = [];
  findings = [];
  tasks = [];
  task_notes = [];
  messages = [];
  directives = [];
  escalations = [];
  coordination = [];
  worktree = none;
  goal = [];
  requirements = [];
  envelope_grant = none;
  drift = [];
  assists = [];
  consolidation = [];
  checkpoints = [];
  lessons = [];
  artifacts = [];
  unhandled_events = [];
  orphaned_events = [];
  rejected_events = [];
  damaged_lines = 0;
  last_seq = 0;
  report = none;
  checkpoint_iteration = 0;
  error = [];
}
