-- ===== src/Store/Fold/Examples.antt =====
-- store/events.py on the log of a small run.
use supervisor_harness.Prelude.{none, ◌≡◌, refl, [], ◌∷◌, length, true, ◌⊎◌}
use supervisor_harness.Text.{Text, codes}
use supervisor_harness.Store.Fold.Dict.{remember, get, put, upsert, set_default}
use supervisor_harness.Store.Fold.Start.{start}
use supervisor_harness.Store.Fold.State.{AgentSpec, AgentTurn, no_usage}
use supervisor_harness.Store.Fold.Events.{
  Event, raised, decoded, phase_changed, agent_spawned, turn_recorded, coordinated,
  checkpoint_recorded,
}
use supervisor_harness.Store.Fold.OnRun.{
  larger, on_phase_changed, on_coordinated, on_checkpoint_recorded,
}
use supervisor_harness.Store.Fold.OnAgents.{
  on_agent_spawned, on_turn_recorded, count_turn, answered,
}
use supervisor_harness.Store.Fold.Project.{
  handle, apply, rejection, apply_contained, apply_all, insert, sorted, fold,
}
use supervisor_harness.Store.Fold.Kept.{reached}
use supervisor_harness.Store.Fold.Highest.{highest, fold-highest}
use supervisor_harness.Store.Fold.Order.{fold-Perm}
use supervisor_harness.Store.Fold.Replay.{turn, handle_twice}
use supervisor_harness.Store.Fold.Contain.{is_partial, with_rejection, apply_contained-raised}
use mathlib.Core.List.Permᴰ.{swap}

abbrev agent : AgentSpec
agent = record {
  id = codes "a";
  role = codes "explorer";
  kind = codes "analysis";
  task_id = none;
  parent_agent_id = [];
  scope = record {
    paths = [];
    forbidden_paths = [];
    topics = [];
    out_of_scope = [];
    unread_paths = [];
  };
  status = codes "pending";
  unreported_dispatches = 2;
  unreported_since = codes "t0";
  ended_cause = [];
  ended_reason = [];
  rest = [];
}

abbrev first_turn : AgentTurn
first_turn = record {
  id = codes "t";
  agent_id = decoded (codes "a");
  usage = decoded no_usage;
  rest = [];
}

abbrev spawned : Event
spawned = record {
  seq = 1;
  id = codes "e1";
  actor = codes "supervisor";
  ts = codes "t1";
  body = agent_spawned (decoded agent);
}

abbrev reported : Event
reported = record {
  seq = 2;
  id = codes "e2";
  actor = codes "supervisor";
  ts = codes "t2";
  body = turn_recorded (decoded first_turn);
}

abbrev reason : Text
reason = codes "ValueError: 'gone' is not a valid Phase"

abbrev broken : Event
broken = record {
  seq = 7;
  id = codes "e7";
  actor = codes "supervisor";
  ts = codes "t7";
  body = phase_changed (raised reason) [];
}

abbrev checked : Event
checked = record {
  seq = 5;
  id = codes "e5";
  actor = codes "supervisor";
  ts = codes "t5";
  body =
      checkpoint_recorded (decoded (record { id = codes "c"; iteration = decoded 3; rest = [] }));
}

-- Read out of order, the turn still finds its agent, and the broken event costs only itself.
fold_test :
    let s = fold (broken ∷ reported ∷ checked ∷ spawned ∷ []) start in
    (s.turn_counts ≡ (codes "a", 1) ∷ [])
    × (s.last_seq ≡ 7)
    × (s.checkpoint_iteration ≡ 3)
    × (s.updated_at ≡ codes "t5")
    × (s.phase ≡ [])
unfolding fold sorted insert apply_all apply_contained apply handle on_phase_changed
    on_checkpoint_recorded on_agent_spawned on_turn_recorded count_turn answered get put upsert
    set_default
fold_test = (refl, refl, refl, refl, refl)

abbrev consulted : Event
consulted = record {
  seq = 3;
  id = codes "e3";
  actor = codes "supervisor";
  ts = codes "t3";
  body = coordinated (decoded (codes "pick"));
}

-- A consultation that is applied twice is listed twice.
coordinated_test :
    (apply_contained (apply_contained start consulted) consulted).coordination
    ≡ codes "pick" ∷ codes "pick" ∷ []
unfolding apply_contained apply handle on_coordinated
coordinated_test = refl

fold-highest_example :
    ((fold (broken ∷ checked ∷ spawned ∷ []) start).last_seq
      ≡ larger 0 (highest Event.seq (broken ∷ checked ∷ spawned ∷ [])))
    × ((fold (broken ∷ checked ∷ spawned ∷ []) start).checkpoint_iteration
        ≡ larger 0 (highest (λ e. reached (Event.body e)) (broken ∷ checked ∷ spawned ∷ [])))
fold-highest_example = fold-highest (broken ∷ checked ∷ spawned ∷ []) start

fold-Perm_example : fold (reported ∷ spawned ∷ []) start ≡ fold (spawned ∷ reported ∷ []) start
fold-Perm_example =
    fold-Perm (reported ∷ spawned ∷ []) (spawned ∷ reported ∷ []) start (swap refl refl)
      ((refl, tt), (tt, tt))

handle_twice_example :
    handle
      (turn_recorded (decoded first_turn))
      ((handle (turn_recorded (decoded first_turn)) start reported).0)
      reported
    ≡ handle (turn_recorded (decoded first_turn)) start reported
handle_twice_example =
    handle_twice (turn_recorded (decoded first_turn)) start reported
      (turn first_turn (codes "a") no_usage refl refl refl)

-- A turn without a usage.
abbrev uncounted : Event
uncounted = record reported {
  body = turn_recorded (decoded (record first_turn { usage = raised reason }));
}

-- It stays on the list and its agent has one turn more, but the agent is silent still.
uncounted_test :
    let s = apply_contained (apply_contained start spawned) uncounted in
    (length s.turns ≡ 1)
    × (s.turn_counts ≡ (codes "a", 1) ∷ [])
    × (s.agents ≡ (codes "a", agent) ∷ [])
    × (s.updated_at ≡ codes "t1")
    × (s.rejected_events ≡ rejection uncounted reason ∷ [])
unfolding apply_contained apply handle on_agent_spawned on_turn_recorded count_turn get put upsert
    set_default remember
uncounted_test = (refl, refl, refl, refl, refl)

apply_contained-raised_example :
    ((apply_contained start broken).rejected_events
      ≡ remember start.rejected_events (rejection broken reason))
    × ((apply_contained start broken).last_seq ≡ larger start.last_seq 7)
    × ((apply_contained start broken).updated_at ≡ start.updated_at)
    × ((is_partial (phase_changed (raised reason) []) ≡ true)
        ⊎ (apply_contained start broken ≡ with_rejection broken reason start))
unfolding handle on_phase_changed
apply_contained-raised_example = apply_contained-raised start broken reason refl
