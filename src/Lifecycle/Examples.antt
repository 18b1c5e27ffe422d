-- ===== src/Lifecycle/Examples.antt =====
-- core/lifecycle.py on two agents, one of a task and one that another spawns, in a run whose envelope
-- forbids a file.
use supervisor_harness.Prelude.{
  ℕ, ◌≡◌, refl, inl, ◌||◌, any, Option, none, some, List, [], ◌∷◌, map, All,
}
use supervisor_harness.Text.{Text, codes, mem, text_eq}
use supervisor_harness.Envelope
use supervisor_harness.Envelope.{Scope}
use supervisor_harness.Envelope.Forbidden.{forbids}
use supervisor_harness.Store.EventLog.{last_seq_unlocked}
use supervisor_harness.Store.EventLog.Lettered.{lettered, lettered-Lawful}
use supervisor_harness.Store.Fold.Start.{start}
use supervisor_harness.Store.Fold.State.{AgentSpec}
use supervisor_harness.Store.Fold.Events.{Event}
use supervisor_harness.Store.Session.{Session, Write, refused, absent}
use supervisor_harness.Lifecycle.{
  Bounds, timed_out, ceilings, bounded, spawn, timeout_reason, abandonment_reason,
}
use supervisor_harness.Lifecycle.Spawned.{spawn-bounded}

abbrev agent : Text → Text → AgentSpec
agent id parent = record {
  id = id;
  role = codes "executor";
  kind = codes "execution";
  scope = record {
    paths = codes "src/**" ∷ [];
    forbidden_paths = codes "notes" ∷ [];
    topics = [];
    out_of_scope = [];
    unread_paths = [];
  };
  task_id = none;
  parent_agent_id = parent;
  status = codes "pending";
  unreported_dispatches = 2;
  unreported_since = codes "t0";
  ended_cause = [];
  ended_reason = [];
  rest = [];
}

abbrev session : Session
session = record {
  state = record start {
    envelope = some (record {
      paths = codes "src/**" ∷ [];
      forbidden_paths = codes "secret" ∷ [];
      source = codes "owner";
      granted_at = codes "t";
    });
    agents = (codes "p", agent (codes "p") []) ∷ [];
  };
  log = [];
  snapshot = absent;
}

abbrev letter_of : Event → ℕ
letter_of e = 97

abbrev sample : ℕ → ℕ → Option Event
sample n c = none

abbrev issue : Session → ℕ → Text × Text
issue s i = (i ∷ [], codes "now")

abbrev disk : Session → Write
disk s = refused

abbrev say : Envelope.Note → Text
say n = codes "narrowed"

abbrev stored : AgentSpec → AgentSpec
stored a = a

abbrev specs : List AgentSpec
specs = agent (codes "a") [] ∷ agent (codes "b") (codes "p") ∷ []

spawn-bounded_example :
    ((spawn (lettered letter_of sample) issue disk [] say stored specs session).1
      ≡ some (map (λ spec. stored (bounded [] session.state spec)) specs))
    × All
        (λ spec.
          mem (codes "secret") (stored (bounded [] session.state spec)).scope.forbidden_paths ≡ (
            mem (codes "secret") (AgentSpec.scope spec).forbidden_paths
            || any (forbids (codes "secret")) (ceilings [] session.state spec)))
        specs
unfolding last_seq_unlocked text_eq
spawn-bounded_example =
    spawn-bounded (lettered letter_of sample) issue disk [] say stored
      (lettered-Lawful letter_of sample (λ e. inl refl)) (λ s. tt) (λ a. refl) (λ a. refl) specs
      session 0 (codes "secret") refl ((refl, tt), (tt, tt)) refl

abbrev bounds : Bounds
bounds = record { max_unreported_dispatches = 3; agent_timeout_seconds = 60 }

test_silent :
    abandonment_reason
      (lettered letter_of sample)
      issue
      disk
      bounds
      (λ t. some 61)
      (λ w. [])
      (agent (codes "a") [])
    ≡ some (timed_out 61 60)
unfolding abandonment_reason timeout_reason
test_silent = refl
