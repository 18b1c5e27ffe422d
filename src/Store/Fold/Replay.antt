-- ===== src/Store/Fold/Replay.antt =====
-- store/events.py: an event of an item with an id, applied twice.
use supervisor_harness.Prelude.{
  ℕ, ◌≡◌, refl, sym, ap, ◌∙◌, Bool, true, false, none, some, List, [], is_empty, Option-cases, inl,
  inr, arith, ◌+◌,
}
use supervisor_harness.Text.{Text}
use supervisor_harness.Store.Fold.Dict.{Dict, get, put, upsert}
use supervisor_harness.Store.Fold.Upsert.{upsert_twice, get-put, put_twice}
use supervisor_harness.Store.Fold.State.{
  Item, Message, Checkpoint, Note, AgentTurn, AgentSpec, RunState, Usage, add_usage,
}
use supervisor_harness.Store.Fold.Events.{
  Decoded, raised, Body, Event, decoded, finding_added, directive_issued, lesson_learned,
  message_sent, checkpoint_recorded, turn_recorded, note,
}
use supervisor_harness.Store.Fold.OnRun.{
  Handled, and_then, reading, done, or_zero, or_no_usage, larger, on_finding_added,
  on_directive_issued, on_lesson_learned, on_checkpoint_recorded, on_note,
}
use supervisor_harness.Store.Fold.OnAgents.{count_turn, answered, on_turn_recorded, on_message_sent}
use supervisor_harness.Store.Fold.Project.{handle}

-- The events of an item that the state lists by its id, where the id is not empty; of a turn the agent
-- and the usage are of their types.
pub data IsListed (event : Event) : Body → Type 0 where
  finding : (i : Item) → is_empty i.id ≡ false → IsListed event (finding_added (decoded i))
  directive : (i : Item) → is_empty i.id ≡ false → IsListed event (directive_issued (decoded i))
  lesson : (i : Item) → is_empty i.id ≡ false → IsListed event (lesson_learned (decoded i))
  message : (m : Message) → is_empty m.id ≡ false → IsListed event (message_sent (decoded m))
  checkpoint :
      (c : Checkpoint) → is_empty c.id ≡ false → IsListed event (checkpoint_recorded (decoded c))
  turn :
      (t : AgentTurn) (k : Text) (u : Usage)
      → is_empty t.id ≡ false
      → t.agent_id ≡ decoded k
      → t.usage ≡ decoded u
      → IsListed event (turn_recorded (decoded t))
  noted :
      (text : Text) (context : Dict Text)
      → is_empty event.id ≡ false
      → IsListed event (note text context)

answered-some :
    (k : Text) (s : RunState) (a : AgentSpec)
    → get k s.agents ≡ some a
    → answered k s ≡ record s {
      agents = put k (record a { unreported_dispatches = 0; unreported_since = [] }) s.agents;
    }
unfolding answered
answered-some k s a e = rw (e, answered) refl

answered_twice : (k : Text) (s : RunState) → answered k (answered k s) ≡ answered k s
unfolding answered
answered_twice k s = elim (Option-cases (get k s.agents)) [
  | inl e ↦ let same : answered k s ≡ s = rw (e, answered) refl in ap (answered k) same
  | inr (a, e) ↦
      let quiet : AgentSpec = record a { unreported_dispatches = 0; unreported_since = [] } in
      let agents = put k quiet s.agents in
      let once = answered-some k s a e in
      ap (answered k) once
      ∙ answered-some k (record s { agents = agents }) quiet (get-put k quiet s.agents)
      ∙ ap (λ d. record s { agents = d }) (put_twice k quiet s.agents)
      ∙ sym once
]

answered-turns : (k : Text) (s : RunState) → (answered k s).turns ≡ s.turns
unfolding answered
answered-turns k s = ground arith

-- A turn whose usage can be added is counted without a raise, and the list of turns stays.
counted :
    (b : Bool) (t : AgentTurn) (u : Usage) (k : Text) (s : RunState)
    → t.usage ≡ decoded u
    → (after : RunState) × (count_turn b t k s ≡ (after, none)) × (after.turns ≡ s.turns)
unfolding count_turn
counted true t u k s e =
    let once = record s { turn_counts = put k (or_zero (get k s.turn_counts) + 1) s.turn_counts } in
    let add : Usage → RunState = λ v. record once {
      usage = put k (add_usage (or_no_usage (get k once.usage)) v) once.usage;
    } in
    (add u, ap (λ d. reading once d (λ v. done (add v))) e, refl)
counted false t u k s e = (s, refl, refl)

-- What `_on_turn_recorded` does once the turn is placed.
abbrev turn_placed : AgentTurn → Text → RunState → List AgentTurn × Bool → Handled
turn_placed t k s p = and_then (count_turn p.1 t k (record s { turns = p.0 })) (answered k)

placed_twice :
    (t : AgentTurn) (u : Usage) (k : Text) (s : RunState)
    → is_empty t.id ≡ false
    → t.usage ≡ decoded u
    → let once = turn_placed t k s (upsert AgentTurn.id s.turns t) in
      turn_placed t k once.0 (upsert AgentTurn.id once.0.turns t) ≡ once
unfolding count_turn
placed_twice t u k s h e =
    let first = upsert AgentTurn.id s.turns t in
    let (after, f, same) = counted first.1 t u k (record s { turns = first.0 }) e in
    let once : turn_placed t k s first ≡ (answered k after, none) =
      ap (λ z. and_then z (answered k)) f in
    let kept : (answered k after).turns ≡ first.0 = answered-turns k after ∙ same in
    let again : upsert AgentTurn.id (answered k after).turns t ≡ ((answered k after).turns, false) =
      ap (λ l. upsert AgentTurn.id l t) kept
      ∙ upsert_twice AgentTurn.id s.turns t h
      ∙ ap (λ l. (l, false)) (sym kept) in
    ap (λ z. turn_placed t k z.0 (upsert AgentTurn.id z.0.turns t)) once
    ∙ ap (turn_placed t k (answered k after)) again
    ∙ ap (λ z. (z, none)) (answered_twice k after)
    ∙ sym once

larger_twice : (a n : ℕ) → larger (larger a n) n ≡ larger a n
larger_twice a n = ground arith

-- `_on_turn_recorded` on a turn whose agent can be a key.
known_turn :
    (t : AgentTurn) (k : Text) (s : RunState)
    → t.agent_id ≡ decoded k
    → on_turn_recorded s (decoded t) ≡ turn_placed t k s (upsert AgentTurn.id s.turns t)
unfolding on_turn_recorded
known_turn t k s a =
    let p = upsert AgentTurn.id s.turns t in
    ap
      (λ d.
        reading (record s { turns = p.0 }) d
          (λ z. and_then (count_turn p.1 t z (record s { turns = p.0 })) (answered z)))
      a

-- What `_on_checkpoint_recorded` does once the checkpoint is placed.
abbrev checkpoint_placed : RunState → Decoded ℕ → List Checkpoint → Handled
checkpoint_placed s d listed =
    let after = record s { checkpoints = listed } in
    reading after d
      (λ n. done (record after { checkpoint_iteration = larger after.checkpoint_iteration n }))

checkpoint_twice :
    (d : Decoded ℕ) (c : Checkpoint) (s : RunState)
    → is_empty c.id ≡ false
    → let once = checkpoint_placed s d (upsert Checkpoint.id s.checkpoints c).0 in
      checkpoint_placed once.0 d (upsert Checkpoint.id once.0.checkpoints c).0 ≡ once
checkpoint_twice (raised why) c s h =
    ap (λ p. (record s { checkpoints = p.0 }, some why))
      (upsert_twice Checkpoint.id s.checkpoints c h)
checkpoint_twice (decoded n) c s h =
    let listed = upsert Checkpoint.id s.checkpoints c in
    ap
      (λ p. (
        record s {
          checkpoints = p.0;
          checkpoint_iteration = larger (larger s.checkpoint_iteration n) n;
        },
        none,
      ))
      (upsert_twice Checkpoint.id s.checkpoints c h)
    ∙ ap (λ m. (record s { checkpoints = listed.0; checkpoint_iteration = m }, none))
        (larger_twice s.checkpoint_iteration n)

-- An event of a listed item with an id, the agent and the usage of a turn being of their types, that
-- is applied again changes nothing: no finding, directive, lesson,
-- message, checkpoint, note or turn is doubled, nor what a turn adds to its agent's totals.
pub handle_twice :
    (b : Body) (s : RunState) (event : Event)
    → IsListed event b
    → handle b ((handle b s event).0) event ≡ handle b s event
unfolding handle on_finding_added on_directive_issued on_lesson_learned on_message_sent
    on_checkpoint_recorded on_turn_recorded on_note
handle_twice _ s event (finding i h) =
    ap (λ p. (record s { findings = p.0 }, none)) (upsert_twice Item.id s.findings i h)
handle_twice _ s event (directive i h) =
    ap (λ p. (record s { directives = p.0 }, none)) (upsert_twice Item.id s.directives i h)
handle_twice _ s event (lesson i h) =
    ap (λ p. (record s { lessons = p.0 }, none)) (upsert_twice Item.id s.lessons i h)
handle_twice _ s event (message m h) =
    ap (λ p. (record s { messages = p.0 }, none)) (upsert_twice Message.id s.messages m h)
handle_twice _ s event (checkpoint c h) = checkpoint_twice c.iteration c s h
handle_twice _ s event (turn t k u h a e) =
    let once = known_turn t k s a in
    let placed = turn_placed t k s (upsert AgentTurn.id s.turns t) in
    ap (λ z. on_turn_recorded z.0 (decoded t)) once
    ∙ known_turn t k placed.0 a
    ∙ placed_twice t u k s h e
    ∙ sym once
handle_twice _ s event (noted text context h) =
    ap (λ p. (record s { notes = p.0 }, none))
      (upsert_twice Note.id s.notes
        (record {
          id = event.id;
          text = text;
          actor = event.actor;
          ts = event.ts;
          context = context;
        })
        h)
