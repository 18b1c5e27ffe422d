-- ===== src/Store/Fold/OnRun.antt =====
-- store/events.py: the handlers of what concerns the run as a whole.
use supervisor_harness.Prelude.{
  ℕ, ◌+◌, Bool, true, not, ◌&&◌, Option, none, some, List, [], ◌∷◌, ◌++◌, any, filter, is_empty,
  leb, if◌then◌else◌,
}
use supervisor_harness.Text.{Text, codes, text_eq}
use supervisor_harness.Envelope.{ScopeEnvelope}
use supervisor_harness.Store.Fold.Dict.{Dict, get, put, upsert, remember}
use supervisor_harness.Store.Fold.State.{
  Doc, Usage, no_usage, add_usage, Fact, Item, Checkpoint, Escalation, RunWorktree, Artifact, Note,
  RunState,
}
use supervisor_harness.Store.Fold.Events.{
  Decoded, raised, decoded, Genesis, WorktreeEnd, Event, type_of,
}

-- The state as a handler leaves it, and the text of what it raised.
abbrev pub Handled : Type 0
Handled = RunState × Option Text

abbrev pub done : RunState → Handled
done s = (s, none)

abbrev pub reading : {A : Type 0} → RunState → Decoded A → (A → Handled) → Handled
reading s d f = elim d [ raised why ↦ (s, some why) | decoded a ↦ f a ]

-- What follows a step that may have raised.
abbrev pub and_then : Handled → (RunState → RunState) → Handled
and_then (s, none) f = done (f s)
and_then (s, some why) f = (s, some why)

unfoldable pub orphan : RunState → Event → Text → RunState
unfolding type_of remember
orphan s event target = record s {
  orphaned_events = remember s.orphaned_events (type_of event.body ++ codes " -> " ++ target);
}

unfoldable pub on_run_created : RunState → Decoded Genesis → Handled
on_run_created s run = reading s run (λ g. done (record s {
  id = g.id;
  prompt = g.prompt;
  workspace = g.workspace;
  mode = g.mode;
  backend = g.backend;
  host = g.host;
  created_at = g.created_at;
}))

abbrev pub with_error : RunState → Text → RunState
with_error s error = if is_empty error then s else record s { error = error }

-- `_on_phase_changed`, and `_on_run_ended`, whose payload may leave the phase out.
unfoldable pub on_phase_changed : RunState → Decoded Text → Text → Handled
on_phase_changed s phase error =
    reading s phase (λ p. done (with_error (record s { phase = p }) error))

unfoldable pub on_host_agents_declared : RunState → Decoded (List Doc) → Handled
on_host_agents_declared s agents = reading s agents (λ a. done (record s { host_agents = a }))

unfoldable pub on_run_mode_set : RunState → Decoded Text → Handled
on_run_mode_set s mode = reading s mode (λ m. done (record s { mode = m }))

unfoldable pub on_envelope_set : RunState → Decoded ScopeEnvelope → Handled
on_envelope_set s envelope = reading s envelope (λ e. done (record s { envelope = some e }))

-- `for key, value in facts.items(): state.facts[key] = value`
unfoldable pub put_all : Dict Text → Dict Text → Dict Text
unfolding put
put_all [] facts = facts
put_all ((key, value) ∷ rest) facts = put_all rest (put key value facts)

unfoldable pub on_context_set : RunState → Option Text → Decoded (Dict Text) → Handled
unfolding put_all
on_context_set s context facts =
    let after : RunState = elim context [ none ↦ s | some c ↦ record s { shared_context = c } ] in
    reading after facts (λ f. done (record after { facts = put_all f after.facts }))

unfoldable pub same_fact : Fact → Fact → Bool
unfolding text_eq
same_fact f g =
    text_eq f.key g.key && text_eq f.statement g.statement && text_eq f.agent_id g.agent_id

unfoldable pub on_fact_established : RunState → Decoded Fact → Handled
unfolding same_fact
on_fact_established s fact = reading s fact (λ f.
    if any (λ g. same_fact g f) s.established
    then done s
    else done (record s { established = s.established ++ f ∷ [] }))

-- `_upsert` into the list of findings, of directives, of messages, of lessons.
unfoldable pub on_finding_added : RunState → Decoded Item → Handled
unfolding upsert
on_finding_added s item =
    reading s item (λ i. done (record s { findings = (upsert Item.id s.findings i).0 }))

unfoldable pub on_directive_issued : RunState → Decoded Item → Handled
unfolding upsert
on_directive_issued s item =
    reading s item (λ i. done (record s { directives = (upsert Item.id s.directives i).0 }))

unfoldable pub on_lesson_learned : RunState → Decoded Item → Handled
unfolding upsert
on_lesson_learned s item =
    reading s item (λ i. done (record s { lessons = (upsert Item.id s.lessons i).0 }))

unfoldable pub on_drift_assessed : RunState → Decoded (Text × Doc) → Handled
unfolding put
on_drift_assessed s assessed =
    reading s assessed (λ p. done (record s { drift = put p.0 p.1 s.drift }))

abbrev pub or_zero : Option ℕ → ℕ
or_zero none = 0
or_zero (some n) = n

-- The loop on the counts: those before a count that is no number stay added.
unfoldable pub on_assists_recorded : RunState → List (Text × Decoded ℕ) → Handled
unfolding get put
on_assists_recorded s [] = done s
on_assists_recorded s ((kind, raised why) ∷ rest) = (s, some why)
on_assists_recorded s ((kind, decoded n) ∷ rest) =
    on_assists_recorded
      (record s { assists = put kind (or_zero (get kind s.assists) + n) s.assists }) rest

unfoldable pub on_lessons_consolidated : RunState → Dict Doc → Handled
unfolding text_eq
on_lessons_consolidated s payload =
    done (record s { consolidation = filter (λ p. not (text_eq p.0 (codes "ops"))) payload })

abbrev pub or_no_usage : Option Usage → Usage
or_no_usage none = no_usage
or_no_usage (some u) = u

unfoldable pub on_usage_recorded : RunState → Text → Decoded Usage → Handled
unfolding get put add_usage
on_usage_recorded s stage usage =
    let key = codes "stage:" ++ stage in
    reading s usage (λ u.
      done (record s { usage = put key (add_usage (or_no_usage (get key s.usage)) u) s.usage }))

unfoldable pub on_goal_set : RunState → Decoded (List Doc) → Handled
on_goal_set s goal = reading s goal (λ g. done (record s { goal = g }))

unfoldable pub on_requirements_set : RunState → Decoded (List Doc) → Handled
on_requirements_set s requirements =
    reading s requirements (λ r. done (record s { requirements = r }))

unfoldable pub on_coordinated : RunState → Decoded Doc → Handled
on_coordinated s coordination =
    reading s coordination (λ c. done (record s { coordination = s.coordination ++ c ∷ [] }))

unfoldable pub on_report_written : RunState → Decoded Doc → Handled
on_report_written s report = reading s report (λ r. done (record s { report = some r }))

abbrev pub larger : ℕ → ℕ → ℕ
larger a b = if leb a b then b else a

unfoldable pub on_checkpoint_recorded : RunState → Decoded Checkpoint → Handled
unfolding upsert
on_checkpoint_recorded s checkpoint = reading s checkpoint (λ c.
    let after = record s { checkpoints = (upsert Checkpoint.id s.checkpoints c).0 } in
    reading after c.iteration
      (λ n. done (record after { checkpoint_iteration = larger after.checkpoint_iteration n })))

unfoldable pub on_artifact_written : RunState → Event → Text → Text → Handled
unfolding text_eq
on_artifact_written s event path kind = done (record s {
  artifacts =
      filter (λ a. not (text_eq (Artifact.path a) path)) s.artifacts
      ++ record { path = path; kind = kind; actor = event.actor; ts = event.ts } ∷ [];
})

unfoldable pub on_note : RunState → Event → Text → Dict Text → Handled
unfolding upsert
on_note s event text context = done (record s {
  notes =
      (upsert Note.id s.notes (record {
        id = event.id;
        text = text;
        actor = event.actor;
        ts = event.ts;
        context = context;
      })).0;
})

unfoldable pub on_escalation_raised : RunState → Decoded Escalation → Handled
unfolding put
on_escalation_raised s escalation =
    reading s escalation
      (λ e. done (record s { escalations = put (Escalation.id e) e s.escalations }))

unfoldable pub on_escalation_resolved :
    RunState → Event → Decoded Text → Decoded Text → Text → Handled
unfolding get put orphan
on_escalation_resolved s event key resolution note = reading s key (λ k.
    elim (get k s.escalations) [
      | none ↦ done (orphan s event k)
      | some e ↦ reading s resolution (λ r. done (record s {
        escalations =
            put k (record e { resolution = some r; note = note; resolved_at = event.ts })
              s.escalations;
      }))
    ])

unfoldable pub on_worktree_opened : RunState → Decoded RunWorktree → Handled
on_worktree_opened s worktree = reading s worktree (λ w. done (record s { worktree = some w }))

unfoldable pub on_worktree_closed : RunState → Event → WorktreeEnd → Handled
unfolding orphan
on_worktree_closed s event end = elim s.worktree [
  | none ↦ done (orphan s event (codes "worktree"))
  | some w ↦ done (record s {
    worktree = some (record w {
      closed = true;
      commit = end.commit;
      diffstat = end.diffstat;
      removed = end.removed;
      note = end.note;
    });
  })
]

unfoldable pub on_envelope_granted : RunState → Decoded Doc → Handled
on_envelope_granted s grant = reading s grant (λ g. done (record s { envelope_grant = some g }))
