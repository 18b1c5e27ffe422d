-- ===== src/Store/Fold/OnTasks.antt =====
-- store/events.py: the handlers of what concerns tasks and their definition of done.
use supervisor_harness.Prelude.{not, none, some, List, [], ◌∷◌, ◌++◌, any, is_empty, if◌then◌else◌}
use supervisor_harness.Text.{Text, codes, text_eq}
use supervisor_harness.Store.Fold.Dict.{get, put}
use supervisor_harness.Store.Fold.State.{DoDCriterion, ExecutionTask, RunState}
use supervisor_harness.Store.Fold.Events.{Decoded, Event}
use supervisor_harness.Store.Fold.OnRun.{Handled, done, reading, orphan}

-- `_on_task_decided_or_task_updated`; `_merge_into` gives the task that is there every field of the
-- one that came.
unfoldable pub on_task_updated : RunState → Decoded ExecutionTask → Handled
unfolding put
on_task_updated s task =
    reading s task (λ t. done (record s { tasks = put (ExecutionTask.id t) t s.tasks }))

unfoldable pub on_task_proposed : RunState → Decoded ExecutionTask → Decoded (List Text) → Handled
unfolding put
on_task_proposed s task notes = reading s task (λ t.
    let after = record s { tasks = put (ExecutionTask.id t) t s.tasks } in
    reading after notes (λ n. done (
      if is_empty n
      then after
      else record after { task_notes = put (ExecutionTask.id t) n after.task_notes })))

-- The first criterion of that id, with its verdict.
unfoldable pub judged : Event → Text → Text → Text → List DoDCriterion → List DoDCriterion
unfolding text_eq
judged event key status evidence [] = []
judged event key status evidence (c ∷ dod) =
    let rest = judged event key status evidence dod in
    if text_eq c.id key
    then record c {
      status = status;
      evidence = evidence;
      verified_at = event.ts;
      verified_by = event.actor;
    }
      ∷ dod
    else c ∷ rest

unfoldable pub on_criterion_verified :
    RunState → Event → Decoded Text → Decoded Text → Decoded Text → Text → Handled
unfolding get put text_eq orphan judged
on_criterion_verified s event task criterion status evidence = reading s task (λ k.
    elim (get k s.tasks) [
      | none ↦ done (orphan s event k)
      | some t ↦ reading s criterion (λ c.
          if not (any (λ d. text_eq (DoDCriterion.id d) c) t.dod)
          then done (orphan s event (k ++ codes "/" ++ c))
          else reading s status (λ v. done (record s {
            tasks = put k (record t { dod = judged event c v evidence t.dod }) s.tasks;
          })))
    ])
