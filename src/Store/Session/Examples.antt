-- ===== src/Store/Session/Examples.antt =====
-- store/runstore.py on a run that is created, changes its phase alone and in a batch, and loses one
-- write of its snapshot.
use supervisor_harness.Prelude.{
  ℕ, ◌≡◌, refl, ap, sym, ◌∙◌, Bool-cases, ◌⊎◌, inl, inr, Option, some, List, [], ◌∷◌, ◌==◌,
  if◌then◌else◌,
}
use supervisor_harness.Text.{codes}
use supervisor_harness.Store.EventLog.Reread.{Legible}
use supervisor_harness.Store.EventLog.Lettered.{
  IsLetter, lettered, event_of, lettered-Lawful, lettered-Legible,
}
use supervisor_harness.Store.Fold.Start.{start}
use supervisor_harness.Store.Fold.Events.{Event, Genesis, decoded, phase_changed}
use supervisor_harness.Store.Session.{
  Write, landed, refused, escaped, with_seq, create, load_state, open_run,
}
use supervisor_harness.Store.Session.Identity.{is_genesis}
use supervisor_harness.Store.Session.Genesis.{named, genesis}
use supervisor_harness.Store.Session.Refined.{
  Emission, one, one_async, many_async, run_of, run_emissions, create-load_state,
}

abbrev run : Genesis
run = record {
  id = codes "r";
  prompt = codes "do it";
  workspace = codes "/w";
  mode = codes "execute";
  backend = codes "hybrid";
  host = [];
  created_at = codes "t";
}

abbrev phase : Event
phase = record {
  id = codes "p";
  ts = codes "u";
  actor = codes "supervisor";
  seq = 0;
  body = phase_changed (decoded (codes "executing")) [];
}

abbrev created : Event
created = genesis phase run

abbrev letter_of : Event → ℕ
letter_of e = if is_genesis e.body then 97 else 98

letter_of-IsLetter : (e : Event) → IsLetter (letter_of e)
letter_of-IsLetter e = elim (Bool-cases (is_genesis e.body)) [
  | inl y ↦ inl (rw y refl)
  | inr n ↦ inr (rw n refl)
]

abbrev sample : ℕ → ℕ → Option Event
sample n c = some (with_seq n (if c == 97 then created else phase))

abbrev IsSample : Event → Type 0
IsSample e = (e ≡ created) ⊎ (e ≡ phase)

sample_lem : (n : ℕ) (e : Event) → IsSample e → sample n (letter_of e) ≡ some (with_seq n e)
unfolding is_genesis
sample_lem n e (inl h) = ap (λ z. sample n (letter_of z)) h ∙ ap (λ z. some (with_seq n z)) (sym h)
sample_lem n e (inr h) = ap (λ z. sample n (letter_of z)) h ∙ ap (λ z. some (with_seq n z)) (sym h)

lettered_run : Legible (lettered letter_of sample) (event_of letter_of sample) with_seq IsSample
lettered_run = lettered-Legible letter_of sample letter_of-IsLetter with_seq IsSample sample_lem

abbrev emissions : List (Write × Emission)
emissions =
    (refused, one phase)
    ∷ (escaped, many_async (phase ∷ phase ∷ []))
    ∷ (landed, one_async phase)
    ∷ []

create-load_state_example :
    let s =
      run_emissions
        (lettered letter_of sample)
        emissions
        (create (lettered letter_of sample) landed (named start run) created).0 in
    let state = run_of start (created ∷ phase ∷ phase ∷ phase ∷ phase ∷ []) in
    (s.state ≡ state)
    × (load_state
          (event_of letter_of sample)
          (codes "r")
          start
          (lettered letter_of sample)
          s.snapshot
          s.log
        ≡ some state)
    × (open_run (event_of letter_of sample) (codes "r") start s.snapshot s.log ≡ some s)
unfolding is_genesis
create-load_state_example =
    create-load_state (lettered letter_of sample) (event_of letter_of sample) (codes "r") start
      (lettered-Lawful letter_of sample letter_of-IsLetter) lettered_run landed run run phase
      emissions (inl refl) (inr refl, (inr refl, (inr refl, (inr refl, tt))))
      (refl, (refl, (refl, (refl, tt)))) refl refl refl
