-- ===== src/Lib.antt =====
-- supervisor-harness: a supervisor that runs several model agents on one repository.
--
-- The program plans a run, spawns agents, each with a scope of path patterns, and records every
-- fact of the run as an event of an append-only log. This library models the parts that decide
-- what an agent may touch and what the log holds. Paths are given from the repository's root.
--
-- The parts and how they interact:
-- - the path rules (src/supervisor_harness/core/paths.py) answer which paths a pattern matches,
--   whether one pattern lies within another, and intersect, reduce and compare lists of patterns;
-- - the scope envelope (src/supervisor_harness/core/envelope.py) applies them: `establish` sets
--   the run's envelope, `attenuate` cuts a scope down to the ceilings above it, `widen_within`
--   grants a path that a task needs within what the owner allowed;
-- - the event log (src/supervisor_harness/store/eventlog.py) numbers events and appends them to a
--   file of lines, under the lock of a lock file;
-- - the fold (src/supervisor_harness/store/events.py) projects the events of a log to the state of
--   the run (`RunState` of src/supervisor_harness/models.py), an event at a time;
-- - a session (src/supervisor_harness/store/runstore.py) appends each event to the log, applies it to
--   its state and writes the state to a snapshot, which a later read may use in place of the fold;
-- - the lifecycle (src/supervisor_harness/core/lifecycle.py) emits an agent's events: it attenuates the
--   scope of every agent that is spawned by the ceilings above it, and gives up on silent agents;
-- - the requirements of a plan (src/supervisor_harness/core/requirements.py) are shared out among its
--   tasks: who builds and who tests each, in which order, and which files are kept from whom, by the
--   path rules.
--
-- The files:
-- - Prelude: names that the other modules share, tests on numbers, functions on lists.
-- - Text: Python's `str` as a list of code points (Text.Ops the operations, Text.Laws and Text.Mem
--   their laws). Glob: `fnmatch.fnmatch` on POSIX, with brackets and ranges.
-- - Paths: `normalise_pattern`, `_directory_base`, `path_matches`, `pattern_within`; Paths.Sets the
--   functions on lists of patterns, `_clean` included; Paths.Rooted those that place a path under a
--   workspace. A function of the model has the name of the source's, without the leading `_`; a
--   helper stands for the body of a loop or for the rest after a guard. The proofs are in the
--   children named for what they prove, and Paths.Examples runs the functions on small inputs.
-- - Envelope: core/envelope.py. A note is data (which ceiling, which patterns) in place of its
--   sentence. Its children hold the proofs by subject.
-- - Store.Lines: the bytes of a file as lines. Store.EventLog: `_terminate_last_line`,
--   `_last_seq_unlocked`, `append`, `append_many`. A file that is missing is one with no byte.
--   An append gives the file afterwards and the number assigned; no number is `CorruptLog`, and the
--   file is then what the handle's close leaves. The format of a record (`_encode`, and
--   `json.loads(line)["seq"]`) is the interface Codec, with its laws in Lawful.
--   Store.EventLog.Read: `read` to its end, with Python's UTF-8 decoder, universal newlines and the
--   count of skipped lines; where the decoder raises, or a line raises what `read` does not catch, as
--   `event_from_dict` does on JSON that is no object, the read gives nothing. Store.EventLog.Counted
--   says what becomes of each line of the file, blank ones included. Store.EventLog.Utf8
--   and Reread follow a read through an append; Legible says of a record that it is a line of text
--   that reads back. Store.EventLog.Lettered is a small format of records for the examples.
-- - Store.Lock: `FileLock` of store/eventlog.py as a step relation on the lock file and on where
--   each process stands in `acquire`, `_break_if_stale` or `release`. A step ends where another
--   process may run, and one step lets the file grow stale.
-- - Store.Fold: store/events.py. Store.Fold.State is `RunState` and its parts, Store.Fold.Events an
--   event with one constructor of Body for each `EventType`, Store.Fold.OnRun, OnAgents and OnTasks
--   the handlers, named as in the source, and Store.Fold.Project `_apply`, `_apply_contained` and
--   `fold`. A handler gives the state as it leaves it and the text of what it raised, so what it
--   wrote before raising stays. A payload stands decoded, an expression that raises as `raised`, and
--   so do the fields of a turn and of a checkpoint that `from_jsonable` lets pass unchecked and that
--   raise when they are used. The numbers of the events, the ids that the state keys by, the messages
--   it delivers and the scopes it widens are taken to be of their types; the handlers of the last two
--   could raise on another type after a write, and are among those that Store.Fold.Contain counts as
--   partial. Store.Fold.Upsert has the laws of `_upsert` done twice.
--   Members of a StrEnum are their text, and the seconds of `Usage` are counted in whole units.
-- - Store.Session: `RunSession` and the parts of `RunStore` it stands on: `create`, `open`,
--   `_fold_log`, `load_state`, `save_snapshot` with `write_snapshot`, `emit`, `emit_many`, `aemit`,
--   `aemit_many`, of one session on its log. An emission takes what becomes of its write of the
--   snapshot: it lands, it is refused with an error that is caught, or one escapes. Its children
--   carry a session from `create` on beside the events of its log.
-- - Lifecycle: `_spawn`, `_ceilings`, `_set_status`, `_abandonment_reason`, `_abandon_agent` and
--   `_reap_unreported` of core/lifecycle.py, each with the session that it leaves, and Lifecycle.Stage
--   `_stage_agent`, which is given the agent that it builds. Lifecycle.Emit says
--   what its callers know of an emission, Lifecycle.Bounded follows the first loop of `_spawn`.
-- - Plan: core/requirements.py from the dependencies to `attach_requirements`. Plan.Graph the searches
--   (`_depends_on`, `_distance`), Plan.Tasks the task and the plan's account, Plan.Parts who comes
--   after the parts (`_not_yet_built`, `furthest_after_parts`, `_deliver_last`, `_not_its_own`),
--   Plan.Testers `_assign_testers`, Plan.Criteria the criteria, Plan.Fences `_fence` and `_blind`,
--   Plan.Ledger the ledger that a reading of the request adds to (`_flat`, `grounded`, `cited`,
--   `build_ledger`; its children Flat the text, Found and Standing what a quote that is kept holds,
--   Grounded the growth of the ledger),
--   Plan.Meet the loops that put a tester after its builders, and Plan.Attach the whole. A task is
--   the object at its place in the plan, the sets of the source are lists, and a note is data.
--
-- Bounds and fuel: numbers and code points are unbounded naturals. `_last_seq_unlocked` loops on a
-- window that grows by four until it is the file; the model takes the size of the file as fuel,
-- and the theorem on it equates the loop with a scan of the file, so the fuel never runs out.
-- The searches of Plan.Graph take the rounds that the graph allows: each name is expanded once, so
-- the number of the edges bounds the stack's, and the number of the tasks the levels of `_distance`;
-- theorems compare both with the walks of the graph. All other functions are structural.
--
-- Parameters: `str.lower` in `_strip_workspace`, the codec of the log, and the event that a line of
-- text gives, or whether it is skipped or its exception escapes; `str.casefold` and `repr` in the plan's account, with the reasons that the
-- plan gives read already; in the lifecycle the ids and times of the events, what becomes of each
-- write of a snapshot, the words of a note, the seconds since a time, and an agent as the payload of
-- its event gives it back; in the ledger the text of a document, the lines that a regular expression
-- finds, and `str` on a number.
--
-- Not modelled: `stale_reason` and `render` of core/envelope.py; the retries of store/eventlog.py;
-- the JSON codec (src/supervisor_harness/serde.py), so that a snapshot reads back as the state that
-- it was written from; several sessions on one log, the index, the progress file and the files of a
-- run's directory (store/runstore.py); `coverage_problems` and the prompts (core/requirements.py);
-- the routing of stages (core/lifecycle.py). The
-- orchestration (core/supervisor.py, core/phases.py), the tools, the providers, the prompts and the
-- command line are input and output around model calls, or wait for a later extension.
pub mod Prelude
pub mod Text
pub mod Glob
pub mod Paths
pub mod Plan
pub mod Envelope
pub mod Store
pub mod Lifecycle
