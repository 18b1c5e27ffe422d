-- ===== src/Store/Fold/State.antt =====
-- models.py: the state of a run, with the fields of its parts that the fold reads or writes. What
-- a part holds beside them is one document.
use supervisor_harness.Prelude.{ℕ, ◌+◌, Bool, Option, List}
use supervisor_harness.Text.{Text}
use supervisor_harness.Envelope.{Scope, ScopeEnvelope}
use supervisor_harness.Store.Fold.Dict.{Dict}

-- What an expression gives that may raise, with the text of the exception.
pub data Decoded (A : Type 0) : Type 0 where
  raised : Text → Decoded A
  decoded : A → Decoded A

-- The JSON text of the fields that the fold does not look into.
abbrev pub Doc : Type 0
Doc = Text

pub record Usage : Type 0 where
  pub input_tokens : ℕ
  pub output_tokens : ℕ
  pub seconds : ℕ
  pub tool_calls : ℕ
  pub cache_read_tokens : ℕ
  pub cache_write_tokens : ℕ

-- `Usage()`
abbrev pub no_usage : Usage
no_usage = record {
  input_tokens = 0;
  output_tokens = 0;
  seconds = 0;
  tool_calls = 0;
  cache_read_tokens = 0;
  cache_write_tokens = 0;
}

-- `Usage.add`; the seconds are counted in whole units.
unfoldable pub add_usage : Usage → Usage → Usage
add_usage a b = record {
  input_tokens = a.input_tokens + b.input_tokens;
  output_tokens = a.output_tokens + b.output_tokens;
  seconds = a.seconds + b.seconds;
  tool_calls = a.tool_calls + b.tool_calls;
  cache_read_tokens = a.cache_read_tokens + b.cache_read_tokens;
  cache_write_tokens = a.cache_write_tokens + b.cache_write_tokens;
}

pub record AgentSpec : Type 0 where
  pub id : Text
  pub role : Text
  pub kind : Text
  pub scope : Scope
  pub task_id : Option Text
  pub parent_agent_id : Text
  pub status : Text
  pub unreported_dispatches : ℕ
  pub unreported_since : Text
  pub ended_cause : Text
  pub ended_reason : Text
  pub rest : Doc

-- `from_jsonable` does not look at the type of a field. The agent's id raises where it can be no key of
-- a dict, the usage where `Usage.add` cannot add it.
pub record AgentTurn : Type 0 where
  pub id : Text
  pub agent_id : Decoded Text
  pub usage : Decoded Usage
  pub rest : Doc

pub record Fact : Type 0 where
  pub key : Text
  pub statement : Text
  pub agent_id : Text
  pub rest : Doc

-- A finding, a directive or a lesson.
pub record Item : Type 0 where
  pub id : Text
  pub rest : Doc

pub record Message : Type 0 where
  pub id : Text
  pub delivered_to : List Text
  pub rest : Doc

-- The iteration raises where `max` cannot compare it with a number.
pub record Checkpoint : Type 0 where
  pub id : Text
  pub iteration : Decoded ℕ
  pub rest : Doc

pub record DoDCriterion : Type 0 where
  pub id : Text
  pub status : Text
  pub evidence : Text
  pub verified_at : Text
  pub verified_by : Text
  pub rest : Doc

pub record ExecutionTask : Type 0 where
  pub id : Text
  pub dod : List DoDCriterion
  pub scope : Scope
  pub rest : Doc

pub record Escalation : Type 0 where
  pub id : Text
  pub resolution : Option Text
  pub note : Text
  pub resolved_at : Text
  pub rest : Doc

pub record RunWorktree : Type 0 where
  pub closed : Bool
  pub commit : Text
  pub diffstat : Text
  pub removed : Bool
  pub note : Text
  pub rest : Doc

pub record Artifact : Type 0 where
  pub path : Text
  pub kind : Text
  pub actor : Text
  pub ts : Text

pub record Note : Type 0 where
  pub id : Text
  pub text : Text
  pub actor : Text
  pub ts : Text
  pub context : Dict Text

pub record RunState : Type 0 where
  pub id : Text
  pub prompt : Text
  pub workspace : Text
  pub mode : Text
  pub backend : Text
  pub phase : Text
  pub host : Text
  pub created_at : Text
  pub updated_at : Text
  pub host_agents : List Doc
  pub envelope : Option ScopeEnvelope
  pub agents : Dict AgentSpec
  pub briefs : Dict Text
  pub shared_context : Text
  pub facts : Dict Text
  pub established : List Fact
  pub turn_counts : Dict ℕ
  pub usage : Dict Usage
  pub turns : List AgentTurn
  pub notes : List Note
  pub findings : List Item
  pub tasks : Dict ExecutionTask
  pub task_notes : Dict (List Text)
  pub messages : List Message
  pub directives : List Item
  pub escalations : Dict Escalation
  pub coordination : List Doc
  pub worktree : Option RunWorktree
  pub goal : List Doc
  pub requirements : List Doc
  pub envelope_grant : Option Doc
  pub drift : Dict Doc
  pub assists : Dict ℕ
  pub consolidation : Dict Doc
  pub checkpoints : List Checkpoint
  pub lessons : List Item
  pub artifacts : List Artifact
  pub unhandled_events : List Text
  pub orphaned_events : List Text
  pub rejected_events : List Text
  pub damaged_lines : ℕ
  pub last_seq : ℕ
  pub report : Option Doc
  pub checkpoint_iteration : ℕ
  pub error : Text
