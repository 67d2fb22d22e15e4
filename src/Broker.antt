-- ===== src/Broker.antt =====
-- pkg/adapters/agentdelegation: the broker of delegated Runs, its data and what it calls. JSON
-- values are opaque texts; the codec, SHA-256 and the SDK callbacks are parameters.
pub mod Validation
pub mod Ledger
pub mod Delegate
pub mod Reads
pub mod Complete
pub mod Call
pub mod Tools
mod Tests
use openlinker_agent_node.Base.{ℕ, String, Bool, Option, List}
use openlinker_agent_node.Base.Result.{Result}
use openlinker_agent_node.Base.Int.{ℤ}

-- A JSON value, as its text.
abbrev pub Value : Type 0
Value = String

-- openlinker.RuntimeRunStatus
pub data RunStatus : Type 0 where
  running success failed canceled timeout : RunStatus
  other : String → RunStatus

-- openlinker.RuntimeDelegatedRun
pub record DelegatedRun : Type 0 where
  pub status : RunStatus
  pub output : Value

-- openlinker.RuntimeRunSummary
pub record Summary : Type 0 where
  pub run_id : String
  pub rest : Value

-- The errors that the broker tells apart: its own `safeToolError`, those of a context, the SDK's
-- `Error` with its status and code, and any other.
pub data Failure : Type 0 where
  safe : String → Failure
  context_canceled deadline_exceeded tools_unavailable : Failure
  core : (status : ℕ) (code : String) → Failure
  other : String → Failure

pub record BoundTool : Type 0 where
  pub binding_id : String
  pub target_id : String
  pub digest : String
  pub name : String
  pub input_type : String  -- InputSchema["type"], "" where it is no text
  pub size : ℕ  -- the length of the tool's JSON

-- delegationRequest
pub record Request : Type 0 where
  pub digest : String
  pub run_id : String
  pub terminal : Bool
  pub summary : Summary

-- The arguments of `delegate_agent`; `none` is a nil map.
pub record Delegation : Type 0 where
  pub target : String
  pub input : Option Value
  pub reason : String
  pub key : String

-- The arguments of `get_delegated_run` and `wait_delegated_run`.
pub record Reading : Type 0 where
  pub child_run_id : String
  pub wait_ms : ℤ

-- The arguments of a bound MCP tool.
pub record BoundCall : Type 0 where
  pub arguments : Option Value
  pub key : String

-- What a call of the broker returns beside its error.
pub data Outcome : Type 0 where
  summary : Summary → Outcome
  run : DelegatedRun → Outcome

-- openlinker.RuntimeCallOptions; the metadata names a binding and its digest.
pub record CallOptions : Type 0 where
  pub reason : String
  pub idempotency_key : String
  pub metadata : Option (String × String)

-- The fields of `Broker` that its calls read and write. The connections are in `Connections`.
pub record Broker : Type 0 where
  pub run_id : String
  pub targets : List String
  pub bound_tools : List BoundTool
  pub tools_ready : Bool
  pub requests : List (String × Request)

-- encoding/json and crypto/sha256, as the broker uses them.
pub record Codec : Type 0 where
  pub canonical : Delegation → String  -- json.Marshal(request)
  pub sha256 : String → String
  pub encode : Value → Option Value  -- json.Marshal of a callback's result
  pub summary : Value → Option Summary  -- json.Unmarshal into a RuntimeRunSummary
  pub delegation : Value → Option Delegation  -- decodeArguments, for each of its targets
  pub reading : Value → Option Reading
  pub bound_call : Value → Option BoundCall

-- What runs outside the broker: the SDK's callbacks, the context and the clock, over a state `W`
-- of the world. A nil run without an error is `ok none`.
pub record Outside (W : Type 0) : Type 0 where
  pub call_agent : String → Option Value → CallOptions → W → Result Failure Value × W
  pub read_run : String → W → Result Failure (Option DelegatedRun) × W
  pub canceled : W → Bool  -- b.ctx.Err() != nil
  pub now : W → ℕ  -- nanoseconds
  pub sleep : ℕ → W → W  -- a timer, or the end of the context
  -- the callbacks of a bound tool, which may be nil
  pub on_tools : Option (W → Option Failure × W)
  pub tool_used : Option (BoundTool → W → Option Failure × W)
