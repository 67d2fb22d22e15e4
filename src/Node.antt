-- ===== src/Node.antt =====
-- The node: internal/agentnode/node.go and adapter_result.go. Assignments come from the SDK's
-- worker; an adapter is what it returns for a run.
pub mod Results
pub mod Handling
pub mod Lifecycle
mod Tests
use openlinker_agent_node.Base.{String, Bool, List, Option}

pub record RunEvent (V : Type 0) : Type 0 where
  pub event_type : String
  pub payload : Option V

-- what stands in a Go `any`, with the views that the code takes of it
pub record Values (V : Type 0) : Type 1 where
  pub is_nil : V → Bool
  pub sprint : Option V → String  -- fmt.Sprint, of nil where there is none
  pub as_array : V → Option (List V)
  pub as_object : V → Option (List (String × V))
  pub as_events : V → Option (List (RunEvent V))  -- a []RunEvent
  pub json_map : V → Option (List (String × V))  -- jsonMapFromAny

pub data Output (V : Type 0) : Type 0 where
  nothing : Output V  -- nil
  value : V → Output V
  fields : List (String × V) → Output V  -- a JSONMap

pub record AgentError : Type 0 where
  pub code : String
  pub message : String

pub record AdapterResult (V : Type 0) : Type 0 where
  pub status : String
  pub output : Output V
  pub events : List (RunEvent V)
  pub error : Option AgentError

-- what an adapter can return
pub data Raw (V : Type 0) : Type 0 where
  result : AdapterResult V → Raw V  -- an AdapterResult or a pointer to one
  nil_result : Raw V
  object : List (String × V) → Raw V
  other : Output V → Raw V
