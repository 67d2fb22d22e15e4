-- ===== src/CodexRpc.antt =====
-- The RPC client of one Codex app-server: pkg/adapters/codexrpc/client.go. A channel is the list
-- of what it holds; raw JSON is text, and "" where a field is absent.
pub mod Deny
pub mod Steps
pub mod Bounds
pub mod Fresh
pub mod Interleaving
mod Tests
use openlinker_agent_node.Base.{ℕ, ◌*◌, String, Bool, List, Option}
use openlinker_agent_node.Base.Int.{ℤ}

pub record RpcError : Type 0 where
  pub code : ℤ
  pub message : String

pub record Message : Type 0 where
  pub id : String
  pub method : String
  pub params : String
  pub result : String
  pub error : Option RpcError

-- Why a client ended.
pub data Failure : Type 0 where
  eof write_failed line_too_long malformed reply_queue event_queue : Failure
  invalid_response duplicate_response read_failed : Failure

pub record Client : Type 0 where
  pub next : ℕ  -- a uint64
  pub pending : List (String × Option Message)  -- by ID, a channel of one message
  pub err : Option Failure  -- set when done is closed
  pub events : List Message
  pub writes : List Message
  pub reading : Bool  -- the read loop has not returned

abbrev pub max_output_bytes : ℕ
max_output_bytes = 4 * 1024 * 1024

abbrev pub max_queued_messages : ℕ
max_queued_messages = 128
