-- ===== src/CodexTurn.antt =====
-- One turn of the Codex app-server: pkg/adapters/codexturn/turn.go.
pub mod Open
pub mod Events
pub mod Answer
pub mod Interrupt
pub mod Identity
mod Tests
use openlinker_agent_node.Base.{String, Bool, List, Option}

-- Why a turn ends without an answer; `context` is the error of the request's context, `client`
-- that of the RPC client.
pub data TurnError : Type 0 where
  invalid_item invalid_notification invalid_completed : TurnError
  message_limit no_final interrupted failed_turn invalid_status : TurnError
  session_missing different_thread invalid_thread_id invalid_turn_id : TurnError
  context client : TurnError

-- What the code reads of a ThreadItem.
pub record ThreadItem : Type 0 where
  pub kind : String
  pub text : Option String
  pub phase : Option String

pub record ItemNote : Type 0 where
  pub thread_id : String
  pub turn_id : String
  pub item : ThreadItem

pub record ErrorNote : Type 0 where
  pub thread_id : String
  pub turn_id : String
  pub message : String
  pub details : Option String
  pub will_retry : Bool

pub record TurnNote : Type 0 where
  pub thread_id : String
  pub turn_id : String
  pub status : String
  pub items : List ThreadItem

-- A notification by its method; `none` is one whose parameters do not decode.
pub data Event : Type 0 where
  item_started item_completed : Option ItemNote → Event
  error_event : Option ErrorNote → Event
  turn_completed : Option TurnNote → Event
  other_event : Event

-- What a turn tells its observer and its emit function.
pub data Report : Type 0 where
  observed : (completed : Bool) → ThreadItem → Report
  limit_reached retrying : Report
