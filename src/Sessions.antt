-- ===== src/Sessions.antt =====
-- The sessions of the model clients: pkg/adapters/providersession and pkg/adapters/session.go.
pub mod Store
pub mod History
pub mod Scope
pub mod Continuity
pub mod Locks
mod Tests
use openlinker_agent_node.Base.{ℕ, String, Bool, List, Option}

pub record Session : Type 0 where
  pub session_id : String
  pub session_key_hash : String
  pub workspace : String
  pub client_mode : String
  pub client_mode_generation : ℕ  -- a uint64
  pub history_seen : List String
  pub updated_at : String

-- The map of a store file.
abbrev pub Sessions : Type 0
Sessions = List (String × Session)

-- ConversationContext, where `Message` is ConversationMessage
pub record Conversation (Message : Type 0) : Type 0 where
  pub id : String
  pub session_key : String
  pub protocol_context_id : String
  pub root_context_id : String
  pub current_run_id : String
  pub history_before_current : List Message
  pub source : String

pub record RunContext (Message : Type 0) : Type 0 where
  pub run_id : String
  pub agent_id : String
  pub principal : Option String  -- Authority.PrincipalScopeID, where there is an authority
  pub conversation : Option (Conversation Message)
  pub packages_loaded : Bool  -- SkillPackagesAlreadyLoaded
