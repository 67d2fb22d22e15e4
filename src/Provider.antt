-- ===== src/Provider.antt =====
-- The providers of pkg/adapters: their configuration and the run that they are given, as far as
-- isolation, the host authentication gate and delegation read them.
pub mod Scope
pub mod Storage
pub mod Environment
pub mod Gate
pub mod Endpoint
pub mod Isolated
pub mod Delegating
mod Tests
use openlinker_agent_node.Base.{String, Bool, List, Option}
use openlinker_agent_node.Config.Sandbox.{SandboxConfig}
use openlinker_agent_node.Sessions.{Conversation}

pub record ProviderConfig : Type 0 where
  pub provider : String
  pub session_isolation : SandboxConfig
  pub host_auth_concurrency : String
  pub session_reuse : Bool
  pub session_store : String
  pub delegation_targets : List String
  pub delegation_socket : String
  pub env_allowlist : List String
  pub allowed_tools : List String
  pub codex_base_url : String
  pub claude_base_url : String
  pub workspace : String
  pub sandbox : String
  pub codex_approval : String
  pub permission : String

-- RunContext; `principal` is the PrincipalScopeID of its Authority
pub record ProviderRun (M : Type 0) : Type 0 where
  pub principal : Option String
  pub agent_id : String
  pub run_id : String
  pub conversation : Option (Conversation M)
