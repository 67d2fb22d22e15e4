-- ===== src/Provider/Isolated.antt =====
-- The isolation of a provider's session: pkg/adapters/isolation.go.
pub mod Apart
use Prim.Native.String.{String}
use openlinker_agent_node.Base.{
  ℕ, ◌≡◌, ◌≢◌, refl, sym, ap, ◌∙◌, Bool, true, false, not, ◌&&◌, ◌||◌, List, [], ◌∷◌, Option, none,
  some, if◌then◌else◌, Bool-cases, Option-cases, inl, inr, str_eq, all, any, codes, length, ◌==◌,
  trim_space, ◌++◌,
}
use openlinker_agent_node.Base.Result.{Result, ok, err}
use openlinker_agent_node.Sessions.{Conversation}
use openlinker_agent_node.Config.Sandbox.{SandboxConfig, enabled}
use openlinker_agent_node.Provider.{ProviderConfig, ProviderRun}
use openlinker_agent_node.Provider.Gate.{valid_host_auth}
use openlinker_agent_node.Provider.Scope.{scope_name}
use openlinker_agent_node.Provider.Storage.{
  OpenCalls, StorageStep, Place, open_client, close_storage,
}

abbrev native_tool : String → Bool
native_tool t = any (λ k. str_eq k t) ("Read" ∷ "Edit" ∷ "Write" ∷ "Glob" ∷ "Grep" ∷ "Bash" ∷ [])

-- `valid_config` is Validate of the sandbox's configuration, `valid_endpoint`
-- validateIsolatedModelEndpoint
module _ (valid_config : SandboxConfig → Bool) (valid_endpoint : ProviderConfig → Bool) where
  -- the demands on an isolated provider
  unfoldable pub isolatable : ProviderConfig → Bool
  isolatable c =
      valid_endpoint c
      && str_eq c.session_isolation.runtime_bin ""
      && c.session_reuse
      && str_eq c.session_store ""
      && length c.delegation_targets == 0
      && str_eq c.delegation_socket ""
      && length c.env_allowlist == 0
      && all native_tool c.allowed_tools

  -- validateSessionIsolation
  unfoldable pub valid_isolation : ProviderConfig → Bool
  unfolding isolatable
  valid_isolation c =
      valid_host_auth c
      && valid_config c.session_isolation
      && (not (enabled c.session_isolation) || isolatable c)

-- the conversation is Core's and of this run
abbrev pub current_conversation : {M : Type 0} → String → Option (Conversation M) → Bool
current_conversation run_id none = false
current_conversation run_id (some v) =
    str_eq v.source "core"
    && not (str_eq (trim_space v.session_key) "")
    && str_eq v.current_run_id run_id

abbrev pub has_principal : Option String → Bool
has_principal none = false
has_principal (some p) = not (str_eq (trim_space p) "")

unfoldable pub trusted_run : {M : Type 0} → ProviderRun M → Bool
trusted_run r =
    has_principal r.principal
    && not (str_eq r.agent_id "")
    && not (str_eq r.run_id "")
    && current_conversation r.run_id r.conversation

abbrev pub session_key_of : {M : Type 0} → Option (Conversation M) → String
session_key_of none = ""
session_key_of (some v) = v.session_key

abbrev pub principal_of : Option String → String
principal_of none = ""
principal_of (some p) = p

-- the parts of the storage's scope
abbrev pub scope_parts : {M : Type 0} → ProviderConfig → ProviderRun M → List (List ℕ)
scope_parts c r =
    codes c.provider
    ∷ codes r.agent_id
    ∷ codes (principal_of r.principal)
    ∷ codes (session_key_of r.conversation)
    ∷ []

-- what a provider runs with, and where its storage is, if it is isolated
pub record Prepared : Type 0 where
  pub config : ProviderConfig
  pub storage : Option Place

abbrev pub isolated_config : String → String → ProviderConfig → ProviderConfig
isolated_config workspace store c = record c {
  workspace = workspace;
  session_store = store;
  sandbox = if str_eq c.provider "codex" then "workspace-write" else c.sandbox;
  codex_approval = if str_eq c.provider "codex" then "never" else c.codex_approval;
  permission = if str_eq c.provider "claude" then "default" else c.permission;
}

-- `hash` is SHA-256 in hexadecimal digits, `workspace` and `store` are Workspace and Store of a
-- session.
module _ (hash : List ℕ → List ℕ) (workspace store : Place → String)
    (valid_config : SandboxConfig → Bool) (valid_endpoint : ProviderConfig → Bool) where
  -- prepareIsolatedSession after its tests: OpenClient, in the scope of the run, and the tool
  -- policy
  unfoldable pub open_isolated :
      {M : Type 0}
      → ProviderConfig
      → ProviderRun M
      → OpenCalls
      → (policy : Bool) → Option Prepared × List StorageStep
  unfolding scope_name
  open_isolated c r calls policy =
      let scope = scope_name hash (scope_parts c r) in
      let (opened, steps) = open_client hash c.session_isolation.namespace scope calls in
      elim opened [
        | none ↦ (none, steps)
        | some place ↦ if not policy then (none, steps ++ close_storage) else (
          some (record {
            config = isolated_config (workspace place) (store place) c;
            storage = some place;
          }),
          steps,
        )
      ]

  -- prepareIsolatedSession; `environment` is whether nativeClientEnvironment succeeds, `policy`
  -- whether newNativeToolPolicy does
  unfoldable pub prepare_isolated :
      {M : Type 0}
      → ProviderConfig
      → ProviderRun M
      → (environment : Bool) → OpenCalls
      → (policy : Bool) → Option Prepared × List StorageStep
  unfolding valid_isolation trusted_run open_isolated
  prepare_isolated c r environment calls policy =
      if not (valid_isolation valid_config valid_endpoint c)
      then (none, [])
      else if not (enabled c.session_isolation)
      then (some (record { config = c; storage = none }), [])
      else if not (trusted_run r) || not environment
      then (none, [])
      else open_isolated c r calls policy
