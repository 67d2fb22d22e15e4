-- ===== src/Config/Isolation.antt =====
-- internal/agentnode/session_isolation.go.
pub mod Defaults
use Prim.Native.String
use openlinker_agent_node.Base.{
  String, Bool, true, false, ◌&&◌, ◌||◌, not, List, [], ◌∷◌, Option, none, some, if◌then◌else◌,
  str_eq, trim_space, has_prefix,
}
use openlinker_agent_node.Base.Result.{Result, ok, err, ◌>>=◌, refuse}
use openlinker_agent_node.Config.{
  Env, Host, Problem, needs_native, bad_home, bad_url, inside_worktree, native_unsupported,
  bad_concurrency, mock_with_native, workspace_unused, reuse_required, with_hint, parse_strings,
  bool_option,
}
use openlinker_agent_node.Config.Sandbox.{
  Mode, unset, native, parse_mode, SandboxConfig, is_native, enabled, inactive, validate,
}

pub data Provider : Type 0 where
  codex claude : Provider

-- prefix + name, for a provider
abbrev pub variable : Provider → String → String
variable codex name = String.◌++◌ "OPENLINKER_AGENT_NODE_CODEX_" name
variable claude name = String.◌++◌ "OPENLINKER_AGENT_NODE_CLAUDE_" name

abbrev pub hinted : {A : Type 0} → Bool → Result Problem A → Result Problem A
hinted defaulted (ok a) = ok a
hinted defaulted (err e) = if defaulted then err (with_hint e) else err e

abbrev is_unset : Mode → Bool
is_unset unset = true
is_unset _ = false

module _ (host : Host) (get : Env) where
  abbrev pub configured_mode : Mode
  configured_mode = parse_mode (get "OPENLINKER_AGENT_NODE_SESSION_ISOLATION")

  -- defaultSessionRoot
  unfoldable pub default_root : Result Problem String
  default_root =
      let home = trim_space (get "HOME") in
      if has_prefix home "/"
      then ok (host.join home ".local/state/openlinker-agent-node-sessions")
      else err bad_home

  abbrev is_set : String → Bool
  is_set name = not (str_eq (trim_space (get name)) "")

  -- the loop that refuses native settings without the native mode
  abbrev native_settings : Mode → Result Problem (Unit {0})
  native_settings mode =
      refuse (inactive mode && is_set "OPENLINKER_AGENT_NODE_SESSION_READ_PATHS")
        (needs_native "OPENLINKER_AGENT_NODE_SESSION_READ_PATHS")
      >>= λ (u : Unit {0}).
          refuse (inactive mode && is_set "OPENLINKER_AGENT_NODE_SESSION_NETWORK_DOMAINS")
            (needs_native "OPENLINKER_AGENT_NODE_SESSION_NETWORK_DOMAINS")

  abbrev url_or : Option String → Result Problem String
  url_or none = err bad_url
  url_or (some url) = ok url

  abbrev namespace_for : Mode → Result Problem String
  namespace_for mode =
      if is_native mode then url_or (host.core_url (trim_space (get "OPENLINKER_URL"))) else ok ""

  abbrev root_for : Mode → String → Result Problem String
  root_for mode root = if is_native mode && str_eq root "" then default_root else ok root

  abbrev outside : String → Bool
  outside root = str_eq root "" || host.outside_worktree root

  -- parseSessionIsolation, once the mode is known
  unfoldable pub parse_isolation : Mode → Result Problem SandboxConfig
  parse_isolation mode = do
    root ← root_for mode (get "OPENLINKER_AGENT_NODE_SESSION_ROOT")
    _ ← native_settings mode
    reads ←
        parse_strings host (get "OPENLINKER_AGENT_NODE_SESSION_READ_PATHS")
          "OPENLINKER_AGENT_NODE_SESSION_READ_PATHS"
    domains ←
        parse_strings host (get "OPENLINKER_AGENT_NODE_SESSION_NETWORK_DOMAINS")
          "OPENLINKER_AGENT_NODE_SESSION_NETWORK_DOMAINS"
    namespace ← namespace_for mode
    let c : SandboxConfig = record {
      mode = mode;
      root = root;
      namespace = namespace;
      runtime_bin = get "OPENLINKER_AGENT_NODE_SESSION_SANDBOX_BIN";
      temp_root = get "OPENLINKER_AGENT_NODE_SESSION_TEMP_ROOT";
      read_paths = reads;
      allowed_domains = domains;
    }
    _ ← validate host c
    _ ← refuse (is_native mode && not (outside c.root && outside c.temp_root)) inside_worktree
    ok c

  -- sessionIsolationFromEnv
  unfoldable pub isolation_from_env : (default_native : Bool) → Result Problem SandboxConfig
  isolation_from_env default_native =
      let defaulted = is_unset configured_mode && default_native in
      hinted defaulted (parse_isolation (if defaulted then native else configured_mode))

  -- unisolatedAdapterOptions
  unfoldable pub unisolated_options : (concurrency : String) → Result Problem (Unit {0})
  unisolated_options concurrency = do
    c ← isolation_from_env false
    _ ← refuse (enabled c) native_unsupported
    refuse (not (str_eq concurrency "")) bad_concurrency

  -- nativeProviderOptions
  unfoldable pub native_provider_options : Provider → Result Problem (Unit {0})
  native_provider_options p =
      let reuse = get (variable p "SESSION_REUSE") in
      (refuse (not (str_eq (get (variable p "WORKSPACE")) "")) (with_hint workspace_unused)
        >>= λ (u : Unit {0}).
            refuse (not (str_eq reuse "") && not (bool_option reuse false))
              (with_hint reuse_required))

  abbrev pub is_mock : Provider → Bool
  is_mock codex = not (str_eq (get "OPENLINKER_AGENT_NODE_CODEX_MOCK_RESPONSE") "")
  is_mock claude = false

  -- providerIsolationFromEnv
  unfoldable pub provider_isolation :
      Provider → (concurrency : String) → Result Problem SandboxConfig
  provider_isolation p concurrency = do
    c ← isolation_from_env (not (is_mock p))
    _ ← refuse (enabled c && is_mock p) mock_with_native
    _ ← refuse (not (enabled c) && not (str_eq concurrency "")) bad_concurrency
    _ ← if enabled c then native_provider_options p else ok tt
    ok c
