-- ===== src/Config/Adapter.antt =====
-- adapterFromEnv and inferAdapterMode of internal/agentnode/config.go.
pub mod Guarded
use openlinker_agent_node.Base.{
  ℕ, ◌*◌, String, Bool, true, false, ◌&&◌, ◌||◌, not, List, [], ◌∷◌, Option, none, some,
  if◌then◌else◌, str_eq, trim_space, lower_is,
}
use openlinker_agent_node.Base.Result.{Result, ok, err, ◌>>=◌, refuse}
use openlinker_agent_node.Config.{
  Env, Host, Problem, not_a_boolean, bad_concurrency, bad_endpoint, module_adapter, unknown_adapter,
  number_option, bool_option, default_string, duration, millisecond, parse_strings, parse_map,
  parse_comma_list, yes_word, no_word,
}
use openlinker_agent_node.Config.Sandbox.{SandboxConfig, enabled}
use openlinker_agent_node.Config.Isolation.{
  Provider, codex, claude, variable, unisolated_options, provider_isolation,
}

pub record HttpAdapter : Type 0 where
  pub url : String
  pub headers : List (String × String)
  pub timeout : ℕ

pub record A2aAdapter : Type 0 where
  pub base_url : String
  pub token : String
  pub headers : List (String × String)
  pub method : String
  pub accepted_output_modes : List String
  pub protocol_version : String
  pub dialect : String
  pub timeout : ℕ

pub record CommandAdapter : Type 0 where
  pub command : String
  pub args : List String
  pub cwd : String
  pub env_allowlist : List String
  pub timeout : ℕ

-- What the Codex adapter and the Claude configuration have in common.
pub record NativeConfig : Type 0 where
  pub isolation : SandboxConfig
  pub host_auth_concurrency : String
  pub bin : String
  pub base_url : String
  pub workspace : String
  pub model : String
  pub web_search : Bool
  pub timeout : ℕ
  pub session_reuse : Bool
  pub session_store : String
  pub env_allowlist : List String
  pub delegation_targets : List String
  pub delegation_proxy_bin : String
  pub delegation_broker_root : String

pub data Adapter : Type 0 where
  http_adapter : HttpAdapter → Adapter
  a2a_adapter : A2aAdapter → Adapter
  command_adapter : CommandAdapter → Adapter
  claude_adapter : NativeConfig → (permission : String) → (allowed_tools : List String) → Adapter
  codex_adapter : NativeConfig → (sandbox approval mock_response : String) → Adapter

module _ (host : Host) (get : Env) where
  -- inferAdapterMode
  unfoldable pub infer_adapter_mode : String
  infer_adapter_mode =
      if not (str_eq (get "OPENLINKER_AGENT_NODE_HTTP_URL") "")
      then "http"
      else if not (str_eq (get "OPENLINKER_AGENT_NODE_A2A_BASE_URL") "")
      then "a2a"
      else if not (str_eq (get "OPENLINKER_AGENT_NODE_COMMAND") "")
      then "command"
      else if not (str_eq (get "OPENLINKER_AGENT_NODE_CODEX_WORKSPACE") "")
          || not (str_eq (get "OPENLINKER_AGENT_NODE_CODEX_BIN") "")
      then "codex"
      else "http"

  -- nativeWebSearchFromEnv
  unfoldable pub web_search_from_env : Provider → Result Problem Bool
  web_search_from_env p =
      let word = trim_space (get (variable p "WEB_SEARCH")) in
      if no_word word
      then ok false
      else if str_eq word "" || yes_word word
      then ok true
      else err (not_a_boolean (variable p "WEB_SEARCH"))

  -- TIMEOUT_MS, with a default in minutes
  abbrev timeout_option : ℕ → Result Problem ℕ
  timeout_option minutes =
      number_option (get "OPENLINKER_AGENT_NODE_TIMEOUT_MS") (minutes * 60000)
        "OPENLINKER_AGENT_NODE_TIMEOUT_MS"

  abbrev strings_of : String → Result Problem (List String)
  strings_of name = parse_strings host (get name) name

  abbrev dialect_name : String
  dialect_name =
      default_string (get "OPENLINKER_AGENT_NODE_A2A_DIALECT")
        (get "OPENLINKER_AGENT_NODE_A2A_METHOD_DIALECT")

  abbrev allowlist : List String
  allowlist = parse_comma_list host (get "OPENLINKER_AGENT_NODE_ENV_ALLOWLIST")

  unfoldable pub http_from_env : (concurrency : String) (timeout : ℕ) → Result Problem Adapter
  http_from_env concurrency timeout = do
    _ ← unisolated_options host get concurrency
    headers ←
        parse_map host (get "OPENLINKER_AGENT_NODE_HTTP_HEADERS")
          "OPENLINKER_AGENT_NODE_HTTP_HEADERS"
    ok (
        http_adapter (record {
          url = get "OPENLINKER_AGENT_NODE_HTTP_URL";
          headers = headers;
          timeout = duration timeout millisecond;
        }))

  unfoldable pub a2a_from_env : (concurrency : String) (timeout : ℕ) → Result Problem Adapter
  a2a_from_env concurrency timeout = do
    _ ← unisolated_options host get concurrency
    headers ←
        parse_map host (get "OPENLINKER_AGENT_NODE_A2A_HEADERS") "OPENLINKER_AGENT_NODE_A2A_HEADERS"
    modes ← strings_of "OPENLINKER_AGENT_NODE_A2A_ACCEPTED_OUTPUT_MODES"
    ok (
        a2a_adapter (record {
          base_url = get "OPENLINKER_AGENT_NODE_A2A_BASE_URL";
          token = get "OPENLINKER_UPSTREAM_A2A_TOKEN";
          headers = headers;
          method =
              host.normalize_method
                (default_string (get "OPENLINKER_AGENT_NODE_A2A_METHOD") host.default_method)
                dialect_name;
          accepted_output_modes = modes;
          protocol_version = get "OPENLINKER_AGENT_NODE_A2A_PROTOCOL_VERSION";
          dialect = host.normalize_dialect dialect_name;
          timeout = duration timeout millisecond;
        }))

  -- an unset CWD is os.Getwd(), and "" where that fails
  unfoldable pub command_from_env : (concurrency : String) (timeout : ℕ) → Result Problem Adapter
  command_from_env concurrency timeout = do
    _ ← unisolated_options host get concurrency
    args ← strings_of "OPENLINKER_AGENT_NODE_ARGS"
    ok (
        command_adapter (record {
          command = get "OPENLINKER_AGENT_NODE_COMMAND";
          args = args;
          cwd = default_string (get "OPENLINKER_AGENT_NODE_CWD") host.current_directory;
          env_allowlist = allowlist;
          timeout = duration timeout millisecond;
        }))

  -- mustGetwd
  abbrev working_directory : String
  working_directory = default_string host.current_directory "."

  abbrev endpoint : String → Result Problem (Unit {0})
  endpoint url = refuse (not (str_eq url "") && not (host.valid_endpoint url)) bad_endpoint

  abbrev native_config :
      Provider → String → SandboxConfig → String → Bool → List String → ℕ → NativeConfig
  native_config p bin isolation concurrency search targets timeout = record {
    isolation = isolation;
    host_auth_concurrency = concurrency;
    bin = default_string (get (variable p "BIN")) bin;
    base_url = get (variable p "BASE_URL");
    workspace = default_string (get (variable p "WORKSPACE")) working_directory;
    model = get (variable p "MODEL");
    web_search = search;
    timeout = duration timeout millisecond;
    session_reuse = bool_option (get (variable p "SESSION_REUSE")) (enabled isolation);
    session_store = get (variable p "SESSION_STORE");
    env_allowlist = allowlist;
    delegation_targets = targets;
    delegation_proxy_bin = get "OPENLINKER_AGENT_NODE_DELEGATION_PROXY_BIN";
    delegation_broker_root = get "OPENLINKER_AGENT_NODE_DELEGATION_BROKER_ROOT";
  }

  unfoldable pub claude_from_env : (concurrency : String) → Result Problem Adapter
  claude_from_env concurrency = do
    isolation ← provider_isolation host get claude concurrency
    _ ← endpoint (get (variable claude "BASE_URL"))
    timeout ← timeout_option 30
    search ← web_search_from_env claude
    allowed ← strings_of "OPENLINKER_AGENT_NODE_CLAUDE_ALLOWED_TOOLS"
    targets ← strings_of "OPENLINKER_AGENT_NODE_DELEGATION_TARGETS"
    ok (
        claude_adapter (native_config claude "claude" isolation concurrency search targets timeout)
          (default_string (get (variable claude "PERMISSION")) "dontAsk") allowed)

  unfoldable pub codex_from_env : (concurrency : String) → Result Problem Adapter
  codex_from_env concurrency = do
    isolation ← provider_isolation host get codex concurrency
    search ← web_search_from_env codex
    _ ← endpoint (get (variable codex "BASE_URL"))
    targets ← strings_of "OPENLINKER_AGENT_NODE_DELEGATION_TARGETS"
    timeout ← timeout_option 30
    ok (
        codex_adapter (native_config codex "codex" isolation concurrency search targets timeout)
          (default_string (get (variable codex "SANDBOX")) "read-only")
          (default_string (get (variable codex "APPROVAL")) "never")
          (get (variable codex "MOCK_RESPONSE")))

  abbrev known_concurrency : String → Bool
  known_concurrency s = str_eq s "" || str_eq s "serial" || str_eq s "client-managed"

  -- the switch of adapterFromEnv
  unfoldable pub adapter_for : (mode concurrency : String) (timeout : ℕ) → Result Problem Adapter
  adapter_for mode concurrency timeout =
      if str_eq mode "http" || str_eq mode "openclaw"
      then http_from_env concurrency timeout
      else if str_eq mode "a2a"
      then a2a_from_env concurrency timeout
      else if str_eq mode "command"
      then command_from_env concurrency timeout
      else if str_eq mode "claude"
      then claude_from_env concurrency
      else if str_eq mode "codex"
      then codex_from_env concurrency
      else if str_eq mode "module"
      then err module_adapter
      else err unknown_adapter

  unfoldable pub adapter_from_env : (mode : String) → Result Problem Adapter
  adapter_from_env mode =
      let concurrency = get "OPENLINKER_AGENT_NODE_HOST_AUTH_CONCURRENCY" in
      timeout_option 15 >>= λ (timeout : ℕ).
      refuse (not (known_concurrency concurrency)) bad_concurrency >>= λ (u : Unit {0}).
      adapter_for mode concurrency timeout
