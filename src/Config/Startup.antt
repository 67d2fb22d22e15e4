-- ===== src/Config/Startup.antt =====
-- NewFromLookup, helperFromEnv and publicA2AFromEnv of internal/agentnode/config.go.
use openlinker_agent_node.Base.{
  ℕ, String, Bool, true, false, ◌||◌, not, Option, none, some, if◌then◌else◌, str_eq, trim_space,
  lower_is,
}
use openlinker_agent_node.Base.Result.{Result, ok, err, ◌>>=◌}
use openlinker_agent_node.Config.{
  Env, Host, Problem, bad_helper, number_option, bool_option, default_string, duration, millisecond,
  second, yes_word, no_word,
}
use openlinker_agent_node.Config.Adapter.{Adapter, infer_adapter_mode, adapter_from_env}

pub record HelperConfig : Type 0 where
  pub host : String
  pub port : ℕ

pub record ListenerConfig : Type 0 where
  pub host : String
  pub port : ℕ
  pub slug : String
  pub name : String
  pub description : String
  pub token : String

-- The SDK's defaults, in the units of the variables.
pub record WorkerDefaults : Type 0 where
  pub capacity : ℕ
  pub claim_wait : ℕ
  pub command_wait : ℕ
  pub heartbeat : ℕ
  pub retry_minimum : ℕ
  pub retry_maximum : ℕ
  pub transport : String

pub record Node : Type 0 where
  pub openlinker_url : String
  pub runtime_url : String
  pub transport : String
  pub node_id : String
  pub agent_id : String
  pub agent_token : String
  pub data_dir : String
  pub mtls_cert_file : String
  pub mtls_key_file : String
  pub mtls_ca_file : String
  pub mtls_server_name : String
  pub capacity : ℕ
  pub claim_wait : ℕ
  pub command_wait : ℕ
  pub heartbeat_interval : ℕ
  pub retry_minimum : ℕ
  pub retry_maximum : ℕ
  pub adapter : Adapter
  pub helper : Option HelperConfig
  pub public_a2a : Option ListenerConfig

module _ (get : Env) where
  abbrev numbered : String → ℕ → Result Problem ℕ
  numbered name fallback = number_option (get name) fallback name

  -- whether the helper is on, by its variable and the adapter's mode
  unfoldable pub helper_enabled : (setting adapter_mode : String) → Result Problem Bool
  helper_enabled setting adapter_mode =
      if lower_is setting "auto"
      then ok (
          str_eq adapter_mode "http"
          || str_eq adapter_mode "openclaw"
          || str_eq adapter_mode "command")
      else if yes_word setting
      then ok true
      else if no_word setting
      then ok false
      else err bad_helper

  abbrev helper_on : Bool → Result Problem (Option HelperConfig)
  helper_on false = ok none
  helper_on true = numbered "OPENLINKER_AGENT_NODE_HELPER_PORT" 0 >>= λ (port : ℕ). ok (
      some (record {
        host = default_string (get "OPENLINKER_AGENT_NODE_HELPER_HOST") "127.0.0.1";
        port = port;
      }))

  unfoldable pub helper_from_env : (adapter_mode : String) → Result Problem (Option HelperConfig)
  helper_from_env adapter_mode =
      helper_enabled (default_string (get "OPENLINKER_AGENT_NODE_HELPER") "auto") adapter_mode
      >>= helper_on

  unfoldable pub public_a2a_from_env : Result Problem (Option ListenerConfig)
  public_a2a_from_env =
      if not (bool_option (get "OPENLINKER_AGENT_NODE_PUBLIC_A2A") false)
      then ok none
      else (numbered "OPENLINKER_AGENT_NODE_PUBLIC_A2A_PORT" 0 >>= λ (port : ℕ). ok (
          some (record {
            host = default_string (get "OPENLINKER_AGENT_NODE_PUBLIC_A2A_HOST") "127.0.0.1";
            port = port;
            slug = default_string (get "OPENLINKER_AGENT_NODE_PUBLIC_A2A_SLUG") "agent-node";
            name =
                default_string (get "OPENLINKER_AGENT_NODE_PUBLIC_A2A_NAME")
                  "OpenLinker Agent Node";
            description = get "OPENLINKER_AGENT_NODE_PUBLIC_A2A_DESCRIPTION";
            token = get "OPENLINKER_PUBLIC_A2A_TOKEN";
          })))

  abbrev trimmed : String → String
  trimmed name = trim_space (get name)

-- `lower` is strings.ToLower
module _ (host : Host) (lower : String → String) (defaults : WorkerDefaults) (get : Env) where
  abbrev adapter_mode : String
  adapter_mode = default_string (get "OPENLINKER_AGENT_NODE_ADAPTER") (infer_adapter_mode host get)

  unfoldable pub new_from_lookup : Result Problem Node
  new_from_lookup = do
    adapter ← adapter_from_env host get adapter_mode
    helper ← helper_from_env get adapter_mode
    public_a2a ← public_a2a_from_env get
    capacity ← numbered get "OPENLINKER_AGENT_NODE_CAPACITY" defaults.capacity
    claim ← numbered get "OPENLINKER_AGENT_NODE_CLAIM_WAIT_SECONDS" defaults.claim_wait
    wait ← numbered get "OPENLINKER_AGENT_NODE_COMMAND_WAIT_SECONDS" defaults.command_wait
    heartbeat ← numbered get "OPENLINKER_AGENT_NODE_HEARTBEAT_SECONDS" defaults.heartbeat
    minimum ← numbered get "OPENLINKER_AGENT_NODE_RETRY_MIN_MS" defaults.retry_minimum
    maximum ← numbered get "OPENLINKER_AGENT_NODE_RETRY_MAX_MS" defaults.retry_maximum
    ok (record {
      openlinker_url = trimmed get "OPENLINKER_URL";
      runtime_url = trimmed get "OPENLINKER_RUNTIME_URL";
      transport =
          lower (
            trim_space (default_string (get "OPENLINKER_AGENT_NODE_TRANSPORT") defaults.transport));
      node_id = trimmed get "OPENLINKER_NODE_ID";
      agent_id = trimmed get "OPENLINKER_AGENT_ID";
      agent_token = trimmed get "OPENLINKER_AGENT_TOKEN";
      data_dir = trimmed get "OPENLINKER_AGENT_NODE_DATA_DIR";
      mtls_cert_file = trimmed get "OPENLINKER_AGENT_NODE_MTLS_CERT_FILE";
      mtls_key_file = trimmed get "OPENLINKER_AGENT_NODE_MTLS_KEY_FILE";
      mtls_ca_file = trimmed get "OPENLINKER_AGENT_NODE_MTLS_CA_FILE";
      mtls_server_name = trimmed get "OPENLINKER_AGENT_NODE_MTLS_SERVER_NAME";
      capacity = capacity;
      claim_wait = duration claim second;
      command_wait = duration wait second;
      heartbeat_interval = duration heartbeat second;
      retry_minimum = duration minimum millisecond;
      retry_maximum = duration maximum millisecond;
      adapter = adapter;
      helper = helper;
      public_a2a = public_a2a;
    })
