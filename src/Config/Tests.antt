-- ===== src/Config/Tests.antt =====
-- The configuration at concrete environments.
use openlinker_agent_node.Base.{
  ℕ, String, ◌≡◌, refl, true, false, List, [], ◌∷◌, some, if◌then◌else◌, str_eq, trim_space,
  to_lower_code, lower_is,
}
use openlinker_agent_node.Base.Result.{ok, err, ◌>>=◌}
use openlinker_agent_node.Config.{
  Env, Host, not_a_number, native_unsupported, natural, number_option, bool_option, duration,
  parse_strings, parse_map, parse_comma_list,
}
use openlinker_agent_node.Config.Sandbox.{
  native, parse_mode, SandboxConfig, validate, safe_path, good_domain, good_label, labels,
}
use openlinker_agent_node.Config.Isolation.{
  parse_isolation, isolation_from_env, native_provider_options, provider_isolation, default_root,
  unisolated_options,
}
use openlinker_agent_node.Config.Adapter.{
  Adapter, codex_adapter, adapter_from_env, adapter_for, codex_from_env, http_from_env,
  web_search_from_env,
}
use openlinker_agent_node.Config.Adapter.Guarded.{IsGuarded, adapter_from_env-IsGuarded}

abbrev test_host : Host
test_host = record {
  json_strings = λ (s : String). some [];
  json_map = λ (s : String). some [];
  split_commas = λ (s : String). s ∷ [];
  core_url = λ (s : String). some s;
  clean = λ (s : String). s;
  join = λ (a b : String). a;
  is_ip = λ (cs : List ℕ). false;
  valid_endpoint = λ (s : String). true;
  outside_worktree = λ (s : String). true;
  supported_system = true;
  supported_processor = true;
  unprivileged = true;
  current_directory = "/work";
  default_method = "message/send";
  normalize_method = λ (a b : String). a;
  normalize_dialect = λ (a : String). a;
}

abbrev plain : Env
plain name =
    if str_eq name "HOME"
    then "/home/node"
    else if str_eq name "OPENLINKER_URL"
    then "https://core.example"
    else ""

abbrev native_mode : Env
native_mode name =
    if str_eq name "OPENLINKER_AGENT_NODE_SESSION_ISOLATION" then " Native" else plain name

abbrev default_isolation : SandboxConfig
default_isolation = record {
  mode = native;
  root = "/home/node";
  namespace = "https://core.example";
  runtime_bin = "";
  temp_root = "";
  read_paths = [];
  allowed_domains = [];
}

abbrev default_codex : Adapter
default_codex =
    codex_adapter
      (record {
        isolation = default_isolation;
        host_auth_concurrency = "";
        bin = "codex";
        base_url = "";
        workspace = "/work";
        model = "";
        web_search = true;
        timeout = 1800000000000;
        session_reuse = true;
        session_store = "";
        env_allowlist = [];
        delegation_targets = [];
        delegation_proxy_bin = "";
        delegation_broker_root = "";
      })
      "read-only" "never" ""

-- Codex is isolated where nothing is configured.
made : adapter_from_env test_host plain "codex" ≡ ok default_codex
unfolding adapter_from_env adapter_for codex_from_env web_search_from_env number_option bool_option
    duration parse_strings parse_map parse_comma_list parse_mode validate safe_path parse_isolation
    isolation_from_env native_provider_options provider_isolation default_root trim_space
    to_lower_code lower_is ◌>>=◌
made = refl

adapter_from_env-IsGuarded_example : IsGuarded test_host plain default_codex
adapter_from_env-IsGuarded_example =
    adapter_from_env-IsGuarded test_host plain "codex" default_codex made

-- Another adapter does not start where native isolation is asked for.
refused : adapter_from_env test_host native_mode "http" ≡ err native_unsupported
unfolding adapter_from_env adapter_for http_from_env unisolated_options number_option parse_strings
    parse_mode validate safe_path parse_isolation isolation_from_env default_root trim_space
    to_lower_code lower_is ◌>>=◌
refused = refl

numbers :
    (number_option "+042" 7 "N" ≡ ok 42)
    × (number_option "-0" 7 "N" ≡ ok 0)
    × (number_option "-1" 7 "N" ≡ err (not_a_number "N"))
    × (number_option "9223372036854775808" 7 "N" ≡ err (not_a_number "N"))
    × (number_option "" 7 "N" ≡ ok 7)
unfolding number_option natural
numbers = (refl, refl, refl, refl, refl)

-- A number of milliseconds that numberOption accepts, and that wraps.
wrapped : duration 18446744073710 1000000 ≡ 448384
unfolding duration
wrapped = refl

domains :
    (good_domain test_host "api.example.com:443" ≡ true)
    × (good_domain test_host "API.example.com" ≡ false)
    × (good_domain test_host "a..com" ≡ false)
    × (good_domain test_host "x.local" ≡ false)
unfolding good_domain good_label labels to_lower_code
domains = (refl, refl, refl, refl)
