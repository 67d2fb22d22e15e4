-- ===== src/A2a/Lifecycle.antt =====
-- setProxy, Start and Stop of PublicA2AServer in internal/agentnode/public_a2a_server.go. A
-- server and a proxy are numbers: the HTTP server by its generation, the proxy by its identity.
-- What closes a proxy is recorded, and so is what shuts a server down.
pub mod Closing
use openlinker_agent_node.Base.{
  ℕ, suc, ◌+◌, String, Bool, true, false, not, ◌&&◌, ◌||◌, List, [], ◌∷◌, Option, none, some, ◌==◌,
  if◌then◌else◌, str_eq, trim_space, trim_brackets, equal_fold, is_some,
}

pub record Server : Type 0 where
  pub host : String
  pub slug : String
  pub name : String
  pub token : String
  pub server : Option ℕ
  pub proxy : Option ℕ
  pub generation : ℕ  -- the servers made so far
  pub closed : List ℕ  -- proxies on which Close was called, the latest first
  pub shut_down : List ℕ  -- servers on which Shutdown was called

pub data Failure : Type 0 where
  proxy_missing already_started proxy_present token_required listen_failed not_tcp : Failure

-- What net.Listen gives.
pub data Listening : Type 0 where
  refused other_address tcp_address : Listening

-- setProxy; `none` is a nil proxy
unfoldable pub set_proxy : Option ℕ → Server → Option Failure × Server
set_proxy none s = (some proxy_missing, s)
set_proxy (some p) s =
    if is_some s.server
    then (some already_started, s)
    else if is_some s.proxy
    then (some proxy_present, s)
    else (none, record s { proxy = some p })

abbrev pub default_to : String → String → String
default_to fallback value = if str_eq value "" then fallback else value

-- publicA2AHostIsLoopback; `loopback_ip` is net.ParseIP with IsLoopback
unfoldable pub is_loopback : (String → Bool) → String → Bool
is_loopback loopback_ip host =
    equal_fold (trim_space host) "localhost" || loopback_ip (trim_brackets (trim_space host))

abbrev pub close_all : Option ℕ → List ℕ → List ℕ
close_all none closed = closed
close_all (some p) closed = p ∷ closed

-- failStartLocked
unfoldable pub fail_start : Failure → Server → Option Failure × Server
fail_start e s = (some e, record s { proxy = none; closed = close_all s.proxy s.closed })

-- the defaults that Start fills in
abbrev pub with_defaults : Server → Server
with_defaults s =
    let slug = default_to "agent-node" (trim_space s.slug) in
    record s { host = default_to "127.0.0.1" s.host; slug = slug; name = default_to slug s.name }

abbrev pub listening : Listening → Server → Option Failure × Server
listening refused s = fail_start listen_failed s
listening other_address s = fail_start not_tcp s
listening tcp_address s =
    (none, record s { server = some s.generation; generation = s.generation + 1 })

-- Start, once the defaults are filled in
unfoldable pub start_with : (String → Bool) → Listening → Server → Option Failure × Server
start_with loopback_ip l s =
    if not (is_loopback loopback_ip s.host) && str_eq (trim_space s.token) ""
    then fail_start token_required s
    else if is_some s.proxy
    then listening l s
    else (some proxy_missing, s)

unfoldable pub start : (String → Bool) → Listening → Server → Option Failure × Server
start loopback_ip l s =
    if is_some s.server
    then (some already_started, s)
    else start_with loopback_ip l (with_defaults s)

abbrev pub same_server : Option ℕ → Option ℕ → Bool
same_server none s = true
same_server (some g) none = false
same_server (some g) (some h) = g == h

-- stopGeneration; `none` is Stop, which stops whatever runs
unfoldable pub stop_generation : Option ℕ → Server → Server
stop_generation expected s = if not (same_server expected s.server) then s else record s {
  server = none;
  proxy = none;
  closed = close_all s.proxy s.closed;
  shut_down = close_all s.server s.shut_down;
}
