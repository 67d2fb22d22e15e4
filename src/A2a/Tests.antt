-- ===== src/A2a/Tests.antt =====
-- The listener's theorems at concrete inputs.
use openlinker_agent_node.Base.{
  ℕ, String, ◌≡◌, refl, ◌≢◌, ◌⊎◌, Bool, true, false, List, [], ◌∷◌, Option, none, some, arith,
  eq_iff, trim_space,
}
use openlinker_agent_node.A2a.Response.{
  core_unavailable, Action, set_status, send_bytes, send_flush, act_all, new_writer, finish, Sent,
  header, chunk, envelope, received, act, write_header, write, write_body, flush, ensure_header,
}
use openlinker_agent_node.A2a.Response.Delivery.{IsReplaced, IsPassed, response_delivered}
use openlinker_agent_node.A2a.Handlers.{
  HttpRequest, bytes, absent, RpcRequest, authorized, handle, handle_proxy, with_body, call_root,
  decode_rpc,
}
use openlinker_agent_node.A2a.Handlers.Access.{
  IsHarmless, IsReadable, without_token-IsHarmless, proxied_request,
}
use openlinker_agent_node.A2a.Lifecycle.{Server, tcp_address, refused, stop_generation}
use openlinker_agent_node.A2a.Lifecycle.Closing.{
  Operation, accept, begin, run, accepted, occurs, stopped_closes_all, stale_end_ignored,
}

abbrev marker : List ℕ → Bool
marker [] = false
marker (x ∷ xs) = true

abbrev bad_gateway : List Action
bad_gateway = set_status 502 ∷ send_bytes (1 ∷ 2 ∷ []) ∷ send_flush ∷ send_bytes (3 ∷ []) ∷ []

response_delivered_example :
    let sent =
      received (finish marker core_unavailable (act_all bad_gateway new_writer)).target.sent in
    IsReplaced marker core_unavailable bad_gateway sent ⊎ IsPassed bad_gateway sent
response_delivered_example = response_delivered marker core_unavailable bad_gateway

-- The held body is replaced by one envelope.
replaced :
    (finish marker core_unavailable (act_all bad_gateway new_writer)).target.sent
    ≡ envelope core_unavailable ∷ []
unfolding finish act_all act write_header write write_body flush ensure_header
replaced = refl

-- A streamed answer goes through as it comes.
streamed :
    (finish marker core_unavailable
      (act_all (send_bytes (1 ∷ []) ∷ send_flush ∷ []) new_writer)).target.sent
    ≡ header 200 ∷ chunk (1 ∷ []) ∷ Sent.flushed ∷ []
unfolding finish act_all act write_header write write_body flush ensure_header
streamed = refl

abbrev no_rpc : List ℕ → Option RpcRequest
no_rpc b = none

abbrev bare : HttpRequest
bare = record { method = "GET"; path = "/tasks/1"; authorization = ""; body = absent }

without_token-IsHarmless_example : IsHarmless (handle no_rpc "secret" true bare)
unfolding trim_space
without_token-IsHarmless_example =
    without_token-IsHarmless no_rpc "secret" true bare (ground (arith, eq_iff "secret" ""))
      (ground (arith, eq_iff "" "Bearer secret"))

abbrev call : HttpRequest
call = record { method = "POST"; path = "/"; authorization = "Bearer secret"; body = bytes [] }

proxied_request_example :
    (true ≡ true)
    × IsReadable call.body
    × (call.path ≢ "/.well-known/agent-card.json")
    × (call.path ≢ "/agent-card.json")
    × (call.path ≢ "/extendedAgentCard")
    × (call.path ≡ "/" → call.method ≡ "POST")
    × (authorized "secret" call ≡ true)
unfolding handle handle_proxy with_body call_root decode_rpc authorized trim_space
proxied_request_example = proxied_request no_rpc "secret" true call refl

abbrev configured : Server
configured = record {
  host = "";
  slug = "";
  name = "";
  token = "";
  server = none;
  proxy = none;
  generation = 0;
  closed = [];
  shut_down = [];
}

abbrev local : String → Bool
local ip = true

-- A start that fails to listen closes the proxy; the next one runs with another.
abbrev retried : List Operation
retried = accept 1 ∷ begin local refused ∷ accept 2 ∷ begin local tcp_address ∷ []

stopped_closes_all_example :
    occurs 1 (stop_generation none (run retried configured)).closed ≡ accepted 1 retried configured
stopped_closes_all_example = stopped_closes_all retried configured 1 (refl, refl, refl)

abbrev serving : Server
serving = record configured { server = some 0; proxy = some 1; generation = 1 }

stale_end_ignored_example :
    let later = run retried (stop_generation none serving) in stop_generation (some 0) later ≡ later
stale_end_ignored_example = stale_end_ignored 0 retried serving refl (omega arith)
