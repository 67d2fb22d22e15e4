-- ===== src/A2a/Handlers.antt =====
-- The handlers of internal/agentnode/public_a2a_server.go. The body of a request is what
-- io.ReadAll gives under MaxBytesReader; `decode` stands for json.Unmarshal.
pub mod Access
use Prim.Native.String
use openlinker_agent_node.Base.{
  ℕ, String, Bool, true, false, not, ◌&&◌, ◌||◌, List, Option, none, some, if◌then◌else◌, str_eq,
  trim_space, length, ◌==◌,
}
use Prim.Native.String.{len}
use openlinker_agent_node.Base.Int.{ℤ, pos, negsuc}
use openlinker_agent_node.A2a.Response.{
  Reply, http_error, rpc_error, rpc_card, card, core_unavailable,
}

pub data Body : Type 0 where
  absent too_large unreadable : Body
  bytes : List ℕ → Body

pub record HttpRequest : Type 0 where
  pub method : String
  pub path : String
  pub authorization : String
  pub body : Body

-- publicA2AJSONRPCRequest; an absent ID is ""
pub record RpcRequest : Type 0 where
  pub version : String
  pub id : String
  pub method : String

-- A reply of the listener itself, or the proxy's response with the envelope for a Core that
-- cannot be reached.
pub data Answer : Type 0 where
  replied : Reply → Answer
  proxied : Reply → Answer

abbrev not_allowed : Reply
not_allowed = http_error 405 "UnsupportedOperationError" "method not allowed"

abbrev unauthorized : Reply
unauthorized = http_error 401 "AuthRequiredError" "authorization required"

abbrev body_too_large : Reply
body_too_large = http_error 413 "RequestBodyTooLargeError" "request body exceeds 1 MiB"

abbrev body_unreadable : Reply
body_unreadable = http_error 400 "InvalidRequestBodyError" "request body could not be read"

abbrev no_proxy : Reply
no_proxy = http_error 503 "A2AProxyUnavailableError" "Core A2A proxy is unavailable"

-- authorized; the constant-time comparison decides equality
unfoldable pub authorized : String → HttpRequest → Bool
authorized token r =
    let expected = trim_space token in
    if str_eq expected ""
    then true
    else str_eq (trim_space r.authorization) (String.◌++◌ "Bearer " expected)

-- publicA2AExtendedCardMethod
abbrev pub extended_card_method : String → Bool
extended_card_method method =
    let m = trim_space method in str_eq m "GetExtendedAgentCard" || str_eq m "agent/getExtendedCard"

-- jsonRPCID
abbrev pub json_rpc_id : String → Bool → String
json_rpc_id id valid = if not valid || str_eq id "" then "null" else id

module _ (decode : List ℕ → Option RpcRequest) where
  -- decodePublicA2AJSONRPCRequest
  unfoldable pub decode_rpc : List ℕ → Option RpcRequest
  decode_rpc body = elim (decode body) [
    | none ↦ none
    | some q ↦
        if not (str_eq q.version "2.0") || str_eq (trim_space q.method) "" then none else some q
  ]

  -- the proxy, where there is one
  abbrev forward : Bool → Reply → Answer
  forward available reply = if available then proxied reply else replied no_proxy

  abbrev rpc_unavailable : String → Reply
  rpc_unavailable id = rpc_error id (negsuc 32012) "Core A2A service is unavailable"

  -- a JSON-RPC call, decoded or not
  unfoldable pub call_root : Bool → Option RpcRequest → Answer
  call_root available none = forward available (rpc_unavailable "null")
  call_root available (some q) =
      if extended_card_method q.method
      then replied (rpc_card (json_rpc_id q.id true))
      else forward available (rpc_unavailable (json_rpc_id q.id true))

  -- preparePublicA2AProxyRequest, and what follows it
  unfoldable pub with_body : (root available : Bool) → Body → Answer
  with_body root available too_large = replied body_too_large
  with_body root available unreadable = replied body_unreadable
  with_body root available absent =
      if root then call_root available none else forward available core_unavailable
  with_body root available (bytes b) =
      if root then call_root available (decode_rpc b) else forward available core_unavailable

  unfoldable pub handle_proxy : (token : String) (available : Bool) → HttpRequest → Answer
  handle_proxy token available r =
      let root = str_eq r.path "/" in
      if root && not (str_eq r.method "POST")
      then replied not_allowed
      else if not (authorized token r)
      then replied
          (if root then rpc_error "null" (negsuc 32009) "authorization required" else unauthorized)
      else with_body root available r.body

  -- handleAgentCard
  unfoldable pub handle_agent_card : HttpRequest → Answer
  handle_agent_card r =
      if not (str_eq r.method "GET") then replied not_allowed else replied (card false)

  -- handleExtendedAgentCard
  unfoldable pub handle_extended_card : String → HttpRequest → Answer
  handle_extended_card token r =
      if not (str_eq r.method "GET")
      then replied not_allowed
      else if not (authorized token r)
      then replied unauthorized
      else replied (card true)

  -- the mux of Start
  unfoldable pub handle : (token : String) (available : Bool) → HttpRequest → Answer
  handle token available r =
      if str_eq r.path "/.well-known/agent-card.json" || str_eq r.path "/agent-card.json"
      then handle_agent_card r
      else if str_eq r.path "/extendedAgentCard"
      then handle_extended_card token r
      else handle_proxy token available r
