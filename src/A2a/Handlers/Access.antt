-- ===== src/A2a/Handlers/Access.antt =====
-- Who gets past the listener.
use Prim.Native.String
use openlinker_agent_node.Base.{
  ℕ, String, ◌≡◌, ◌≢◌, inl, inr, Bool, true, false, List, Option, eq_iff, arith, trim_space,
  Bool-cases,
}
use openlinker_agent_node.A2a.Response.{Reply, http_error, rpc_error, card}
use openlinker_agent_node.A2a.Handlers.{
  HttpRequest, Body, absent, bytes, RpcRequest, Answer, replied, proxied, authorized, call_root,
  with_body, handle_proxy, handle_agent_card, handle_extended_card, handle,
}

-- The header holds the configured token.
abbrev pub HasToken : String → HttpRequest → Type 0
HasToken token r = trim_space r.authorization ≡ String.◌++◌ "Bearer " (trim_space token)

-- The public card, or an error: nothing that needs the token.
abbrev pub IsHarmless : Answer → Type 0
IsHarmless (replied (http_error s c m)) = Unit
IsHarmless (replied (rpc_error i c m)) = Unit
IsHarmless (replied (card false)) = Unit
IsHarmless _ = ⊥

authorized-HasToken :
    (token : String) (r : HttpRequest)
    → trim_space token ≢ ""
    → authorized token r ≡ true
    → HasToken token r
unfolding authorized
authorized-HasToken token r set h = ground (
  arith,
  eq_iff (trim_space token) "",
  eq_iff (trim_space r.authorization) (String.◌++◌ "Bearer " (trim_space token)),
)

module _ (decode : List ℕ → Option RpcRequest) (token : String) (available : Bool)
    (r : HttpRequest) where
  unauthorized-IsHarmless :
      authorized token r ≡ false → IsHarmless (handle decode token available r)
  unfolding handle handle_agent_card handle_extended_card handle_proxy
  unauthorized-IsHarmless h = ground arith

-- With a token configured, a request that does not present exactly that token gets an error or
-- the public Agent Card: never the extended card, and never the proxy to Core.
pub without_token-IsHarmless :
    (decode : List ℕ → Option RpcRequest) (token : String) (available : Bool) (r : HttpRequest)
    → trim_space token ≢ ""
    → ¬ (HasToken token r)
    → IsHarmless (handle decode token available r)
without_token-IsHarmless decode token available r set other =
    elim (Bool-cases (authorized token r)) [
      | inl e ↦ absurd (other (authorized-HasToken token r set e))
      | inr e ↦ unauthorized-IsHarmless decode token available r e
    ]

-- A request whose body was read within the limit, if it has one.
abbrev pub IsReadable : Body → Type 0
IsReadable absent = Unit
IsReadable (bytes b) = Unit
IsReadable _ = ⊥

-- A request reaches Core only if the listener has a proxy, the body was read within the limit,
-- the path is none of the card paths, a call of the root is a POST, and the request is
-- authorized.
pub proxied_request :
    (decode : List ℕ → Option RpcRequest) (token : String) (available : Bool) (r : HttpRequest)
    {reply : Reply}
    → handle decode token available r ≡ proxied reply
    → (available ≡ true)
      × IsReadable r.body
      × (r.path ≢ "/.well-known/agent-card.json")
      × (r.path ≢ "/agent-card.json")
      × (r.path ≢ "/extendedAgentCard")
      × (r.path ≡ "/" → r.method ≡ "POST")
      × (authorized token r ≡ true)
unfolding handle handle_agent_card handle_extended_card handle_proxy with_body call_root
proxied_request decode token available r h = ground (
  arith,
  eq_iff r.path "/.well-known/agent-card.json",
  eq_iff r.path "/agent-card.json",
  eq_iff r.path "/extendedAgentCard",
  eq_iff r.path "/",
  eq_iff r.method "POST",
)
