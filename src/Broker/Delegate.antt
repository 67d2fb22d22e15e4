-- ===== src/Broker/Delegate.antt =====
-- `delegate_agent` in callWithBinding of pkg/adapters/agentdelegation/broker.go.
pub mod Retries
pub mod Invariant
pub mod Refusals
use Prim.Native.String.{len, count}
use Prim.Native.String
use openlinker_agent_node.Base.{
  ℕ, String, Bool, true, false, not, ◌&&◌, ◌||◌, List, [], ◌∷◌, Option, none, some, leb, ltb, ◌==◌,
  if◌then◌else◌, str_eq, trim_space, length, is_some,
}
use openlinker_agent_node.Base.Assoc.{lookup, put, delete}
use openlinker_agent_node.Base.Result.{Result, ok, err}
use openlinker_agent_node.Patterns.{is_uuid}
use openlinker_agent_node.Broker.{
  Value, Summary, Failure, safe, core, BoundTool, Request, Delegation, CallOptions, Broker, Codec,
  Outside,
}
use openlinker_agent_node.Broker.Validation.{has}
use openlinker_agent_node.Broker.Ledger.{settle}

-- definiteRejection; `none` is its "", for an error that proves nothing
unfoldable pub definite_rejection : Failure → Option String
definite_rejection (core status code) =
    if status == 403 && (str_eq code "PERMISSION_DENIED" || str_eq code "FORBIDDEN")
    then some
        "Delegation rejected: permission denied. No child was created; you may continue or choose another allowed Agent."
    else if status == 401 && str_eq code "UNAUTHORIZED"
    then some "Delegation rejected: authorization is invalid. No child was created."
    else if (status == 422 && str_eq code "VALIDATION_FAILED")
        || (status == 400 && str_eq code "BAD_REQUEST")
    then some
        "Delegation rejected: invalid request. No child was created; correct the request before retrying."
    else if status == 429 && str_eq code "RATE_LIMITED"
    then some "Delegation rejected: rate limit reached. No child was created; retry later."
    else none
definite_rejection _ = none

abbrev bound_to : Option BoundTool → String → Bool
bound_to none target = false
bound_to (some tool) target = str_eq tool.target_id target

-- the guard of a request
unfoldable pub accepted : Option BoundTool → Delegation → Broker → Bool
accepted bound q b =
    (bound_to bound q.target || has q.target b.targets)
    && is_some q.input
    && not (len q.key == 0)
    && leb (len q.key) 128
    && str_eq (trim_space q.key) q.key
    && leb (count q.reason) 500

abbrev pub no_summary : Summary
no_summary = record { run_id = ""; rest = "" }

-- delegationRequest{Digest: digest}
abbrev pub pending : String → Request
pending digest = record { digest = digest; run_id = ""; terminal = false; summary = no_summary }

-- delegationRequest{Digest: digest, RunID: summary.RunID, Summary: summary}
abbrev pub created : String → Summary → Request
created digest s = record { digest = digest; run_id = s.run_id; terminal = false; summary = s }

abbrev pub retry_first : Failure
retry_first = safe "retry the unresolved delegation request first"

abbrev pub wait_first : String → Failure
wait_first _ = safe "wait for the active delegated Run first"

abbrev binding : Option BoundTool → Option (String × String)
binding none = none
binding (some tool) = some (tool.binding_id, tool.digest)

module _ (c : Codec) where
  -- The key under which Core recognises a retry.
  abbrev pub call_options : Option BoundTool → Delegation → Broker → CallOptions
  call_options bound q b = record {
    reason = q.reason;
    idempotency_key =
        String.◌++◌ "native-delegation-" (c.sha256 (String.◌++◌ b.run_id (String.◌++◌ "\0" q.key)));
    metadata = binding bound;
  }

  -- a decoded summary, whose Run must have a UUID
  unfoldable pub record_summary :
      Delegation → String → Option Summary → Broker → Result Failure Summary × Broker
  record_summary q digest none b = (err (safe "invalid delegated Run response"), b)
  record_summary q digest (some s) b =
      if is_uuid s.run_id
      then (ok s, record b { requests = put q.key (created digest s) b.requests })
      else (err (safe "invalid delegated Run response"), b)

  -- what follows the return of CallAgent; `exists` says that the key was there before
  unfoldable pub conclude :
      (exists : Bool)
      → Delegation
      → String
      → Result Failure Value
      → Broker
      → Result Failure Summary × Broker
  conclude exists q digest (err e) b = elim (definite_rejection e) [
    | none ↦ (err e, b)
    | some reason ↦
        if exists
        then (err e, b)
        else (err (safe reason), record b { requests = delete q.key b.requests })
  ]
  conclude exists q digest (ok v) b = elim (c.encode v) [
    | none ↦ (err (Failure.other "json: unsupported value"), b)
    | some encoded ↦ record_summary q digest (c.summary encoded) b
  ]

  module _ {W : Type 0} (out : Outside W) where
    unfoldable pub create :
        (exists : Bool)
        → Option BoundTool
        → Delegation
        → String
        → Broker
        → W
        → Result Failure Summary × Broker × W
    create exists bound q digest b w =
        let (reply, w') = out.call_agent q.target q.input (call_options bound q b) w in
        let (r, b') = conclude exists q digest reply b in (r, b', w')

    -- a key that is new: settle the others, register it, create the Run
    unfoldable pub open_request :
        Option BoundTool → Delegation → String → Broker → W → Result Failure Summary × Broker × W
    open_request bound q digest b w =
        let (settled, requests, w') = settle out retry_first wait_first b.requests w in
        elim settled [
          | err e ↦ (err e, record b { requests = requests }, w')
          | ok _ ↦
              create false bound q digest
                (record b { requests = put q.key (pending digest) requests }) w'
        ]

    -- a key that is there
    unfoldable pub repeat_request :
        Option BoundTool
        → Delegation
        → String
        → Request
        → Broker
        → W
        → Result Failure Summary × Broker × W
    repeat_request bound q digest previous b w =
        if not (str_eq previous.digest digest)
        then (err (safe "request_key conflicts with a previous request"), b, w)
        else if not (str_eq previous.run_id "")
        then (ok previous.summary, b, w)
        else create true bound q digest b w

    unfoldable pub delegate :
        Option BoundTool → Delegation → Broker → W → Result Failure Summary × Broker × W
    delegate bound q b w =
        let digest = c.sha256 (c.canonical q) in
        if not (accepted bound q b)
        then (err (safe "invalid delegation request"), b, w)
        else elim (lookup q.key b.requests) [
          | some previous ↦ repeat_request bound q digest previous b w
          | none ↦
              if leb 64 (length b.requests)
              then (err (safe "delegation request limit reached"), b, w)
              else open_request bound q digest b w
        ]
