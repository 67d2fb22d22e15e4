-- ===== src/Node/Results.antt =====
-- The results of adapters: internal/agentnode/adapter_result.go.
use Prim.Native.String.{String, [] as nil, ◌∷◌ as cons}
use openlinker_agent_node.Base.{
  Bool, not, ℕ, zero, suc, ◌≡◌, ◌≢◌, ◌||◌, List, [], ◌∷◌, Option, none, some, if◌then◌else◌,
  Bool-cases, inl, inr, str_eq, eq_iff, is_some, arith, any, trim_space,
}
use openlinker_agent_node.Base.Assoc.{lookup}
use openlinker_agent_node.Node.{Values, Output, RunEvent, AgentError, AdapterResult, Raw}

abbrev success_if_empty : String → String
success_if_empty status = if str_eq status "" then "success" else status

abbrev pub without_keys : {V : Type 0} → List String → List (String × V) → List (String × V)
without_keys keys [] = []
without_keys keys ((key, v) ∷ rest) =
    let others = without_keys keys rest in
    if any (λ k. str_eq k key) keys then others else (key, v) ∷ others

abbrev filled : {V : Type 0} → Output V → Option AgentError → Output V
filled Output.nothing none = Output.fields []
filled Output.nothing (some e) = Output.nothing
filled (Output.value v) e = Output.value v
filled (Output.fields kvs) e = Output.fields kvs

-- fillAdapterDefaults
unfoldable pub fill_adapter_defaults : {V : Type 0} → AdapterResult V → AdapterResult V
fill_adapter_defaults r = record r {
  status = success_if_empty r.status;
  output = filled r.output r.error;
}

module _ {V : Type 0} (views : Values V) where
  abbrev event_of : List (String × V) → RunEvent V
  event_of item = record {
    event_type = views.sprint (lookup "event_type" item);
    payload = lookup "payload" item;
  }

  abbrev events_of : List V → List (RunEvent V)
  events_of [] = []
  events_of (v ∷ rest) =
      let others = events_of rest in
      elim (views.as_object v) [ none ↦ others | some item ↦ event_of item ∷ others ]

  -- eventsFromAny
  unfoldable pub events_from_any : Option V → List (RunEvent V)
  events_from_any none = []
  events_from_any (some v) = elim (views.as_events v) [
    | some events ↦ events
    | none ↦ elim (views.as_array v) [ none ↦ [] | some items ↦ events_of items ]
  ]

  abbrev rest_of : List (String × V) → Output V
  rest_of object =
      Output.fields (without_keys ("status" ∷ "output" ∷ "events" ∷ "error" ∷ []) object)

  abbrev output_of : Option V → List (String × V) → Output V
  output_of (some v) object = if views.is_nil v then rest_of object else Output.value v
  output_of none object = rest_of object

  -- adapterResultFromMap
  unfoldable pub adapter_result_from_map : List (String × V) → AdapterResult V
  unfolding events_from_any
  adapter_result_from_map object =
      let status = views.sprint (lookup "status" object) in
      record {
        status = if str_eq status "" || str_eq status "<nil>" then "success" else status;
        output = output_of (lookup "output" object) object;
        events = events_from_any (lookup "events" object);
        error = none;
      }

  abbrev plain_success : Output V → AdapterResult V
  plain_success output = record { status = "success"; output = output; events = []; error = none }

  -- normalizeAdapterResult
  unfoldable pub normalize_adapter_result : Raw V → AdapterResult V
  unfolding fill_adapter_defaults adapter_result_from_map
  normalize_adapter_result (Raw.result r) = fill_adapter_defaults r
  normalize_adapter_result Raw.nil_result = plain_success (Output.fields [])
  normalize_adapter_result (Raw.object object) =
      if is_some (lookup "status" object)
        || is_some (lookup "output" object)
        || is_some (lookup "events" object)
      then adapter_result_from_map object
      else plain_success (Output.fields object)
  normalize_adapter_result (Raw.other v) = plain_success v

  -- A result always has a status.
  pub normalized_status : (raw : Raw V) → (normalize_adapter_result raw).status ≢ ""
  unfolding normalize_adapter_result adapter_result_from_map fill_adapter_defaults
  normalized_status (Raw.result r) h = elim (Bool-cases (str_eq r.status "")) [
    | inl empty ↦ cc (rw empty at h)
    | inr given ↦ ground (arith, given, eq_iff r.status "", h)
  ]
  normalized_status Raw.nil_result h = cc
  normalized_status (Raw.other v) h = cc
  normalized_status (Raw.object object) h =
      let status = views.sprint (lookup "status" object) in
      let typed =
        is_some (lookup "status" object)
        || is_some (lookup "output" object)
        || is_some (lookup "events" object) in
      elim (Bool-cases typed) [
        | inr bare ↦ cc (rw bare at h)
        | inl full ↦ elim (Bool-cases (str_eq status "" || str_eq status "<nil>")) [
          | inl empty ↦ cc (rw (full, empty) at h)
          | inr given ↦
              let k : status ≡ "" = rw (full, given) at h in
              ground (arith, given, eq_iff status "", k)
        ]
      ]

abbrev take_text : ℕ → String → String
take_text zero s = ""
take_text (suc n) nil = ""
take_text (suc n) (cons c s) = cons c (take_text n s)

-- boundedRuntimeText; `valid` is whether the bytes of the text are UTF-8
unfoldable pub bounded_runtime_text : (valid : Bool) → String → ℕ → String → String
bounded_runtime_text valid s maximum fallback =
    take_text maximum (if str_eq (trim_space s) "" || not valid then fallback else trim_space s)

-- an error of an adapter: the cancellation of its context, or another one by its text
pub data AdapterError : Type 0 where
  cancelled : AdapterError
  failure : (valid : Bool) → String → AdapterError

-- normalizeAgentError
unfoldable pub normalize_agent_error : AdapterError → AgentError
unfolding bounded_runtime_text
normalize_agent_error cancelled = record {
  code = "ADAPTER_CANCELED";
  message = "adapter execution was canceled";
}
normalize_agent_error (failure valid text) = record {
  code = "AGENT_NODE_ERROR";
  message = bounded_runtime_text valid text 500 "adapter failed";
}
