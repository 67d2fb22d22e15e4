-- ===== src/Node/Handling.antt =====
-- One assignment: runtimeAdapterHandler.Handle of internal/agentnode/node.go, and
-- trustedConversationContext of util.go.
use Prim.Native.String.{String}
use openlinker_agent_node.Base.{
  ◌≡◌, ◌≢◌, refl, ap, Bool, not, ◌||◌, List, [], ◌∷◌, ◌++◌, Option, none, some, if◌then◌else◌,
  Bool-cases, inl, inr, str_eq, eq_iff, any, arith, trim_space,
}
use openlinker_agent_node.Base.Assoc.{lookup}
use openlinker_agent_node.Sessions.{Conversation}
use openlinker_agent_node.Helper.{HelperSession, Sink}
use openlinker_agent_node.Helper.Sessions.{Action, IsOpen}
use openlinker_agent_node.Node.{Values, Output, AgentError, AdapterResult, Raw}
use openlinker_agent_node.Node.Results.{
  without_keys, normalize_adapter_result, normalized_status, AdapterError, normalize_agent_error,
}

-- what the handler reads of the SDK's RuntimeContext
pub record Assignment (V : Type 0) : Type 0 where
  pub run_id : String
  pub agent_id : String
  pub metadata : List (String × V)
  pub reads_delegated : Bool  -- CanReadDelegatedRuns

-- the RunContext of the adapter, without the deadlines, authority and input that it copies
pub record NodeRun (V M : Type 0) : Type 0 where
  pub run_id : String
  pub agent_id : String
  pub metadata : List (String × V)
  pub mcp_snapshot : Option V
  pub package_snapshot : Option V
  pub a2a : Option (List (String × V))
  pub conversation : Option (Conversation M)
  pub reads_delegated : Bool
  pub helper_token : Option String

-- how a call of the adapter ends
pub data Ending (V : Type 0) : Type 0 where
  returns : Raw V → Ending V
  fails : AdapterError → Ending V
  panics : Ending V

abbrev mapped : {V : Type 0} → Values V → Option V → Option (List (String × V))
mapped views none = none
mapped views (some v) = views.json_map v

abbrev pub reserved_keys : List String
reserved_keys =
    "a2a" ∷ "conversation" ∷ "_openlinker_skill_packages" ∷ "_openlinker_mcp_bindings"
    ∷ "_openlinker_mcp_binding" ∷ []

-- the test of trustedConversationContext, of what JSON has decoded
unfoldable pub trusted_conversation :
    {M : Type 0} → Option (Conversation M) → Option (Conversation M)
trusted_conversation none = none
trusted_conversation (some c) =
    if not (str_eq c.source "core")
      || str_eq (trim_space c.session_key) ""
      || str_eq (trim_space c.current_run_id) ""
    then none
    else some c

-- RuntimeResult
unfoldable pub failed_result : {V : Type 0} → AgentError → AdapterResult V
failed_result e = record { status = "failed"; output = Output.nothing; events = []; error = some e }

module _ {V M : Type 0} (views : Values V)
    (conversation_of : Option V → Option (Conversation M)) where
  -- the context that the adapter is given
  unfoldable pub run_context : Option String → Assignment V → NodeRun V M
  unfolding trusted_conversation
  run_context token a = record {
    run_id = a.run_id;
    agent_id = a.agent_id;
    metadata = without_keys reserved_keys a.metadata;
    mcp_snapshot = lookup "_openlinker_mcp_bindings" a.metadata;
    package_snapshot = lookup "_openlinker_skill_packages" a.metadata;
    a2a = mapped views (lookup "a2a" a.metadata);
    conversation = trusted_conversation (conversation_of (lookup "conversation" a.metadata));
    reads_delegated = a.reads_delegated;
    helper_token = token;
  }

  unfoldable pub conclude_run : Ending V → AdapterResult V
  unfolding failed_result
  conclude_run (Ending.returns raw) = normalize_adapter_result views raw
  conclude_run (Ending.fails e) = failed_result (normalize_agent_error e)
  conclude_run Ending.panics =
      failed_result (record { code = "ADAPTER_PANIC"; message = "adapter panicked" })

  -- the helper's session of a run, if there is a helper
  unfoldable pub open_helper : Option String → String → List Action → List Action
  open_helper none run_id history = history
  open_helper (some token) run_id history =
      Action.creates token (record { run_id = run_id; sink = Sink.checked }) ∷ history

  -- the deferred Close
  unfoldable pub close_helper : Option String → List Action → List Action
  close_helper none history = history
  close_helper (some token) history = Action.closes token ∷ history

  -- Handle: its result, and the history of the helper after it, where `during` happens to the
  -- helper while the adapter runs
  unfoldable pub handle_assignment :
      Option String
      → (NodeRun V M → Ending V)
      → Assignment V
      → List Action
      → List Action
      → AdapterResult V × List Action
  unfolding run_context conclude_run open_helper close_helper
  handle_assignment token adapter a during past =
      let opened = open_helper token a.run_id past in
      let ending = adapter (run_context token a) in
      (conclude_run ending, close_helper token (during ++ opened))

lookup-without_keys :
    {V : Type 0} (keys : List String) (key : String) (m : List (String × V))
    → lookup key (without_keys keys m)
      ≡ (if any (λ k. str_eq k key) keys then none else lookup key m)
unfolding lookup
lookup-without_keys keys key [] = ground arith
lookup-without_keys keys key ((name, v) ∷ rest) =
    let later = lookup-without_keys keys key rest in
    elim (Bool-cases (str_eq name key)) [
      | inl same ↦
          let e = (eq_iff name key).0 same in
          let tests = ap (λ s. any (λ k. str_eq k s) keys) e in ground (arith, same, tests, later)
      | inr apart ↦ ground (arith, apart, later)
    ]

closed-IsOpen :
    (token : String) (session : HelperSession) (history : List Action)
    → ¬ IsOpen token session (Action.closes token ∷ history)
closed-IsOpen token session history (IsOpen.others_close other apart h) = apart refl

conclude_run-status :
    {V M : Type 0} (views : Values V) (conversation_of : Option V → Option (Conversation M))
    (e : Ending V)
    → (conclude_run views conversation_of e).status ≢ ""
unfolding conclude_run failed_result
conclude_run-status views conversation_of (Ending.returns raw) h = normalized_status views raw h
conclude_run-status views conversation_of (Ending.fails e) h = cc
conclude_run-status views conversation_of Ending.panics h = cc

-- A conversation that Core made, of a session and a run.
abbrev pub IsCores : {M : Type 0} → Option (Conversation M) → Type 0
IsCores none = Unit {0}
IsCores (some c) =
    (c.source ≡ "core") × (trim_space c.session_key ≢ "") × (trim_space c.current_run_id ≢ "")

-- No session is open under the token of a run.
abbrev pub IsClosedFor : Option String → List Action → Type 0
IsClosedFor none history = Unit {0}
IsClosedFor (some token) history = (session : HelperSession) → ¬ IsOpen token session history

trusted_conversation-IsCores :
    {M : Type 0} (o : Option (Conversation M)) → IsCores (trusted_conversation o)
unfolding trusted_conversation
trusted_conversation-IsCores {M} none = tt
trusted_conversation-IsCores {M} (some b) =
    let bad =
      not (str_eq b.source "core")
      || str_eq (trim_space b.session_key) ""
      || str_eq (trim_space b.current_run_id) "" in
    elim (Bool-cases bad) [
      | inl distrusted ↦ rw distrusted tt
      | inr trusted ↦
          let source = eq_iff b.source "core" in
          let key = eq_iff (trim_space b.session_key) "" in
          let run = eq_iff (trim_space b.current_run_id) "" in
          rw trusted (
            source.0 (ground (arith, trusted)),
            (λ e. ground (arith, trusted, key, e)),
            (λ e. ground (arith, trusted, run, e)),
          )
    ]

close_helper-IsClosedFor :
    {V M : Type 0} (views : Values V) (conversation_of : Option V → Option (Conversation M))
    (token : Option String) (history : List Action)
    → IsClosedFor token (close_helper views conversation_of token history)
unfolding close_helper
close_helper-IsClosedFor views conversation_of none history = tt
close_helper-IsClosedFor views conversation_of (some token) history =
    λ session. closed-IsOpen token session history

-- What an adapter is given of an assignment.
pub record IsGiven {V M : Type 0} (a : Assignment V) (token : Option String) (r : NodeRun V M)
    : Type 0 where
  pub own : (r.run_id ≡ a.run_id) × (r.agent_id ≡ a.agent_id) × (r.helper_token ≡ token)
  pub unreserved :
      (key : String)
      → lookup key r.metadata
        ≡ (if any (λ k. str_eq k key) reserved_keys then none else lookup key a.metadata)
  pub trusted : IsCores r.conversation

run_context-IsGiven :
    {V M : Type 0} (views : Values V) (conversation_of : Option V → Option (Conversation M))
    (token : Option String) (a : Assignment V)
    → IsGiven a token (run_context views conversation_of token a)
unfolding run_context
run_context-IsGiven views conversation_of token a = record {
  own = (refl, refl, refl);
  unreserved = λ key. lookup-without_keys reserved_keys key a.metadata;
  trusted = trusted_conversation-IsCores (conversation_of (lookup "conversation" a.metadata));
}

-- Every adapter is run on one context: its metadata are the assignment's without exactly the
-- reserved keys, and it has a conversation only if Core made it and it names a session and a run.
-- However the adapter ends, with a result, an error or a panic, the result of the assignment is
-- made of that ending and has a status; and afterwards the run's helper token opens no session,
-- whatever happened to the helper meanwhile.
pub assignment_contained :
    {V M : Type 0} (views : Values V) (conversation_of : Option V → Option (Conversation M))
    (token : Option String) (a : Assignment V) (during past : List Action)
    → (r : NodeRun V M) × IsGiven a token r
      × ((adapter : NodeRun V M → Ending V)
          → let o = handle_assignment views conversation_of token adapter a during past in
            (o.0 ≡ conclude_run views conversation_of (adapter r))
            × (o.0.status ≢ "")
            × IsClosedFor token o.1)
unfolding handle_assignment
assignment_contained {V} {M} views conversation_of token a during past =
    let r = run_context views conversation_of token a in
    (
      r,
      run_context-IsGiven views conversation_of token a,
      (λ adapter. (
        refl,
        conclude_run-status views conversation_of (adapter r),
        close_helper-IsClosedFor views conversation_of token
            (during ++ open_helper views conversation_of token a.run_id past),
      )),
    )
