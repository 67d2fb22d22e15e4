-- ===== src/Broker/Tools.antt =====
-- callTool of pkg/adapters/agentdelegation/bound_tools.go, and the dispatch of the MCP methods in
-- broker.go, without the text of their replies.
pub mod Reachable
pub mod Binding
use Prim.Native.String.{len}
use Prim.Native.String
use openlinker_agent_node.Base.{
  ℕ, String, Bool, true, false, not, ◌&&◌, ◌||◌, List, [], ◌∷◌, Option, none, some, is_some, leb,
  ltb, ◌==◌, if◌then◌else◌, str_eq, length,
}
use openlinker_agent_node.Base.Int.{pos}
use openlinker_agent_node.Base.Result.{Result, ok, err}
use openlinker_agent_node.Broker.{
  Value, Summary, DelegatedRun, RunStatus, running, success, Failure, safe, BoundTool, BoundCall,
  Delegation, Reading, Outcome, summary, run, Broker, Codec, Outside, context_canceled,
}
use openlinker_agent_node.Broker.Call.{call_with_binding, call_delegate, call_read, bad_arguments}

-- What a tool gives the model: a summary or a Run as it is, the output of a finished Run, or the
-- advice to call again.
pub data ToolReply : Type 0 where
  outcome : Outcome → ToolReply
  output : Value → ToolReply
  still_running : ToolReply

abbrev pub find_tool : String → List BoundTool → Option BoundTool
find_tool name [] = none
find_tool name (t ∷ ts) = if str_eq t.name name then some t else find_tool name ts

abbrev pub failed_tool : Failure
failed_tool =
    safe
      "MCP tool execution failed. Its access may have changed; ask the Agent owner to review the tool configuration."

module _ (c : Codec) {W : Type 0} (out : Outside W) where
  -- The request that a bound tool makes: the model controls neither target nor binding.
  abbrev pub bound_request : BoundTool → BoundCall → Delegation
  bound_request tool q = record {
    target = tool.target_id;
    input = q.arguments;
    reason = "";
    key = String.◌++◌ "mcp-" (c.sha256 (String.◌++◌ tool.binding_id (String.◌++◌ "\0" q.key)));
  }

  -- b.onTools, once; an error leaves the tools unready
  unfoldable pub discover : Broker → W → Option Failure × Broker × W
  discover b w = if b.tools_ready then (none, b, w) else (elim out.on_tools [
    | none ↦ (none, record b { tools_ready = true }, w)
    | some f ↦
        let (e, w') = f w in
        elim e [ some x ↦ (some x, b, w') | none ↦ (none, record b { tools_ready = true }, w') ]
  ])

  -- what the state of the child Run means for the tool
  unfoldable pub report :
      BoundTool → DelegatedRun → Broker → W → Result Failure ToolReply × Broker × W
  report tool r b w = elim r.status [
    | success ↦ elim out.tool_used [
      | none ↦ (ok (output r.output), b, w)
      | some f ↦
          let (e, w') = f tool w in
          elim e [ some x ↦ (err x, b, w') | none ↦ (ok (output r.output), b, w') ]
    ]
    | running ↦ (ok still_running, b, w)
    | _ ↦ (err failed_tool, b, w)
  ]

  -- the type assertions on what a call returned
  abbrev pub as_state : Result Failure Outcome → Result Failure DelegatedRun
  as_state (err e) = err e
  as_state (ok (run r)) = ok r
  as_state (ok (summary s)) = err (safe "missing MCP execution result")

  abbrev pub as_created : Result Failure Outcome → Result Failure Summary
  as_created (err e) = err e
  as_created (ok (summary s)) = ok s
  as_created (ok (run r)) = err (safe "invalid MCP execution response")

  -- callWithBinding for arguments that are known already
  unfoldable pub checked :
      (Broker → W → Option (Result Failure Outcome × Broker × W))
      → Broker
      → W
      → Option (Result Failure Outcome × Broker × W)
  checked f b w = if out.canceled w then some (err context_canceled, b, w) else f b w

  unfoldable pub reported :
      BoundTool
      → Option (Result Failure Outcome × Broker × W)
      → Option (Result Failure ToolReply × Broker × W)
  reported tool none = none
  reported tool (some (r, b, w)) = elim (as_state r) [
    | err e ↦ some (err e, b, w)
    | ok state ↦ some (report tool state b w)
  ]

  abbrev pub waited_for : String → Reading
  waited_for id = record { child_run_id = id; wait_ms = pos 30000 }

  -- the wait that follows a creation
  unfoldable pub followed :
      BoundTool
      → Option (Result Failure Outcome × Broker × W)
      → Option (Result Failure ToolReply × Broker × W)
  followed tool none = none
  followed tool (some (r, b, w)) = elim (as_created r) [
    | err e ↦ some (err e, b, w)
    | ok s ↦ reported tool (checked (call_read c out true (some (waited_for s.run_id))) b w)
  ]

  -- create, then wait
  unfoldable pub run_tool :
      BoundTool → BoundCall → Broker → W → Option (Result Failure ToolReply × Broker × W)
  run_tool tool q b w = followed tool (
      checked (λ b' w'. some (call_delegate c out (some tool) (some (bound_request tool q)) b' w'))
        b w)

  unfoldable pub call_bound :
      BoundTool → Value → Broker → W → Option (Result Failure ToolReply × Broker × W)
  call_bound tool raw b w =
      let (failure, b', w') = discover b w in
      elim failure [
        | some e ↦ some (err e, b', w')
        | none ↦ elim (c.bound_call raw) [
          | none ↦ some (err bad_arguments, b', w')
          | some q ↦
              if not (is_some q.arguments) || len q.key == 0 || ltb 128 (len q.key)
              then some (err (safe "arguments and request_key are required"), b', w')
              else run_tool tool q b' w'
        ]
      ]

  abbrev pub as_reply :
      Option (Result Failure Outcome × Broker × W) → Option (Result Failure ToolReply × Broker × W)
  as_reply none = none
  as_reply (some (ok x, b, w)) = some (ok (outcome x), b, w)
  as_reply (some (err e, b, w)) = some (err e, b, w)

  unfoldable pub call_tool :
      String → Value → Broker → W → Option (Result Failure ToolReply × Broker × W)
  call_tool name raw b w = elim (find_tool name b.bound_tools) [
    | some tool ↦ call_bound tool raw b w
    | none ↦
        if length b.targets == 0
        then some (err (safe "unknown MCP tool"), b, w)
        else as_reply (call_with_binding c out name raw none b w)
  ]
