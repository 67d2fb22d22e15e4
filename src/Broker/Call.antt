-- ===== src/Broker/Call.antt =====
-- callWithBinding of pkg/adapters/agentdelegation/broker.go: one call of a tool.
pub mod Reachable
use openlinker_agent_node.Base.{
  String, Bool, true, false, Option, none, some, if◌then◌else◌, str_eq,
}
use openlinker_agent_node.Base.Result.{Result, ok, err}
use openlinker_agent_node.Broker.{
  Value, Summary, DelegatedRun, Failure, safe, context_canceled, BoundTool, Delegation, Reading,
  Outcome, summary, run, Broker, Codec, Outside,
}
use openlinker_agent_node.Broker.Delegate.{delegate}
use openlinker_agent_node.Broker.Reads.{read_delegated}

abbrev as_summary : Result Failure Summary → Result Failure Outcome
as_summary (ok s) = ok (summary s)
as_summary (err e) = err e

abbrev as_run : Result Failure DelegatedRun → Result Failure Outcome
as_run (ok r) = ok (run r)
as_run (err e) = err e

abbrev pub bad_arguments : Failure
bad_arguments = safe "invalid delegation arguments"

module _ (c : Codec) {W : Type 0} (out : Outside W) where
  unfoldable pub call_delegate :
      Option BoundTool → Option Delegation → Broker → W → Result Failure Outcome × Broker × W
  call_delegate bound none b w = (err bad_arguments, b, w)
  call_delegate bound (some q) b w =
      let (r, b', w') = delegate c out bound q b w in (as_summary r, b', w')

  unfoldable pub call_read :
      (waiting : Bool) → Option Reading → Broker → W → Option (Result Failure Outcome × Broker × W)
  call_read waiting none b w = some (err bad_arguments, b, w)
  call_read waiting (some q) b w = elim (read_delegated out waiting q b w) [
    | none ↦ none
    | some x ↦ let (r, b', w') = x in some (as_run r, b', w')
  ]

  unfoldable pub call_with_binding :
      String → Value → Option BoundTool → Broker → W → Option (Result Failure Outcome × Broker × W)
  call_with_binding name raw bound b w =
      if out.canceled w
      then some (err context_canceled, b, w)
      else if str_eq name "delegate_agent"
      then some (call_delegate bound (c.delegation raw) b w)
      else if str_eq name "get_delegated_run"
      then call_read false (c.reading raw) b w
      else if str_eq name "wait_delegated_run"
      then call_read true (c.reading raw) b w
      else some (err (safe "unknown delegation tool"), b, w)
