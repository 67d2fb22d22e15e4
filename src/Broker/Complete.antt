-- ===== src/Broker/Complete.antt =====
-- EnsureComplete of pkg/adapters/agentdelegation/broker.go.
use Prim.Native.String
use openlinker_agent_node.Base.{
  String, ◌≡◌, true, ◌&&◌, not, [], if◌then◌else◌, ltb, length, arith, ◌⊎◌,
}
use openlinker_agent_node.Base.Result.{Result, ok, err}
use openlinker_agent_node.Broker.{Failure, safe, tools_unavailable, Broker, Outside}
use openlinker_agent_node.Broker.Ledger.{settle}
use openlinker_agent_node.Broker.Ledger.Count.{open_count, settle-ok}
use openlinker_agent_node.Broker.Ledger.Ended.{AllEnded, settle-AllEnded}

abbrev pub unresolved : Failure
unresolved = safe "delegation creation is unresolved; retry its request_key before finishing"

abbrev pub unfinished : String → Failure
unfinished id = safe (String.◌++◌ "delegated Run is unfinished: " id)

module _ {W : Type 0} (out : Outside W) where
  unfoldable pub ensure_complete : Broker → W → Result Failure (Unit {0}) × Broker × W
  ensure_complete b w =
      if ltb 0 (length b.bound_tools) && not b.tools_ready
      then (err tools_unavailable, b, w)
      else (let (answer, requests, w') = settle out unresolved unfinished b.requests w in
          (answer, record b { requests = requests }, w'))

  -- A broker that reports completion has no open request; its bound tools, if there are any, were
  -- discovered; and each of its requests either was known to have ended or has a Run of which Core,
  -- asked during the check, says that it has succeeded, failed, been canceled or timed out.
  pub ensure_complete_sound :
      (b : Broker) (w : W)
      → (ensure_complete b w).0 ≡ ok tt
      → (open_count (ensure_complete b w).1.requests ≡ 0)
        × ((b.bound_tools ≡ []) ⊎ (b.tools_ready ≡ true))
        × AllEnded out b.requests w
  unfolding ensure_complete
  ensure_complete_sound b w h =
      let (settled, ended) : ((settle out unresolved unfinished b.requests w).0 ≡ ok tt)
          × ((b.bound_tools ≡ []) ⊎ (b.tools_ready ≡ true)) =
        (ground arith, ground arith) in
      (
        ground (arith, settle-ok out unresolved unfinished b.requests w),
        ended,
        settle-AllEnded out unresolved unfinished b.requests w settled,
      )
