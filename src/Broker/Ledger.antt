-- ===== src/Broker/Ledger.antt =====
-- The map of delegation requests in pkg/adapters/agentdelegation/broker.go, and the two loops
-- that read the Runs which are not known to be terminal.
pub mod Count
pub mod Ended
use openlinker_agent_node.Base.{
  ℕ, String, Bool, true, false, List, [], ◌∷◌, Option, none, some, if◌then◌else◌, str_eq,
}
use openlinker_agent_node.Base.Result.{Result, ok, err}
use openlinker_agent_node.Broker.{
  DelegatedRun, RunStatus, running, success, failed, canceled, timeout, Failure, Request, Outside,
}

abbrev pub status_terminal : RunStatus → Bool
status_terminal success = true
status_terminal failed = true
status_terminal canceled = true
status_terminal timeout = true
status_terminal _ = false

-- terminalRun
abbrev pub terminal_run : Option DelegatedRun → Bool
terminal_run none = false
terminal_run (some run) = status_terminal run.status

-- markTerminal
unfoldable pub mark_terminal : String → List (String × Request) → List (String × Request)
mark_terminal id [] = []
mark_terminal id ((k, r) ∷ rest) =
    (k, if str_eq r.run_id id then record r { terminal = true } else r) ∷ mark_terminal id rest

module _ {W : Type 0} (out : Outside W) (unresolved : Failure) (unfinished : String → Failure) where
  -- what the loop does with the answer to its read
  unfoldable pub settle_answer :
      Request → Result Failure (Option DelegatedRun) → Result Failure Request
  settle_answer r (err e) = err e
  settle_answer r (ok state) =
      if terminal_run state then ok (record r { terminal = true }) else err (unfinished r.run_id)

  -- one round of the loop over the requests
  unfoldable pub settle_one : Request → W → Result Failure Request × W
  unfolding settle_answer
  settle_one r w =
      if r.terminal
      then (ok r, w)
      else if str_eq r.run_id ""
      then (err unresolved, w)
      else (let (answer, w') = out.read_run r.run_id w in (settle_answer r answer, w'))

  -- The loop ends at the first request that is not settled; what it has marked stays marked.
  unfoldable pub settle :
      List (String × Request) → W → Result Failure (Unit {0}) × List (String × Request) × W
  unfolding settle_one
  settle [] w = (ok tt, [], w)
  settle ((k, r) ∷ rest) w =
      let (answer, w') = settle_one r w in
      elim answer [
        | err e ↦ (err e, (k, r) ∷ rest, w')
        | ok r' ↦ let (all, rest', w'') = settle rest w' in (all, (k, r') ∷ rest', w'')
      ]
