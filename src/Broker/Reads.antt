-- ===== src/Broker/Reads.antt =====
-- `get_delegated_run` and `wait_delegated_run` in callWithBinding of
-- pkg/adapters/agentdelegation/broker.go. Times are in nanoseconds.
pub mod Waiting
use Prim.Native.Nat.{min}
use openlinker_agent_node.Base.{
  ℕ, zero, suc, ◌+◌, ◌-◌, ◌*◌, String, Bool, true, false, not, ◌&&◌, ◌||◌, Option, none, some, leb,
  ltb, ◌==◌, if◌then◌else◌, str_eq,
}
use openlinker_agent_node.Base.Int.{ℤ, pos, negsuc}
use openlinker_agent_node.Base.Result.{Result, ok, err}
use openlinker_agent_node.Patterns.{is_uuid}
use openlinker_agent_node.Broker.{
  DelegatedRun, RunStatus, running, Failure, safe, context_canceled, deadline_exceeded, Reading,
  Broker, Outside,
}
use openlinker_agent_node.Broker.Ledger.{status_terminal, mark_terminal}

abbrev pub second : ℕ
second = 1_000_000_000

abbrev pub is_running : RunStatus → Bool
is_running running = true
is_running _ = false

abbrev is_deadline : Failure → Bool
is_deadline deadline_exceeded = true
is_deadline _ = false

-- A deadline after a first answer gives that answer, unless the broker was canceled.
abbrev pub read_failed : Option DelegatedRun → Failure → Bool → Result Failure DelegatedRun
read_failed none e canceled = err e
read_failed (some last) e canceled = if is_deadline e && not canceled then ok last else err e

abbrev pub marked : String → DelegatedRun → Broker → Broker
marked id run b =
    if status_terminal run.status then record b { requests = mark_terminal id b.requests } else b

module _ {W : Type 0} (out : Outside W) (id : String) (deadline : ℕ) where
  -- The loop of a read, on fuel: `none` where the fuel ran out.
  unfoldable pub read_loop :
      ℕ → Option DelegatedRun → Broker → W → Option (Result Failure DelegatedRun × Broker × W)
  read_loop zero last b w = none
  read_loop (suc fuel) last b w =
      let (answer, w1) = out.read_run id w in
      elim answer [
        | err e ↦ some (read_failed last e (out.canceled w1), b, w1)
        | ok state ↦ elim state [
          | none ↦ some (err (safe "missing delegated Run result"), b, w1)
          | some run ↦
              let b1 = marked id run b in
              let remaining = deadline - out.now w1 in
              let w2 = out.sleep (min second remaining) w1 in
              let next = read_loop fuel (some run) b1 w2 in
              if not (is_running run.status) || remaining == 0
              then some (ok run, b1, w1)
              else if out.canceled w2
              then some (err context_canceled, b1, w2)
              else next
        ]
      ]

-- A wait takes at most 30 seconds, and a round of the loop at least one unless it is the last.
abbrev pub rounds : ℕ
rounds = 31

-- the wait that a request asks for; `none` is a refused request
unfoldable pub wait_time : (waiting : Bool) → Reading → Option ℕ
wait_time waiting q = elim q.wait_ms [
  | negsuc n ↦ none
  | pos n ↦
      if not (is_uuid q.child_run_id) || ltb 30000 n || (not waiting && not (n == 0))
      then none
      else some (if waiting && n == 0 then 30 * second else n * 1_000_000)
]

module _ {W : Type 0} (out : Outside W) where
  unfoldable pub read_delegated :
      (waiting : Bool) → Reading → Broker → W → Option (Result Failure DelegatedRun × Broker × W)
  read_delegated waiting q b w = elim (wait_time waiting q) [
    | none ↦ some (err (safe "invalid delegated Run read"), b, w)
    | some duration ↦ read_loop out q.child_run_id (out.now w + duration) rounds none b w
  ]
