-- ===== src/Broker/Call/Reachable.antt =====
-- Every call of a tool in pkg/adapters/agentdelegation/broker.go keeps what delegate_agent, the
-- settling loop and markTerminal keep.
use openlinker_agent_node.Base.{
  List, ℕ, zero, suc, ◌-◌, ◌+◌, String, ◌≡◌, Bool, true, false, not, ◌||◌, Option, none, some,
  arith, Bool-cases, Option-cases, inl, inr, length, str_eq, subst, ltb, ◌&&◌, ◌==◌,
}
use Prim.Native.Nat.{min}
use openlinker_agent_node.Patterns.{is_uuid}
use openlinker_agent_node.Broker.{
  Failure, Request, Value, Delegation, Reading, DelegatedRun, BoundTool, Broker, Codec, Outside,
}
use openlinker_agent_node.Broker.Ledger.{status_terminal, mark_terminal, settle}
use openlinker_agent_node.Broker.Delegate.{delegate}
use openlinker_agent_node.Broker.Reads.{
  marked, read_loop, wait_time, read_delegated, rounds, is_running, second,
}
use openlinker_agent_node.Broker.Reads.Waiting.{reply_cases}
use openlinker_agent_node.Broker.Complete.{ensure_complete, unresolved, unfinished}
use openlinker_agent_node.Broker.Call.{call_delegate, call_read, call_with_binding}

-- A property of the requests that every operation on them keeps.
pub record IsClosed (c : Codec) {W : Type 0} (out : Outside W)
    (P : List (String × Request) → Type 0) : Type 0 where
  pub marks :
      (id : String) (m : List (String × Request)) → is_uuid id ≡ true → P m → P (mark_terminal id m)
  pub settles :
      (u : Failure) (f : String → Failure) (m : List (String × Request)) (w : W)
      → P m
      → P (settle out u f m w).1
  pub delegates :
      (bound : Option BoundTool) (q : Delegation) (b : Broker) (w : W)
      → P b.requests
      → P (delegate c out bound q b w).1.requests

-- What an operation returns, if it ends, has the property.
abbrev pub Keeps :
    {W A : Type 0} → (List (String × Request) → Type 0) → Option (A × Broker × W) → Type 0
Keeps P none = Unit
Keeps P (some x) = P x.1.requests

wait_time-is_uuid :
    (waiting : Bool) (q : Reading) {d : ℕ}
    → wait_time waiting q ≡ some d
    → is_uuid q.child_run_id ≡ true
unfolding wait_time
wait_time-is_uuid waiting q h = ground arith

module _ (c : Codec) {W : Type 0} (out : Outside W) (P : List (String × Request) → Type 0)
    (closed : IsClosed c out P) where
  marked-Keeps :
      (id : String) (run : DelegatedRun) (b : Broker)
      → is_uuid id ≡ true
      → P b.requests
      → P (marked id run b).requests
  marked-Keeps id run b u l = elim (Bool-cases (status_terminal run.status)) [
    | inr e ↦ rw e l
    | inl e ↦ rw e (closed.marks id b.requests u l)
  ]

  read_loop-Keeps :
      (id : String) (deadline fuel : ℕ) (last : Option DelegatedRun) (b : Broker) (w : W)
      → is_uuid id ≡ true
      → P b.requests
      → Keeps P (read_loop out id deadline fuel last b w)
  unfolding read_loop
  read_loop-Keeps id deadline zero last b w u l = tt
  read_loop-Keeps id deadline (suc fuel) last b w u l =
      let w1 = (out.read_run id w).1 in
      let w2 = out.sleep (min second (deadline - out.now w1)) w1 in
      elim (reply_cases (out.read_run id w).0) [
        | inl (e, q) ↦ rw (q, read_loop) l
        | inr (inl q) ↦ rw (q, read_loop) l
        | inr (inr (run, q)) ↦
            let kept : P (marked id run b).requests = marked-Keeps id run b u l in
            let later = read_loop-Keeps id deadline fuel (some run) (marked id run b) w2 u kept in
            elim (Bool-cases (not (is_running run.status) || deadline - out.now w1 == 0)) [
              | inl over ↦ rw (q, read_loop) (rw over kept)
              | inr goes ↦ elim (Bool-cases (out.canceled w2)) [
                | inl gone ↦ rw (q, read_loop) (rw (goes, gone) kept)
                | inr on ↦ rw (q, read_loop) (rw (goes, on) later)
              ]
            ]
      ]

  read_delegated-Keeps :
      (waiting : Bool) (q : Reading) (b : Broker) (w : W)
      → P b.requests
      → Keeps P (read_delegated out waiting q b w)
  unfolding read_delegated
  read_delegated-Keeps waiting q b w l = elim (Option-cases (wait_time waiting q)) [
    | inl e ↦ rw (e, read_delegated) l
    | inr (d, e) ↦
        rw (e, read_delegated)
          (read_loop-Keeps q.child_run_id (out.now w + d) rounds none b w
            (wait_time-is_uuid waiting q e) l)
  ]

  pub call_read-Keeps :
      (waiting : Bool) (q : Option Reading) (b : Broker) (w : W)
      → P b.requests
      → Keeps P (call_read c out waiting q b w)
  unfolding call_read
  call_read-Keeps waiting none b w l = l
  call_read-Keeps waiting (some q) b w l = elim (Option-cases (read_delegated out waiting q b w)) [
    | inl e ↦ rw (e, call_read) tt
    | inr (x, e) ↦ rw (e, call_read) (subst (Keeps P) e (read_delegated-Keeps waiting q b w l))
  ]

  pub call_delegate-Keeps :
      (bound : Option BoundTool) (q : Option Delegation) (b : Broker) (w : W)
      → P b.requests
      → P (call_delegate c out bound q b w).1.requests
  unfolding call_delegate
  call_delegate-Keeps bound none b w l = l
  call_delegate-Keeps bound (some q) b w l = closed.delegates bound q b w l

  pub call_with_binding-Keeps :
      (name : String) (raw : Value) (bound : Option BoundTool) (b : Broker) (w : W)
      → P b.requests
      → Keeps P (call_with_binding c out name raw bound b w)
  unfolding call_with_binding
  call_with_binding-Keeps name raw bound b w l = elim (Bool-cases (out.canceled w)) [
    | inl e ↦ rw e l
    | inr live ↦ elim (Bool-cases (str_eq name "delegate_agent")) [
      | inl e ↦ rw (live, e) (call_delegate-Keeps bound (c.delegation raw) b w l)
      | inr one ↦ elim (Bool-cases (str_eq name "get_delegated_run")) [
        | inl e ↦ rw (live, one, e) (call_read-Keeps false (c.reading raw) b w l)
        | inr two ↦ elim (Bool-cases (str_eq name "wait_delegated_run")) [
          | inl e ↦ rw (live, one, two, e) (call_read-Keeps true (c.reading raw) b w l)
          | inr three ↦ rw (live, one, two, three) l
        ]
      ]
    ]
  ]

  pub ensure_complete-Keeps :
      (b : Broker) (w : W) → P b.requests → P (ensure_complete out b w).1.requests
  unfolding ensure_complete
  ensure_complete-Keeps b w l =
      elim (Bool-cases (ltb 0 (length b.bound_tools) && not b.tools_ready)) [
        | inl e ↦ rw e l
        | inr e ↦ rw e (closed.settles unresolved unfinished b.requests w l)
      ]
