-- ===== src/Broker/Tools/Reachable.antt =====
-- The broker over any sequence of its operations: the ledger stays in order, and every
-- operation returns.
use openlinker_agent_node.Base.{
  String, ◌≡◌, refl, Bool, true, false, not, ◌||◌, List, [], ◌∷◌, Option, none, some, arith,
  Bool-cases, Option-cases, inl, inr, length, ◌==◌, is_some, subst, sym, ltb,
}
use Prim.Native.String.{len}
use mathlib.Core.Bool.{false≢true}
use openlinker_agent_node.Base.Result.{Result, ok, err, Result-cases}
use openlinker_agent_node.Broker.{
  Request, Value, Reading, BoundCall, Failure, DelegatedRun, BoundTool, Outcome, Broker, Codec,
  Outside,
}
use openlinker_agent_node.Broker.Ledger.Count.{
  settle-open-le, length-settle, settle-Shaped, open-mark_terminal-le, length-mark_terminal,
  mark_terminal-Shaped,
}
use openlinker_agent_node.Broker.Delegate.Invariant.{IsLedger, delegate-IsLedger}
use openlinker_agent_node.Broker.Reads.Waiting.{IsClock, read_delegated-ends}
use openlinker_agent_node.Broker.Complete.{ensure_complete}
use openlinker_agent_node.Broker.Call.{call_read, call_with_binding}
use openlinker_agent_node.Broker.Call.Reachable.{
  IsClosed, Keeps, call_read-Keeps, call_delegate-Keeps, call_with_binding-Keeps,
  ensure_complete-Keeps,
}
use openlinker_agent_node.Broker.Tools.{
  find_tool, discover, report, checked, followed, reported, run_tool, call_bound, as_reply,
  as_state, as_created, call_tool, bound_request, waited_for,
}

-- What a host asks of a broker: a call of a tool, or the check at the end of the parent Run.
pub data Operation : Type 0 where
  tool : String → Value → Operation
  complete : Operation

IsLedger-IsClosed : (c : Codec) {W : Type 0} (out : Outside W) → IsClosed c out IsLedger
IsLedger-IsClosed c out = record {
  marks = λ id m u l. record {
    few = omega (arith, l.few, length-mark_terminal id m);
    single = omega (arith, l.single, open-mark_terminal-le id m);
    shaped = mark_terminal-Shaped id m u l.shaped;
  };
  settles = λ u f m w l. record {
    few = omega (arith, l.few, length-settle out u f m w);
    single = omega (arith, l.single, settle-open-le out u f m w);
    shaped = settle-Shaped out u f m w l.shaped;
  };
  delegates = λ bound q b w l. delegate-IsLedger c out bound q b w l;
}

IsLedger-nil : IsLedger []
IsLedger-nil = record { few = omega arith; single = omega arith; shaped = tt }

module _ (c : Codec) {W : Type 0} (out : Outside W) where
  discover-requests : (b : Broker) (w : W) → (discover c out b w).1.requests ≡ b.requests
  unfolding discover
  discover-requests b w = ground arith

  report-requests :
      (t : BoundTool) (r : DelegatedRun) (b : Broker) (w : W)
      → (report c out t r b w).1.requests ≡ b.requests
  unfolding report
  report-requests t r b w = ground arith

  -- one operation, and the state that it leaves; `none` if it does not return
  unfoldable pub perform : Operation → Broker → W → Option (Broker × W)
  perform (tool name raw) b w = elim (call_tool c out name raw b w) [
    | none ↦ none
    | some x ↦ some (x.1, x.2)
  ]
  perform complete b w = let (r, b', w') = ensure_complete out b w in some (b', w')

  unfoldable pub serve : List Operation → Broker → W → Option (Broker × W)
  serve [] b w = some (b, w)
  serve (o ∷ os) b w = elim (perform o b w) [ none ↦ none | some x ↦ serve os x.0 x.1 ]

  module _ (P : List (String × Request) → Type 0) (closed : IsClosed c out P) where
    reported-Keeps :
        (t : BoundTool) (x : Option (Result Failure Outcome × Broker × W))
        → Keeps P x
        → Keeps P (reported c out t x)
    unfolding reported
    reported-Keeps t none k = tt
    reported-Keeps t (some (r, b, w)) k = elim (Result-cases (as_state c out r)) [
      | inl (s, e) ↦ rw (e, reported) (subst P (sym (report-requests t s b w)) k)
      | inr (s, e) ↦ rw (e, reported) k
    ]

    checked-Keeps :
        (f : Broker → W → Option (Result Failure Outcome × Broker × W)) (b : Broker) (w : W)
        → Keeps P (f b w)
        → P b.requests
        → Keeps P (checked c out f b w)
    unfolding checked
    checked-Keeps f b w k l = elim (Bool-cases (out.canceled w)) [ inl e ↦ rw e l | inr e ↦ rw e k ]

    followed-Keeps :
        (t : BoundTool) (x : Option (Result Failure Outcome × Broker × W))
        → Keeps P x
        → Keeps P (followed c out t x)
    unfolding followed
    followed-Keeps t none k = tt
    followed-Keeps t (some (r, b, w)) k = elim (Result-cases (as_created c out r)) [
      | inr (s, e) ↦ rw (e, followed) k
      | inl (s, e) ↦
          let q = some (waited_for c out s.run_id) in
          rw (e, followed)
            (reported-Keeps t _
              (checked-Keeps _ b w (call_read-Keeps c out P closed true q b w k) k))
    ]

    run_tool-Keeps :
        (t : BoundTool) (q : BoundCall) (b : Broker) (w : W)
        → P b.requests
        → Keeps P (run_tool c out t q b w)
    unfolding run_tool
    run_tool-Keeps t q b w l = followed-Keeps t _ (
        checked-Keeps _ b w
          (call_delegate-Keeps c out P closed (some t) (some (bound_request c out t q)) b w l) l)

    call_bound-Keeps :
        (t : BoundTool) (raw : Value) (b : Broker) (w : W)
        → P b.requests
        → Keeps P (call_bound c out t raw b w)
    unfolding call_bound
    call_bound-Keeps t raw b w l =
        let (failure, b', w') = discover c out b w in
        let l' : P b'.requests = subst P (sym (discover-requests b w)) l in
        elim (Option-cases failure) [
          | inr (x, e) ↦ rw (e, call_bound) l'
          | inl e ↦ elim (Option-cases (c.bound_call raw)) [
            | inl e' ↦ rw (e, e', call_bound) l'
            | inr (q, e') ↦
                elim (Bool-cases
                  (not (is_some q.arguments) || len q.key == 0 || ltb 128 (len q.key))) [
                    | inl bad ↦ rw (e, e', call_bound) (rw bad l')
                    | inr fine ↦ rw (e, e', call_bound) (rw fine (run_tool-Keeps t q b' w' l'))
                  ]
          ]
        ]

    as_reply-Keeps :
        (x : Option (Result Failure Outcome × Broker × W)) → Keeps P x → Keeps P (as_reply c out x)
    as_reply-Keeps none k = tt
    as_reply-Keeps (some (ok x, b, w)) k = k
    as_reply-Keeps (some (err e, b, w)) k = k

    call_tool-Keeps :
        (name : String) (raw : Value) (b : Broker) (w : W)
        → P b.requests
        → Keeps P (call_tool c out name raw b w)
    unfolding call_tool
    call_tool-Keeps name raw b w l = elim (Option-cases (find_tool name b.bound_tools)) [
      | inr (t, e) ↦ rw (e, call_tool) (call_bound-Keeps t raw b w l)
      | inl e ↦ elim (Bool-cases (length b.targets == 0)) [
        | inl none_allowed ↦ rw (e, call_tool) (rw none_allowed l)
        | inr some_allowed ↦
            rw (e, call_tool)
              (rw some_allowed
                (as_reply-Keeps _ (call_with_binding-Keeps c out P closed name raw none b w l)))
      ]
    ]

    perform-Keeps :
        (o : Operation) (b b' : Broker) (w w' : W)
        → P b.requests
        → perform o b w ≡ some (b', w')
        → P b'.requests
    unfolding perform
    perform-Keeps (tool name raw) b b' w w' l h =
        elim (Option-cases (call_tool c out name raw b w)) [
          | inl e ↦ absurd (cc (rw (e, perform) at h))
          | inr (x, e) ↦
              let same : x.1 ≡ b' = cc (rw (e, perform) at h) in
              subst (λ (b : Broker). P b.requests) same
                (subst (Keeps P) e (call_tool-Keeps name raw b w l))
        ]
    perform-Keeps complete b b' w w' l h =
        let same : (ensure_complete out b w).1 ≡ b' = cc in
        subst (λ (b : Broker). P b.requests) same (ensure_complete-Keeps c out P closed b w l)

    pub serve-Keeps :
        (os : List Operation) (b b' : Broker) (w w' : W)
        → P b.requests
        → serve os b w ≡ some (b', w')
        → P b'.requests
    unfolding serve
    serve-Keeps [] b b' w w' l h =
        let same : b ≡ b' = cc in subst (λ (b : Broker). P b.requests) same l
    serve-Keeps (o ∷ os) b b' w w' l h = elim (Option-cases (perform o b w)) [
      | inl e ↦ absurd (cc (rw (e, serve) at h))
      | inr (x, e) ↦
          serve-Keeps os x.0 b' x.1 w' (perform-Keeps o b x.0 w x.1 l e) (rw (e, serve) at h)
    ]

  -- Over any sequence of tool calls and completion checks on a broker that has no request yet,
  -- whatever Core answers, the ledger has at most 64 requests, at most one of them is not known
  -- to be terminal, and each is an unresolved creation that is not terminal or a Run with a UUID.
  pub serve-IsLedger :
      (os : List Operation) (b b' : Broker) (w w' : W)
      → b.requests ≡ []
      → serve os b w ≡ some (b', w')
      → IsLedger b'.requests
  serve-IsLedger os b b' w w' new h =
      serve-Keeps IsLedger (IsLedger-IsClosed c out) os b b' w w'
        (subst IsLedger (sym new) IsLedger-nil) h

  module _ (clock : IsClock out) where
    call_read-ends :
        (waiting : Bool) (q : Option Reading) (b : Broker) (w : W)
        → is_some (call_read c out waiting q b w) ≡ true
    unfolding call_read
    call_read-ends waiting none b w = refl
    call_read-ends waiting (some q) b w =
        ground (arith, read_delegated-ends out clock waiting q b w)

    call_with_binding-ends :
        (name : String) (raw : Value) (bound : Option BoundTool) (b : Broker) (w : W)
        → is_some (call_with_binding c out name raw bound b w) ≡ true
    unfolding call_with_binding
    call_with_binding-ends name raw bound b w =
        ground
          (arith, call_read-ends false (c.reading raw) b w, call_read-ends true (c.reading raw) b w)

    checked-ends :
        (f : Broker → W → Option (Result Failure Outcome × Broker × W)) (b : Broker) (w : W)
        → is_some (f b w) ≡ true
        → is_some (checked c out f b w) ≡ true
    unfolding checked
    checked-ends f b w h = ground arith

    reported-ends :
        (t : BoundTool) (x : Option (Result Failure Outcome × Broker × W))
        → is_some x ≡ true
        → is_some (reported c out t x) ≡ true
    unfolding reported
    reported-ends t none h = cc
    reported-ends t (some (r, b, w)) h = ground arith

    followed-ends :
        (t : BoundTool) (x : Option (Result Failure Outcome × Broker × W))
        → is_some x ≡ true
        → is_some (followed c out t x) ≡ true
    unfolding followed
    followed-ends t none h = cc
    followed-ends t (some (r, b, w)) h = elim (Result-cases (as_created c out r)) [
      | inr (s, e) ↦ rw (e, followed)
      | inl (s, e) ↦
          rw (e, followed)
            (reported-ends t _
              (checked-ends _ b w (call_read-ends true (some (waited_for c out s.run_id)) b w)))
    ]

    call_bound-ends :
        (t : BoundTool) (raw : Value) (b : Broker) (w : W)
        → is_some (call_bound c out t raw b w) ≡ true
    unfolding call_bound run_tool
    call_bound-ends t raw b w =
        let (failure, b', w') = discover c out b w in
        elim (Option-cases failure) [
          | inr (x, e) ↦ rw (e, call_bound)
          | inl e ↦ elim (Option-cases (c.bound_call raw)) [
            | inl e' ↦ rw (e, e', call_bound)
            | inr (q, e') ↦
                elim (Bool-cases
                  (not (is_some q.arguments) || len q.key == 0 || ltb 128 (len q.key))) [
                    | inl bad ↦ rw (e, e', call_bound) (rw bad)
                    | inr fine ↦
                        rw (e, e', call_bound)
                          (rw fine (followed-ends t _ (checked-ends _ b' w' refl)))
                  ]
          ]
        ]

    as_reply-ends :
        (x : Option (Result Failure Outcome × Broker × W))
        → is_some x ≡ true
        → is_some (as_reply c out x) ≡ true
    as_reply-ends none h = h
    as_reply-ends (some (ok x, b, w)) h = refl
    as_reply-ends (some (err e, b, w)) h = refl

    call_tool-ends :
        (name : String) (raw : Value) (b : Broker) (w : W)
        → is_some (call_tool c out name raw b w) ≡ true
    unfolding call_tool
    call_tool-ends name raw b w = elim (Option-cases (find_tool name b.bound_tools)) [
      | inr (t, e) ↦ rw (e, call_tool) (call_bound-ends t raw b w)
      | inl e ↦ elim (Bool-cases (length b.targets == 0)) [
        | inl none_allowed ↦ rw (e, call_tool) (rw none_allowed)
        | inr some_allowed ↦
            rw (e, call_tool)
              (rw some_allowed (as_reply-ends _ (call_with_binding-ends name raw none b w)))
      ]
    ]

    perform-ends : (o : Operation) (b : Broker) (w : W) → is_some (perform o b w) ≡ true
    unfolding perform
    perform-ends (tool name raw) b w = ground (arith, call_tool-ends name raw b w)
    perform-ends complete b w = refl

    -- On a clock that is not turned back, every sequence of operations returns.
    pub serve-ends : (os : List Operation) (b : Broker) (w : W) → is_some (serve os b w) ≡ true
    unfolding serve
    serve-ends [] b w = refl
    serve-ends (o ∷ os) b w = elim (Option-cases (perform o b w)) [
      | inl e ↦ absurd (false≢true (rw e at (perform-ends o b w)))
      | inr (x, e) ↦ rw (e, serve) (serve-ends os x.0 x.1)
    ]
