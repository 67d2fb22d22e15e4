-- ===== src/Broker/Delegate/Retries.antt =====
-- What a request key of pkg/adapters/agentdelegation/broker.go stands for once a delegation has
-- succeeded or its outcome is unknown.
use openlinker_agent_node.Base.{
  List, ◌<◌, String, ◌≡◌, refl, Bool, true, false, not, Option, none, some, arith, length, leb,
  str_eq, eq_iff, eq_refl, Option-cases, Bool-cases, inl, inr, if◌then◌else◌,
}
use openlinker_agent_node.Base.Assoc.{lookup, lookup-put}
use openlinker_agent_node.Base.Result.{Result, ok, err, Result-cases}
use openlinker_agent_node.Patterns.{is_uuid}
use openlinker_agent_node.Patterns.Laws.{not-is_uuid-empty}
use openlinker_agent_node.Broker.{
  Value, Summary, Failure, safe, BoundTool, Request, Delegation, Broker, Codec, Outside,
}
use openlinker_agent_node.Broker.Ledger.{settle}
use openlinker_agent_node.Broker.Ledger.Count.{lookup-IsShaped, settle-unresolved}
use openlinker_agent_node.Broker.Delegate.{
  accepted, created, retry_first, wait_first, record_summary, conclude, create, open_request,
  repeat_request, delegate,
}
use openlinker_agent_node.Broker.Delegate.Invariant.{IsLedger, open_of_empty}

-- The entry of a key whose Run is known.
pub record IsCreated (key digest : String) (s : Summary) (m : List (String × Request))
    : Type 0 where
  pub entry : Request
  pub found : lookup key m ≡ some entry
  pub digested : entry.digest ≡ digest
  pub named : str_eq entry.run_id "" ≡ false
  pub summed : entry.summary ≡ s

module _ (c : Codec) {W : Type 0} (out : Outside W) where
  record_summary-IsCreated :
      (q : Delegation) (d : String) (x : Option Summary) (b : Broker) {s : Summary}
      → (record_summary c q d x b).0 ≡ ok s
      → IsCreated q.key d s (record_summary c q d x b).1.requests
  unfolding record_summary
  record_summary-IsCreated q d none b h = absurd (cc)
  record_summary-IsCreated q d (some t) b {s} h = elim (Bool-cases (is_uuid t.run_id)) [
    | inr e ↦ absurd (cc (rw e at h))
    | inl e ↦ rw e (record {
      entry = created d t;
      found = rw lookup-put (rw (eq_refl q.key));
      digested = refl;
      named = ground (arith, eq_iff t.run_id "", not-is_uuid-empty);
      summed = cc (rw e at h);
    })
  ]

  conclude-IsCreated :
      (exists : Bool) (q : Delegation) (d : String) (r : Result Failure Value) (b : Broker)
      {s : Summary}
      → (conclude c exists q d r b).0 ≡ ok s
      → IsCreated q.key d s (conclude c exists q d r b).1.requests
  unfolding conclude
  conclude-IsCreated exists q d (err e) b h = absurd (ground arith)
  conclude-IsCreated exists q d (ok v) b h = elim (Option-cases (c.encode v)) [
    | inl e ↦ absurd (cc (rw (e, conclude) at h))
    | inr (x, e) ↦
        rw (e, conclude) (record_summary-IsCreated q d (c.summary x) b (rw (e, conclude) at h))
  ]

  module _ (bound : Option BoundTool) (q : Delegation) where
    create-IsCreated :
        (exists : Bool) (d : String) (b : Broker) (w : W) {s : Summary}
        → (create c out exists bound q d b w).0 ≡ ok s
        → IsCreated q.key d s (create c out exists bound q d b w).1.requests
    unfolding create
    create-IsCreated exists d b w h = conclude-IsCreated exists q d _ b h

    open_request-IsCreated :
        (d : String) (b : Broker) (w : W) {s : Summary}
        → (open_request c out bound q d b w).0 ≡ ok s
        → IsCreated q.key d s (open_request c out bound q d b w).1.requests
    unfolding open_request
    open_request-IsCreated d b w h =
        elim (Result-cases (settle out retry_first wait_first b.requests w).0) [
          | inl (u, e) ↦
              rw (e, open_request) (create-IsCreated false d _ _ (rw (e, open_request) at h))
          | inr (x, e) ↦ absurd (cc (rw (e, open_request) at h))
        ]

    repeat_request-IsCreated :
        (d : String) (p : Request) (b : Broker) (w : W) {s : Summary}
        → lookup q.key b.requests ≡ some p
        → (repeat_request c out bound q d p b w).0 ≡ ok s
        → IsCreated q.key d s (repeat_request c out bound q d p b w).1.requests
    unfolding repeat_request
    repeat_request-IsCreated d p b w old h = elim (Bool-cases (str_eq p.digest d)) [
      | inr conflict ↦ absurd (cc (rw conflict at h))
      | inl same ↦ elim (Bool-cases (str_eq p.run_id "")) [
        | inl empty ↦ rw (same, empty) (create-IsCreated true d b w (rw (same, empty) at h))
        | inr known ↦
            rw (same, known)
              (record {
                entry = p;
                found = old;
                digested = (eq_iff p.digest d).0 same;
                named = known;
                summed = cc (rw (same, known) at h);
              })
      ]
    ]

    pub delegate-IsCreated :
        (b : Broker) (w : W) {s : Summary}
        → (delegate c out bound q b w).0 ≡ ok s
        → IsCreated q.key (c.sha256 (c.canonical q)) s (delegate c out bound q b w).1.requests
    unfolding delegate
    delegate-IsCreated b w h = elim (Bool-cases (accepted bound q b)) [
      | inr refused ↦ absurd (cc (rw refused at h))
      | inl fine ↦ elim (Option-cases (lookup q.key b.requests)) [
        | inr (p, old) ↦
            rw (fine, old, delegate)
              (repeat_request-IsCreated _ p b w old (rw (fine, old, delegate) at h))
        | inl new ↦ elim (Bool-cases (leb 64 (length b.requests))) [
          | inl full ↦ absurd (cc (rw (fine, new, full, delegate) at h))
          | inr room ↦
              rw (fine, new, room, delegate)
                (open_request-IsCreated _ b w (rw (fine, new, room, delegate) at h))
        ]
      ]
    ]

abbrev pub conflict : Failure
conflict = safe "request_key conflicts with a previous request"

choose :
    {W : Type 0} (d e : String) (s : Summary) (b : Broker) (w : W)
    → ◌≡◌ {A = Result Failure Summary × Broker × W}
        (if not (str_eq d e)
          then (err (safe "request_key conflicts with a previous request"), b, w)
          else (ok s, b, w))
        ((if str_eq d e then ok s else err conflict), b, w)
choose d e s b w = ground arith

module _ (c : Codec) {W : Type 0} (out : Outside W) (later : Option BoundTool)
    (r : Delegation) where
  pub delegate_at_created :
      (q : Delegation) (d : String) (s : Summary) (b : Broker) (w : W)
      → r.key ≡ q.key
      → accepted later r b ≡ true
      → IsCreated q.key d s b.requests
      → delegate c out later r b w
        ≡ ((if str_eq d (c.sha256 (c.canonical r)) then ok s else err conflict), b, w)
  unfolding delegate repeat_request
  delegate_at_created q d s b w same fine i =
      let old : lookup r.key b.requests ≡ some i.entry = rw same i.found in
      rw (fine, old, delegate)
        (rw (i.digested, i.named, i.summed) (choose d (c.sha256 (c.canonical r)) s b w))

-- While the outcome of a creation is unknown, a new key is refused with the advice to retry that
-- one, and nothing is asked of Core: no second child can start.
pub unresolved_blocks :
    (c : Codec) {W : Type 0} (out : Outside W) (bound : Option BoundTool) (q : Delegation)
    (b : Broker) (w : W) (k : String) (p : Request)
    → IsLedger b.requests
    → lookup k b.requests ≡ some p
    → p.run_id ≡ ""
    → lookup q.key b.requests ≡ none
    → length b.requests < 64
    → accepted bound q b ≡ true
    → delegate c out bound q b w ≡ (err retry_first, b, w)
unfolding delegate open_request
unresolved_blocks c out bound q b w k p l found empty new room fine =
    let full : leb 64 (length b.requests) ≡ false = ground arith in
    let live : p.terminal ≡ false =
      open_of_empty p ((eq_iff p.run_id "").1 empty)
        (lookup-IsShaped k b.requests p l.shaped found) in
    let stopped =
      settle-unresolved out retry_first wait_first k b.requests p w found live empty l.single in
    rw (fine, new, full, delegate) (rw (stopped, open_request) (rw stopped))
