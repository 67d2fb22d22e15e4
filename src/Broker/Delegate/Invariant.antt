-- ===== src/Broker/Delegate/Invariant.antt =====
-- At most one delegated Run is open, over any sequence of calls.
use openlinker_agent_node.Base.{
  ◌≤◌, not, String, ◌≡◌, refl, Bool, true, false, List, Option, none, some, arith, length, leb,
  str_eq, eq_iff, Option-cases, Bool-cases, inl, inr, eq_refl, ◌<◌,
}
use openlinker_agent_node.Base.Assoc.{
  lookup, put, delete, lookup-put, length-put_new, length-put_old, length-delete-le,
}
use openlinker_agent_node.Base.Result.{Result, ok, err, Result-cases}
use openlinker_agent_node.Patterns.{is_uuid}
use openlinker_agent_node.Patterns.Laws.{not-is_uuid-empty}
use openlinker_agent_node.Broker.{
  Value, Summary, Failure, BoundTool, Request, Delegation, Broker, Codec, Outside,
}
use openlinker_agent_node.Broker.Ledger.{settle}
use openlinker_agent_node.Broker.Ledger.Count.{
  open_count, IsShaped, Shaped, settle-ok, settle-open-le, length-settle, settle-Shaped,
  settle-lookup-none, open-put_new, open-put_old, put-Shaped, open-delete-le, delete-Shaped,
  lookup-IsShaped,
}
use openlinker_agent_node.Broker.Delegate.{
  definite_rejection, pending, created, retry_first, wait_first, record_summary, conclude, create,
  open_request, repeat_request, delegate, accepted,
}

-- The ledger has at most 64 requests, at most one of them open, and each is either an unresolved
-- creation or a Run with a UUID.
pub record IsLedger (m : List (String × Request)) : Type 0 where
  pub few : length m ≤ 64
  pub single : open_count m ≤ 1
  pub shaped : Shaped m

-- The request under the key that a call is about to create is open.
record IsOpenAt (k : String) (m : List (String × Request)) : Type 0 where
  entry : Request
  found : lookup k m ≡ some entry
  is_open : entry.terminal ≡ false

pub open_of_empty : (p : Request) → str_eq p.run_id "" ≡ true → IsShaped p → p.terminal ≡ false
open_of_empty p e s = ground (arith, eq_iff p.run_id "", not-is_uuid-empty)

module _ (c : Codec) where
  put-created-IsLedger :
      (q : Delegation) (d : String) (s : Summary) (m : List (String × Request))
      → is_uuid s.run_id ≡ true
      → IsLedger m
      → IsOpenAt q.key m
      → IsLedger (put q.key (created d s) m)
  put-created-IsLedger q d s m u l o = record {
    few = omega (arith, l.few, length-put_old q.key (created d s) o.entry m o.found);
    single = omega (arith, l.single, open-put_old q.key (created d s) m o.entry o.found o.is_open);
    shaped = put-Shaped q.key (created d s) m l.shaped (inr u);
  }

  delete-IsLedger : (k : String) (m : List (String × Request)) → IsLedger m → IsLedger (delete k m)
  delete-IsLedger k m l = record {
    few = omega (arith, l.few, length-delete-le k m);
    single = omega (arith, l.single, open-delete-le k m);
    shaped = delete-Shaped k m l.shaped;
  }

  record_summary-IsLedger :
      (q : Delegation) (d : String) (s : Option Summary) (b : Broker)
      → IsLedger b.requests
      → IsOpenAt q.key b.requests
      → IsLedger (record_summary c q d s b).1.requests
  unfolding record_summary
  record_summary-IsLedger q d none b l o = l
  record_summary-IsLedger q d (some s) b l o = elim (Bool-cases (is_uuid s.run_id)) [
    | inl u ↦ rw u (put-created-IsLedger q d s b.requests u l o)
    | inr n ↦ rw n l
  ]

  conclude-IsLedger :
      (exists : Bool) (q : Delegation) (d : String) (r : Result Failure Value) (b : Broker)
      → IsLedger b.requests
      → IsOpenAt q.key b.requests
      → IsLedger (conclude c exists q d r b).1.requests
  unfolding conclude
  conclude-IsLedger exists q d (err e) b l o = elim (Option-cases (definite_rejection e)) [
    | inl t ↦ rw (t, conclude) l
    | inr (x, t) ↦ elim (Bool-cases exists) [
      | inl old ↦ rw (t, conclude) (rw old l)
      | inr new ↦ rw (t, conclude) (rw new (delete-IsLedger q.key b.requests l))
    ]
  ]
  conclude-IsLedger exists q d (ok v) b l o = elim (Option-cases (c.encode v)) [
    | inl e ↦ rw (e, conclude) l
    | inr (x, e) ↦ rw (e, conclude) (record_summary-IsLedger q d (c.summary x) b l o)
  ]

  module _ {W : Type 0} (out : Outside W) (bound : Option BoundTool) (q : Delegation) where
    abbrev after : Broker → W → List (String × Request)
    after b w = (settle out retry_first wait_first b.requests w).1

    create-IsLedger :
        (exists : Bool) (d : String) (b : Broker) (w : W)
        → IsLedger b.requests
        → IsOpenAt q.key b.requests
        → IsLedger (create c out exists bound q d b w).1.requests
    unfolding create
    create-IsLedger exists d b w l o = conclude-IsLedger exists q d _ b l o

    -- what the loop over the other requests leaves
    settled-IsLedger : (b : Broker) (w : W) → IsLedger b.requests → IsLedger (after b w)
    settled-IsLedger b w l = record {
      few = omega (arith, l.few, length-settle out retry_first wait_first b.requests w);
      single = omega (arith, l.single, settle-open-le out retry_first wait_first b.requests w);
      shaped = settle-Shaped out retry_first wait_first b.requests w l.shaped;
    }

    registered-IsLedger :
        (d : String) (m : List (String × Request))
        → length m < 64
        → open_count m ≡ 0
        → Shaped m
        → lookup q.key m ≡ none
        → IsLedger (put q.key (pending d) m)
    registered-IsLedger d m few closed shaped new = record {
      few = omega (arith, few, length-put_new q.key (pending d) m new);
      single = omega (arith, closed, open-put_new q.key (pending d) m new);
      shaped = put-Shaped q.key (pending d) m shaped (inl (refl, refl));
    }

    registered-IsOpenAt :
        (d : String) (m : List (String × Request)) → IsOpenAt q.key (put q.key (pending d) m)
    registered-IsOpenAt d m = record {
      entry = pending d;
      found = rw lookup-put (rw (eq_refl q.key));
      is_open = refl;
    }

    open_request-IsLedger :
        (d : String) (b : Broker) (w : W)
        → IsLedger b.requests
        → lookup q.key b.requests ≡ none
        → length b.requests < 64
        → IsLedger (open_request c out bound q d b w).1.requests
    unfolding open_request
    open_request-IsLedger d b w l new room =
        let same = length-settle out retry_first wait_first b.requests w in
        let gone = settle-lookup-none out retry_first wait_first q.key b.requests w new in
        let kept : IsLedger (after b w) = settled-IsLedger b w l in
        elim (Result-cases (settle out retry_first wait_first b.requests w).0) [
          | inl (u, done) ↦
              let closed = settle-ok out retry_first wait_first b.requests w done in
              rw (done, open_request)
                (create-IsLedger false d (record b { requests = put q.key (pending d) (after b w) })
                  _
                  (registered-IsLedger d (after b w) (omega (arith, same, room)) closed kept.shaped
                    gone)
                  (registered-IsOpenAt d (after b w)))
          | inr (e, failed) ↦ rw (failed, open_request) kept
        ]

    repeat_request-IsLedger :
        (d : String) (p : Request) (b : Broker) (w : W)
        → IsLedger b.requests
        → lookup q.key b.requests ≡ some p
        → IsLedger (repeat_request c out bound q d p b w).1.requests
    unfolding repeat_request
    repeat_request-IsLedger d p b w l old = elim (Bool-cases (not (str_eq p.digest d))) [
      | inl conflict ↦ rw conflict l
      | inr same ↦ elim (Bool-cases (str_eq p.run_id "")) [
        | inr known ↦ rw (same, known) l
        | inl empty ↦
            rw (same, empty)
              (create-IsLedger true d b w l (record {
                entry = p;
                found = old;
                is_open = open_of_empty p empty (lookup-IsShaped q.key b.requests p l.shaped old);
              }))
      ]
    ]

    -- From a ledger in order, every call of delegate_agent leaves a ledger in order: at most 64
    -- requests, at most one of them not known to be terminal, and no request that is marked
    -- terminal without a Run, whatever Core and the clock do.
    pub delegate-IsLedger :
        (b : Broker) (w : W)
        → IsLedger b.requests
        → IsLedger (delegate c out bound q b w).1.requests
    unfolding delegate
    delegate-IsLedger b w l = elim (Bool-cases (accepted bound q b)) [
      | inr refused ↦ rw refused l
      | inl fine ↦ elim (Option-cases (lookup q.key b.requests)) [
        | inr (p, old) ↦ rw (fine, old, delegate) (repeat_request-IsLedger _ p b w l old)
        | inl new ↦ elim (Bool-cases (leb 64 (length b.requests))) [
          | inl full ↦ rw (fine, new, full, delegate) l
          | inr room ↦
              rw (fine, new, room, delegate)
                (open_request-IsLedger _ b w l new (ground (arith, room)))
        ]
      ]
    ]
