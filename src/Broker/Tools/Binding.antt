-- ===== src/Broker/Tools/Binding.antt =====
-- A key of pkg/adapters/agentdelegation/broker.go whose Run is known keeps it, whatever is asked of
-- the broker later.
use openlinker_agent_node.Base.{
  ◌≡◌, refl, sym, ◌∙◌, ap, String, Bool, true, false, not, List, [], ◌∷◌, Option, none, some,
  some_inj, arith, length, leb, str_eq, eq_iff, Option-cases, Bool-cases, inl, inr, if◌then◌else◌,
  subst,
}
use openlinker_agent_node.Base.Assoc.{lookup, put, delete, lookup-put, lookup-delete}
use openlinker_agent_node.Base.Result.{Result, ok, err, Result-cases}
use openlinker_agent_node.Patterns.{is_uuid}
use openlinker_agent_node.Broker.{
  Value, Summary, Failure, BoundTool, Request, Delegation, Broker, Codec, Outside,
}
use openlinker_agent_node.Broker.Ledger.{mark_terminal, settle_answer, settle_one, settle}
use openlinker_agent_node.Broker.Delegate.{
  definite_rejection, pending, created, accepted, retry_first, wait_first, record_summary, conclude,
  create, open_request, repeat_request, delegate,
}
use openlinker_agent_node.Broker.Delegate.Retries.{
  IsCreated, conflict, delegate-IsCreated, delegate_at_created,
}
use openlinker_agent_node.Broker.Call.Reachable.{IsClosed}
use openlinker_agent_node.Broker.Tools.Reachable.{Operation, serve, serve-Keeps}

module _ (k d : String) (s : Summary) where
  -- What an entry says of its Run, apart from whether it has ended.
  abbrev Says : Request → Type 0
  Says r = (r.digest ≡ d) × (str_eq r.run_id "" ≡ false) × (r.summary ≡ s)

  abbrev Held : List (String × Request) → Type 0
  Held m = IsCreated k d s m

  as_held : (m : List (String × Request)) (r : Request) → lookup k m ≡ some r → Says r → Held m
  as_held m r found (digested, named, summed) = record {
    entry = r;
    found = found;
    digested = digested;
    named = named;
    summed = summed;
  }

  says : (m : List (String × Request)) (h : Held m) → Says h.entry
  says m h = (h.digested, h.named, h.summed)

  -- An entry in front of the others.
  in_front :
      (j : String) (r r' : Request) (m m' : List (String × Request))
      → (Says r → Says r')
      → (Held m → Held m')
      → Held ((j, r) ∷ m)
      → Held ((j, r') ∷ m')
  unfolding lookup
  in_front j r r' m m' here there h = elim (Bool-cases (str_eq j k)) [
    | inl same ↦
        let e : r ≡ h.entry = some_inj (rw same at h.found) in
        as_held ((j, r') ∷ m') r' (rw same refl) (here (subst Says (sym e) (says ((j, r) ∷ m) h)))
    | inr apart ↦
        let rest = there (as_held m h.entry (rw apart at h.found) (says ((j, r) ∷ m) h)) in
        as_held ((j, r') ∷ m') rest.entry (rw apart rest.found) (says m' rest)
  ]

  mark_terminal-Held :
      (id : String) (m : List (String × Request)) → Held m → Held (mark_terminal id m)
  unfolding mark_terminal
  mark_terminal-Held id [] h = h
  mark_terminal-Held id ((j, r) ∷ m) h =
      in_front j r (if str_eq r.run_id id then record r { terminal = true } else r) m
        (mark_terminal id m) (λ t. ground (arith, t)) (mark_terminal-Held id m) h

  put-Held :
      (j : String) (r : Request) (m : List (String × Request))
      → str_eq j k ≡ false
      → Held m
      → Held (put j r m)
  put-Held j r m apart h = as_held (put j r m) h.entry (rw lookup-put (rw apart h.found)) (says m h)

  delete-Held :
      (j : String) (m : List (String × Request)) → str_eq j k ≡ false → Held m → Held (delete j m)
  delete-Held j m apart h =
      as_held (delete j m) h.entry (rw lookup-delete (rw apart h.found)) (says m h)

  module _ {W : Type 0} (out : Outside W) (u : Failure) (f : String → Failure) where
    settle_one-says :
        (r r' : Request) (w : W) → (settle_one out u f r w).0 ≡ ok r' → Says r → Says r'
    unfolding settle_one settle_answer
    settle_one-says r r' w h t = ground (arith, h, t)

    settle-Held : (m : List (String × Request)) (w : W) → Held m → Held (settle out u f m w).1
    unfolding settle
    settle-Held [] w h = h
    settle-Held ((j, r) ∷ m) w h = elim (Result-cases (settle_one out u f r w).0) [
      | inr (e, failed) ↦ rw (failed, settle) h
      | inl (r', fine) ↦
          rw (fine, settle)
            (in_front j r r' m (settle out u f m (settle_one out u f r w).1).1
              (settle_one-says r r' w fine) (settle-Held m (settle_one out u f r w).1) h)
    ]

  module _ (c : Codec) {W : Type 0} (out : Outside W) (bound : Option BoundTool)
      (q : Delegation) where
    record_summary-Held :
        (e : String) (x : Option Summary) (b : Broker)
        → str_eq q.key k ≡ false
        → Held b.requests
        → Held (record_summary c q e x b).1.requests
    unfolding record_summary
    record_summary-Held e none b apart h = h
    record_summary-Held e (some t) b apart h = elim (Bool-cases (is_uuid t.run_id)) [
      | inl u ↦ rw u (put-Held q.key (created e t) b.requests apart h)
      | inr n ↦ rw n h
    ]

    conclude-Held :
        (exists : Bool) (e : String) (r : Result Failure Value) (b : Broker)
        → str_eq q.key k ≡ false
        → Held b.requests
        → Held (conclude c exists q e r b).1.requests
    unfolding conclude
    conclude-Held exists e (err x) b apart h = elim (Option-cases (definite_rejection x)) [
      | inl t ↦ rw (t, conclude) h
      | inr (x, t) ↦ elim (Bool-cases exists) [
        | inl old ↦ rw (t, conclude) (rw old h)
        | inr new ↦ rw (t, conclude) (rw new (delete-Held q.key b.requests apart h))
      ]
    ]
    conclude-Held exists e (ok v) b apart h = elim (Option-cases (c.encode v)) [
      | inl t ↦ rw (t, conclude) h
      | inr (x, t) ↦ rw (t, conclude) (record_summary-Held e (c.summary x) b apart h)
    ]

    create-Held :
        (exists : Bool) (e : String) (b : Broker) (w : W)
        → str_eq q.key k ≡ false
        → Held b.requests
        → Held (create c out exists bound q e b w).1.requests
    unfolding create
    create-Held exists e b w apart h = conclude-Held exists e _ b apart h

    open_request-Held :
        (e : String) (b : Broker) (w : W)
        → str_eq q.key k ≡ false
        → Held b.requests
        → Held (open_request c out bound q e b w).1.requests
    unfolding open_request
    open_request-Held e b w apart h =
        let kept = settle-Held out retry_first wait_first b.requests w h in
        let left = (settle out retry_first wait_first b.requests w).1 in
        elim (Result-cases (settle out retry_first wait_first b.requests w).0) [
          | inl (x, done) ↦
              rw (done, open_request)
                (create-Held false e (record b { requests = put q.key (pending e) left }) _ apart
                  (put-Held q.key (pending e) left apart kept))
          | inr (x, failed) ↦ rw (failed, open_request) kept
        ]

    repeat_request-Held :
        (e : String) (p : Request) (b : Broker) (w : W)
        → lookup q.key b.requests ≡ some p
        → Held b.requests
        → Held (repeat_request c out bound q e p b w).1.requests
    unfolding repeat_request
    repeat_request-Held e p b w old h = elim (Bool-cases (not (str_eq p.digest e))) [
      | inl conflict ↦ rw conflict h
      | inr same ↦ elim (Bool-cases (str_eq p.run_id "")) [
        | inr known ↦ rw (same, known) h
        | inl empty ↦ elim (Bool-cases (str_eq q.key k)) [
          | inr apart ↦ rw (same, empty) (create-Held true e b w apart h)
          | inl own ↦
              let keys = (eq_iff q.key k).0 own in
              let entries : p ≡ h.entry =
                some_inj (sym old ∙ ap (λ j. lookup j b.requests) keys ∙ h.found) in
              let named : str_eq p.run_id "" ≡ false = rw entries h.named in
              absurd (ground (arith, named, empty))
        ]
      ]
    ]

    delegate-Held :
        (b : Broker) (w : W) → Held b.requests → Held (delegate c out bound q b w).1.requests
    unfolding delegate
    delegate-Held b w h = elim (Bool-cases (accepted bound q b)) [
      | inr refused ↦ rw refused h
      | inl fine ↦ elim (Option-cases (lookup q.key b.requests)) [
        | inr (p, old) ↦ rw (fine, old, delegate) (repeat_request-Held _ p b w old h)
        | inl new ↦ elim (Bool-cases (leb 64 (length b.requests))) [
          | inl full ↦ rw (fine, new, full, delegate) h
          | inr room ↦ elim (Bool-cases (str_eq q.key k)) [
            | inr apart ↦ rw (fine, new, room, delegate) (open_request-Held _ b w apart h)
            | inl own ↦
                let keys = (eq_iff q.key k).0 own in
                let clash : none ≡ some h.entry =
                  sym new ∙ ap (λ j. lookup j b.requests) keys ∙ h.found in
                absurd cc
          ]
        ]
      ]
    ]

  Held-IsClosed : (c : Codec) {W : Type 0} (out : Outside W) → IsClosed c out Held
  Held-IsClosed c out = record {
    marks = λ id m u h. mark_terminal-Held id m h;
    settles = λ u f m w h. settle-Held out u f m w h;
    delegates = λ bound q b w h. delegate-Held c out bound q b w h;
  }

-- Once a delegation has returned a summary, its key never starts another child. After any sequence
-- of tool calls and completion checks, whatever Core has answered meanwhile, an accepted request
-- with that key calls nothing and changes nothing: it returns the summary again if the digest of
-- its arguments is the same, and a conflict if not.
pub key_binds_request :
    (c : Codec) {W : Type 0} (out : Outside W) (bound later : Option BoundTool) (q r : Delegation)
    (b b' : Broker) (w w' w'' : W) (os : List Operation) {s : Summary}
    → (delegate c out bound q b w).0 ≡ ok s
    → serve c out os (delegate c out bound q b w).1 (delegate c out bound q b w).2 ≡ some (b', w')
    → r.key ≡ q.key
    → accepted later r b' ≡ true
    → delegate c out later r b' w'' ≡ (
      (if str_eq (c.sha256 (c.canonical q)) (c.sha256 (c.canonical r)) then ok s else err conflict),
      b',
      w'',
    )
key_binds_request c out bound later q r b b' w w' w'' os {s} h served same fine =
    let d = c.sha256 (c.canonical q) in
    let x = delegate c out bound q b w in
    let kept =
      serve-Keeps c out (IsCreated q.key d s) (Held-IsClosed q.key d s c out) os x.1 b' x.2 w'
        (delegate-IsCreated c out bound q b w h) served in
    delegate_at_created c out later r q d s b' w'' same fine kept
