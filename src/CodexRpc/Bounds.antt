-- ===== src/CodexRpc/Bounds.antt =====
-- What holds of the RPC client in any order of its steps.
use openlinker_agent_node.Base.{
  ℕ, suc, ◌≤◌, String, ◌≡◌, refl, sym, ◌∙◌, subst, inl, inr, Bool, true, ◌&&◌, ◌||◌, not, List, [],
  ◌∷◌, ◌++◌, Option, none, some, some_inj, Bool-cases, Option-cases, str_eq, eq_iff, arith, length,
  length-append, is_some, ltb, All,
}
use openlinker_agent_node.Base.Assoc.{lookup, put, delete, length-put_new, length-put_old}
use openlinker_agent_node.CodexRpc.{
  Message, Failure, Client, max_output_bytes, max_queued_messages, reply_queue, event_queue,
  invalid_response, line_too_long, malformed, duplicate_response,
}
use openlinker_agent_node.CodexRpc.Deny.{deny_request}
use openlinker_agent_node.CodexRpc.Steps.{
  fail, fail_read, stop_reading, has_room, read_request, read_notification, read_response,
  read_line, send, tail,
}

-- A channel is empty, or holds a response to its own ID.
abbrev pub IsOwn : String × Option Message → Type 0
IsOwn (id, none) = Unit
IsOwn (id, some m) = m.id ≡ id

pub record IsSound (c : Client) : Type 0 where
  pub pending_bound : length c.pending ≤ max_queued_messages
  pub event_bound : length c.events ≤ max_queued_messages
  pub write_bound : length c.writes ≤ max_queued_messages
  pub own : All IsOwn c.pending

rename-IsOwn : (id name : String) (o : Option Message) → name ≡ id → IsOwn (id, o) → IsOwn (name, o)
rename-IsOwn id name none e h = tt
rename-IsOwn id name (some m) e h = h ∙ sym e

pub put-IsOwn :
    (id : String) (o : Option Message) (p : List (String × Option Message))
    → IsOwn (id, o)
    → All IsOwn p
    → All IsOwn (put id o p)
unfolding put
put-IsOwn id o [] h all = (h, tt)
put-IsOwn id o ((name, x) ∷ p) h (first, all) = elim (Bool-cases (str_eq name id)) [
  | inl same ↦ rw same (rename-IsOwn id name o ((eq_iff name id).0 same) h, all)
  | inr other ↦ rw other (first, put-IsOwn id o p h all)
]

pub delete-IsOwn :
    (id : String) (p : List (String × Option Message)) → All IsOwn p → All IsOwn (delete id p)
unfolding delete
delete-IsOwn id [] all = tt
delete-IsOwn id ((name, x) ∷ p) (first, all) = elim (Bool-cases (str_eq name id)) [
  | inl same ↦ rw same (delete-IsOwn id p all)
  | inr other ↦ rw other (first, delete-IsOwn id p all)
]

pub lookup-own :
    (id : String) (m : Message) (p : List (String × Option Message))
    → All IsOwn p
    → lookup id p ≡ some (some m)
    → m.id ≡ id
unfolding lookup
lookup-own id m [] all h = absurd cc
lookup-own id m ((name, x) ∷ p) (first, all) h = elim (Bool-cases (str_eq name id)) [
  | inl same ↦
      let e : x ≡ some m = some_inj (rw same at h) in
      subst (λ (o : Option Message). IsOwn (name, o)) e first ∙ (eq_iff name id).0 same
  | inr other ↦ lookup-own id m p all (rw other at h)
]

pub length-put-le :
    (id : String) (o : Option Message) (p : List (String × Option Message))
    → length (put id o p) ≤ suc (length p)
length-put-le id o p = elim (Option-cases (lookup id p)) [
  | inl new ↦ omega (arith, length-put_new id o p new)
  | inr (old, there) ↦ omega (arith, length-put_old id o old p there)
]

pub fail-IsSound : (e : Failure) (c : Client) → IsSound c → IsSound (fail e c)
fail-IsSound e c h = elim (Bool-cases (is_some c.err)) [
  | inl done ↦ rw done h
  | inr fresh ↦ rw fresh (record {
    pending_bound = h.pending_bound;
    event_bound = h.event_bound;
    write_bound = h.write_bound;
    own = h.own;
  })
]

stop-IsSound : (c : Client) → IsSound c → IsSound (stop_reading c)
stop-IsSound c h = record {
  pending_bound = h.pending_bound;
  event_bound = h.event_bound;
  write_bound = h.write_bound;
  own = h.own;
}

pub fail_read-IsSound : (e : Failure) (c : Client) → IsSound c → IsSound (fail_read e c)
fail_read-IsSound e c h = stop-IsSound (fail e c) (fail-IsSound e c h)

queue-IsSound :
    (m : Message) (c : Client)
    → has_room c.writes ≡ true
    → IsSound c
    → IsSound (record c { writes = c.writes ++ m ∷ [] })
queue-IsSound m c room h = record {
  pending_bound = h.pending_bound;
  event_bound = h.event_bound;
  write_bound = let l = length-append c.writes (m ∷ []) in ground (arith, room, l);
  own = h.own;
}

read_request-IsSound :
    (b : Bool) (m : Message) (c : Client) → IsSound c → IsSound (read_request b m c)
unfolding read_request
read_request-IsSound b m c h = elim (Bool-cases (is_some c.err && (b || not (has_room c.writes)))) [
  | inl stop ↦ rw stop (stop-IsSound c h)
  | inr go ↦ rw go (elim (Bool-cases (has_room c.writes)) [
    | inl room ↦ rw room (queue-IsSound (deny_request m) c room h)
    | inr full ↦ rw full (fail_read-IsSound reply_queue c h)
  ])
]

read_notification-IsSound :
    (b : Bool) (m : Message) (c : Client) → IsSound c → IsSound (read_notification b m c)
unfolding read_notification
read_notification-IsSound b m c h =
    elim (Bool-cases (is_some c.err && (b || not (has_room c.events)))) [
      | inl stop ↦ rw stop (stop-IsSound c h)
      | inr go ↦ rw go (elim (Bool-cases (has_room c.events)) [
        | inl room ↦ rw room (record {
          pending_bound = h.pending_bound;
          event_bound = let l = length-append c.events (m ∷ []) in ground (arith, room, l);
          write_bound = h.write_bound;
          own = h.own;
        })
        | inr full ↦ rw full (fail_read-IsSound event_queue c h)
      ])
    ]

-- filling a channel that is there with a response to its ID, or emptying it
pub fill-IsSound :
    (id : String) (o old : Option Message) (c : Client)
    → lookup id c.pending ≡ some old
    → IsOwn (id, o)
    → IsSound c
    → IsSound (record c { pending = put id o c.pending })
fill-IsSound id o old c there mine h = record {
  pending_bound =
      let b = h.pending_bound in omega (arith, b, length-put_old id o old c.pending there);
  event_bound = h.event_bound;
  write_bound = h.write_bound;
  own = put-IsOwn id o c.pending mine (h.own);
}

read_response-IsSound : (m : Message) (c : Client) → IsSound c → IsSound (read_response m c)
unfolding read_response
read_response-IsSound m c h =
    elim (Bool-cases (str_eq m.id "" || (not (is_some m.error) && str_eq m.result ""))) [
      | inl bad ↦ rw bad (fail_read-IsSound invalid_response c h)
      | inr good ↦ rw good (elim (Option-cases (lookup m.id c.pending)) [
        | inl late ↦ rw late h
        | inr (none, there) ↦ rw there (fill-IsSound m.id (some m) none c there refl h)
        | inr (some x, there) ↦ rw there (fail_read-IsSound duplicate_response c h)
      ])
    ]

pub read_line-IsSound :
    (b : Bool) (size : ℕ) (m : Option Message) (c : Client)
    → IsSound c
    → IsSound (read_line b size m c)
unfolding read_line
read_line-IsSound b size none c h = elim (Bool-cases (ltb max_output_bytes size)) [
  | inl long ↦ rw long (fail_read-IsSound line_too_long c h)
  | inr fits ↦ rw fits (fail_read-IsSound malformed c h)
]
read_line-IsSound b size (some m) c h = elim (Bool-cases (ltb max_output_bytes size)) [
  | inl long ↦ rw long (fail_read-IsSound line_too_long c h)
  | inr fits ↦ rw fits (elim (Bool-cases (str_eq m.method "")) [
    | inl response ↦ rw response (read_response-IsSound m c h)
    | inr named ↦ rw named (elim (Bool-cases (str_eq m.id "")) [
      | inl note ↦ rw note (read_notification-IsSound b m c h)
      | inr request ↦ rw request (read_request-IsSound b m c h)
    ])
  ])
]

pub send-IsSound : (b : Bool) (m : Message) (c : Client) → IsSound c → IsSound (send b m c)
unfolding send
send-IsSound b m c h = elim (Bool-cases ((is_some c.err && b) || not (has_room c.writes))) [
  | inl wait ↦ rw wait h
  | inr go ↦ rw go (queue-IsSound m c (ground (arith, go)) h)
]

pub length-tail-le : {A : Type 0} (xs : List A) → length (tail xs) ≤ length xs
length-tail-le [] = omega arith
length-tail-le (x ∷ xs) = omega arith

pub written-IsSound : (c : Client) → IsSound c → IsSound (record c { writes = tail c.writes })
written-IsSound c h = record {
  pending_bound = h.pending_bound;
  event_bound = h.event_bound;
  write_bound = let b = h.write_bound in omega (arith, b, length-tail-le c.writes);
  own = h.own;
}
