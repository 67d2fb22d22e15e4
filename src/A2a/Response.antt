-- ===== src/A2a/Response.antt =====
-- publicA2AProxyResponseWriter of internal/agentnode/public_a2a_server.go.
pub mod Delivery
pub mod Writing
use openlinker_agent_node.Base.{
  ℕ, ◌+◌, ◌*◌, String, Bool, true, false, List, [], ◌∷◌, ◌++◌, Option, none, some, leb, ◌==◌,
  if◌then◌else◌, length,
}
use openlinker_agent_node.Base.Int.{ℤ}

-- The bodies that the listener itself composes; a JSON-RPC ID is its text, "null" where the
-- request has none.
pub data Reply : Type 0 where
  http_error : (status : ℕ) (code message : String) → Reply
  rpc_error : (id : String) (code : ℤ) (message : String) → Reply
  rpc_card : (id : String) → Reply
  card : (extended : Bool) → Reply

-- What the writer does with its target, in order, and, with `interim` for a 1xx status, what
-- reaches the client. An envelope is its own header and body.
pub data Sent : Type 0 where
  interim : ℕ → Sent
  header : ℕ → Sent
  chunk : List ℕ → Sent
  flushed : Sent
  envelope : Reply → Sent

-- The ResponseWriter behind the proxy's: `broken` once the client is gone.
pub record Target : Type 0 where
  pub sent : List Sent
  pub broken : Bool

abbrev pub send : Sent → Target → Target
send x t = record t { sent = t.sent ++ x ∷ [] }

-- The statuses after which net/http still waits for the final one; 101 is final.
abbrev pub is_interim : ℕ → Bool
is_interim status =
    if status == 101 then false else if leb 100 status then leb status 199 else false

-- What net/http sends to the client: a write, a flush or the end before a final status is a 200.
abbrev pub received : List Sent → List Sent
received [] = header 200 ∷ []
received (header s ∷ rest) =
    let later = received rest in if is_interim s then interim s ∷ later else header s ∷ rest
received (interim s ∷ rest) = interim s ∷ received rest
received (chunk b ∷ rest) = header 200 ∷ chunk b ∷ rest
received (flushed ∷ rest) = header 200 ∷ flushed ∷ rest
received (envelope reply ∷ rest) = envelope reply ∷ rest

-- target.Write, and whether it returned no error
abbrev pub target_write : List ℕ → Target → Target × Bool
target_write body t = if t.broken then (t, false) else (send (chunk body) t, true)

pub record Writer : Type 0 where
  pub target : Target
  pub status : ℕ
  pub wrote_header : Bool
  pub hold_error : Bool
  pub body : List ℕ

abbrev pub max_error_body : ℕ
max_error_body = 64 * 1024

unfoldable pub write_header : ℕ → Writer → Writer
write_header status w =
    if w.wrote_header
    then w
    else if status == 502
    then record w { wrote_header = true; status = status; hold_error = true }
    else record w { wrote_header = true; status = status; target = send (header status) w.target }

-- A write or a flush before any header sends a 200.
unfoldable pub ensure_header : Writer → Writer
ensure_header w = if w.wrote_header then w else write_header 200 w

-- flushHeldError; the buffer is reset whether or not the write succeeds
unfoldable pub flush_held : Writer → Writer × Bool
flush_held w =
    if w.hold_error
    then (let t = send (header w.status) w.target in
        if length w.body == 0
        then (record w { hold_error = false; target = t }, true)
        else (let (t', done) = target_write w.body t in
            (record w { hold_error = false; target = t'; body = [] }, done)))
    else (w, true)

abbrev pub written : Target × Bool → Writer → Writer × Bool
written (t, done) w = (record w { target = t }, done)

abbrev pub after_flush : List ℕ → Writer × Bool → Writer × Bool
after_flush bytes (w, done) = if done then written (target_write bytes w.target) w else (w, false)

-- Write, where the buffer is full
unfoldable pub write_over : List ℕ → Writer → Writer × Bool
write_over bytes w = after_flush bytes (flush_held w)

-- Write, once a header has been written
unfoldable pub write_body : List ℕ → Writer → Writer × Bool
write_body bytes w =
    if w.hold_error
    then (if leb (length w.body + length bytes) max_error_body
        then (record w { body = w.body ++ bytes }, true)
        else write_over bytes w)
    else written (target_write bytes w.target) w

unfoldable pub write : List ℕ → Writer → Writer × Bool
write bytes w = write_body bytes (ensure_header w)

unfoldable pub flush : Writer → Writer
flush w =
    let w' = ensure_header w in
    if w'.hold_error then w' else record w' { target = send flushed w'.target }

module _ (unavailable : List ℕ → Bool) where
  -- finishHTTP and finishJSONRPC, which differ in the envelope; `unavailable` decodes the body
  unfoldable pub finish : Reply → Writer → Writer
  finish reply w =
      if w.hold_error
      then (if unavailable w.body
          then record w { hold_error = false; target = send (envelope reply) w.target }
          else (flush_held w).0)
      else if w.wrote_header
      then w
      else record w { target = send (header 200) w.target }

abbrev pub core_unavailable : Reply
core_unavailable = http_error 502 "A2A_PROXY_UNAVAILABLE" "Core A2A service is unavailable"

-- What the proxy does with the writer while it serves a request.
pub data Action : Type 0 where
  set_status : ℕ → Action
  send_bytes : List ℕ → Action
  send_flush : Action

unfoldable pub act : Action → Writer → Writer
act (set_status s) w = write_header s w
act (send_bytes bytes) w = (write bytes w).0
act send_flush w = flush w

unfoldable pub act_all : List Action → Writer → Writer
act_all [] w = w
act_all (a ∷ rest) w = act_all rest (act a w)

abbrev pub new_writer : Writer
new_writer = record {
  target = record { sent = []; broken = false };
  status = 0;
  wrote_header = false;
  hold_error = false;
  body = [];
}
