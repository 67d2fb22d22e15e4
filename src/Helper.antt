-- ===== src/Helper.antt =====
-- The local helper server of a run: internal/agentnode/helper_server.go, and the test of a key in
-- runtime_bridge_util.go. JSON, sockets and the handlers of a run context are outside.
pub mod Sessions
pub mod Scoped
mod Tests
use Prim.Native.String.{String, len, [] as nil, ◌∷◌ as cons}
use openlinker_agent_node.Base.{
  ℕ, zero, suc, Bool, true, false, not, ◌&&◌, ◌||◌, List, [], ◌∷◌, Option, none, some,
  if◌then◌else◌, ltb, leb, ◌==◌, str_eq, any, codes, codes_prefix, map, to_lower_code, trim_space,
}
use openlinker_agent_node.Base.Assoc.{lookup, put, delete}

-- What a RunContext has to send events: emitChecked, Emit or neither.
pub data Sink : Type 0 where
  checked : Sink
  plain : Sink
  no_sink : Sink

-- helperSessionState
pub record HelperSession : Type 0 where
  pub run_id : String
  pub sink : Sink

-- LocalHelperServer, from Start on
pub record HelperServer : Type 0 where
  pub sessions : List (String × HelperSession)
  pub serving : Bool

abbrev pub started : HelperServer
started = record { sessions = []; serving = true }

-- CreateSession, with the random token
unfoldable pub create_session : String → HelperSession → HelperServer → HelperServer
create_session token session s = record s { sessions = put token session s.sessions }

-- the close function of a session
unfoldable pub close_session : String → HelperServer → HelperServer
close_session token s = record s { sessions = delete token s.sessions }

-- Stop
unfoldable pub stop : HelperServer → HelperServer
stop s = record { sessions = []; serving = false }

-- A request, with what its body gives: whether it can be read, its size, and the strict JSON in it.
pub record HelperRequest (Body : Type 0) : Type 0 where
  pub method : String
  pub authorization : String
  pub token_header : String  -- x-openlinker-agent-node-token
  pub readable : Bool
  pub size : ℕ
  pub value : Option Body

pub record EventBody : Type 0 where
  pub run_id : String
  pub event_type : String

pub record CallBody : Type 0 where
  pub run_id : String
  pub target_agent_id : String
  pub idempotency_key : String

-- the response's status and its error code
abbrev pub Reply : Type 0
Reply = ℕ × String

-- What a run context is asked to do.
pub data Effect : Type 0 where
  emits_event : String → String → Effect  -- in that run, of that type
  calls_agent : String → String → String → Effect  -- by that run, the target, with that key

abbrev drop_text : ℕ → String → String
drop_text zero s = s
drop_text (suc n) nil = ""
drop_text (suc n) (cons c s) = drop_text n s

-- the token of a request
unfoldable pub bearer : {B : Type 0} → HelperRequest B → String
bearer q =
    let token =
      if codes_prefix (codes "bearer ") (map to_lower_code (codes q.authorization))
      then trim_space (drop_text 7 q.authorization)
      else "" in
    if str_eq token "" then q.token_header else token

-- authenticate
unfoldable pub authenticate : {B : Type 0} → HelperRequest B → HelperServer → Option HelperSession
unfolding bearer
authenticate q s = let t = bearer q in if str_eq t "" then none else lookup t s.sessions

abbrev pub max_helper_body_bytes : ℕ
max_helper_body_bytes = 1048576

-- decodeHelperJSON
unfoldable pub decode_helper_json : {B : Type 0} → HelperRequest B → Option B
decode_helper_json q = if not q.readable || ltb max_helper_body_bytes q.size then none else q.value

abbrev pub last_code : ℕ → List ℕ → ℕ
last_code c [] = c
last_code c (d ∷ rest) = last_code d rest

-- validateDelegatedIdempotencyKey; a code point that is not ASCII stands for bytes above 0x7e
abbrev pub bad_codes : List ℕ → Bool
bad_codes [] = true
bad_codes (c ∷ rest) =
    c == 32 || last_code c rest == 32 || any (λ d. ltb d 32 || ltb 126 d) (c ∷ rest)

unfoldable pub bad_key : String → Bool
bad_key key = ltb 255 (len key) || bad_codes (codes key)

abbrev pub Answer : Type 0
Answer = Reply × Option Effect

-- `accepted` is whether the run context takes what it is asked, without an error
module _ (accepted : Effect → Bool) where
  -- handleEvent from the session's sink on
  unfoldable pub send_by : Sink → Effect → Answer
  send_by checked e = if accepted e then ((200, ""), some e) else ((422, "EVENT_REJECTED"), some e)
  send_by plain e = ((200, ""), some e)
  send_by no_sink e = ((503, "EVENT_UNAVAILABLE"), none)

  -- the run of a body is empty or the session's own
  abbrev pub other_run : String → HelperSession → Bool
  other_run run_id session = not (str_eq run_id "") && not (str_eq run_id session.run_id)

  unfoldable pub event_in : HelperSession → Option EventBody → Answer
  unfolding send_by
  event_in session none = ((400, "INVALID_JSON"), none)
  event_in session (some body) =
      if other_run body.run_id session
      then ((409, "RUN_MISMATCH"), none)
      else if str_eq body.event_type ""
      then ((400, "INVALID_EVENT"), none)
      else send_by session.sink (Effect.emits_event session.run_id body.event_type)

  -- handleEvent
  unfoldable pub handle_helper_event : HelperRequest EventBody → HelperServer → Answer
  unfolding authenticate decode_helper_json event_in
  handle_helper_event q s =
      if not (str_eq q.method "POST")
      then ((405, "METHOD_NOT_ALLOWED"), none)
      else elim (authenticate q s) [
        | none ↦ ((401, "UNAUTHORIZED"), none)
        | some session ↦ event_in session (decode_helper_json q)
      ]

  unfoldable pub call_in : HelperSession → Option CallBody → Answer
  unfolding bad_key
  call_in session none = ((400, "INVALID_JSON"), none)
  call_in session (some body) =
      if other_run body.run_id session
      then ((409, "RUN_MISMATCH"), none)
      else if str_eq body.target_agent_id ""
      then ((400, "INVALID_TARGET_AGENT"), none)
      else if bad_key body.idempotency_key
      then ((400, "INVALID_IDEMPOTENCY_KEY"), none)
      else (let e = Effect.calls_agent session.run_id body.target_agent_id body.idempotency_key in
          if accepted e then ((200, ""), some e) else ((502, "A2A_CALL_FAILED"), some e))

  -- handleCallAgent
  unfoldable pub handle_call_agent : HelperRequest CallBody → HelperServer → Answer
  unfolding authenticate decode_helper_json call_in
  handle_call_agent q s =
      if not (str_eq q.method "POST")
      then ((405, "METHOD_NOT_ALLOWED"), none)
      else elim (authenticate q s) [
        | none ↦ ((401, "UNAUTHORIZED"), none)
        | some session ↦ call_in session (decode_helper_json q)
      ]
