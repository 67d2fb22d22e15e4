-- ===== src/CodexRpc/Steps.antt =====
-- The steps of the calls, the read loop and the write loop of pkg/adapters/codexrpc/client.go, in
-- any order: each holds the lock or is one operation on a channel. A step that is not enabled
-- leaves the client alone.
use openlinker_agent_node.Base.{
  ℕ, ◌+◌, ◌%◌, ◌^◌, String, Bool, true, false, ◌&&◌, ◌||◌, not, List, [], ◌∷◌, ◌++◌, Option, none,
  some, ltb, leb, ◌==◌, if◌then◌else◌, str_eq, length, is_some,
}
use openlinker_agent_node.Base.Assoc.{lookup, put, delete}
use openlinker_agent_node.CodexRpc.{
  Message, Failure, eof, write_failed, line_too_long, malformed, reply_queue, event_queue,
  invalid_response, duplicate_response, read_failed, Client, max_output_bytes, max_queued_messages,
}
use openlinker_agent_node.CodexRpc.Deny.{deny_request}

-- fail: only the first error counts
abbrev pub fail : Failure → Client → Client
fail e c = if is_some c.err then c else record c { err = some e }

-- the read loop fails and returns
abbrev pub fail_read : Failure → Client → Client
fail_read e c = record (fail e c) { reading = false }

abbrev pub stop_reading : Client → Client
stop_reading c = record c { reading = false }

abbrev pub has_room : {A : Type 0} → List A → Bool
has_room xs = ltb (length xs) max_queued_messages

-- the select on c.writes with a reply; `prefer_done` is its choice where both are ready
unfoldable pub read_request : (prefer_done : Bool) → Message → Client → Client
read_request prefer_done m c =
    if is_some c.err && (prefer_done || not (has_room c.writes))
    then stop_reading c
    else if has_room c.writes
    then record c { writes = c.writes ++ deny_request m ∷ [] }
    else fail_read reply_queue c

-- the select on c.events
unfoldable pub read_notification : (prefer_done : Bool) → Message → Client → Client
read_notification prefer_done m c =
    if is_some c.err && (prefer_done || not (has_room c.events))
    then stop_reading c
    else if has_room c.events
    then record c { events = c.events ++ m ∷ [] }
    else fail_read event_queue c

abbrev pub deliver : Message → Option (Option Message) → Client → Client
deliver m none c = c
deliver m (some none) c = record c { pending = put m.id (some m) c.pending }
deliver m (some (some _)) c = fail_read duplicate_response c

unfoldable pub read_response : Message → Client → Client
read_response m c =
    if str_eq m.id "" || (not (is_some m.error) && str_eq m.result "")
    then fail_read invalid_response c
    else deliver m (lookup m.id c.pending) c

-- A scanned line, by its length; `none` does not decode.
unfoldable pub read_line : (prefer_done : Bool) → (size : ℕ) → Option Message → Client → Client
read_line prefer_done size none c =
    if ltb max_output_bytes size then fail_read line_too_long c else fail_read malformed c
read_line prefer_done size (some m) c =
    if ltb max_output_bytes size
    then fail_read line_too_long c
    else if not (str_eq m.method "")
    then (if not (str_eq m.id "")
        then read_request prefer_done m c
        else read_notification prefer_done m c)
    else read_response m c

-- send, where it does not wait: a message is queued where there is room, unless the select takes
-- the done channel
unfoldable pub send : (prefer_done : Bool) → Message → Client → Client
send prefer_done m c =
    if (is_some c.err && prefer_done) || not (has_room c.writes)
    then c
    else record c { writes = c.writes ++ m ∷ [] }

abbrev pub tail : {A : Type 0} → List A → List A
tail [] = []
tail (x ∷ xs) = xs

pub data Step : Type 0 where
  call_begins : (size : ℕ) → Step  -- the request that is marshalled
  call_sends : (prefer_done : Bool) → Message → Step
  call_receives : (id : String) → Step
  call_returns : (id : String) → Step
  line : (prefer_done : Bool) → (size : ℕ) → Option Message → Step
  stream_ends : (failed : Bool) → Step
  message_written : (failed : Bool) → Step
  event_taken : Step
  client_closes : Step

-- the write loop, after a message: a failure ends the client
abbrev pub wrote : (failed : Bool) → Client → Client
wrote true c = fail write_failed c
wrote false c = c

module _ (format : ℕ → String) where
  -- Call, up to the registration of its ID; the ID, where it is registered
  unfoldable pub begin_call : (size : ℕ) → Client → Option String × Client
  begin_call size c =
      if ltb max_output_bytes size || leb max_queued_messages (length c.pending)
      then (none, c)
      else (let next = (c.next + 1) % 2 ^ 64 in
          (
            some (format next),
            record c { next = next; pending = put (format next) none c.pending },
          ))

  -- the message that a call takes from its channel
  abbrev pub received : Option (Option Message) → (id : String) → Client → Client
  received (some (some m)) id c = record c { pending = put id none c.pending }
  received _ id c = c

  unfoldable pub step : Step → Client → Client
  step (call_begins size) c = (begin_call size c).1
  step (call_sends prefer_done m) c = send prefer_done m c
  step (call_receives id) c = received (lookup id c.pending) id c
  step (call_returns id) c = record c { pending = delete id c.pending }
  step (line prefer_done size m) c = if c.reading then read_line prefer_done size m c else c
  step (stream_ends failed) c =
      if c.reading then fail_read (if failed then read_failed else eof) c else c
  step (message_written failed) c =
      if length c.writes == 0 then c else wrote failed (record c { writes = tail c.writes })
  step event_taken c = record c { events = tail c.events }
  step client_closes c = fail eof c

  unfoldable pub steps : List Step → Client → Client
  steps [] c = c
  steps (s ∷ ss) c = steps ss (step s c)

  -- the ID that a step registers
  abbrev pub registered : Step → Client → Option String
  registered (call_begins size) c = (begin_call size c).0
  registered _ c = none

  -- the IDs that are registered, in order
  unfoldable pub issued : List Step → Client → List String
  issued [] c = []
  issued (s ∷ ss) c =
      let rest = issued ss (step s c) in elim (registered s c) [ none ↦ rest | some id ↦ id ∷ rest ]

abbrev pub new_client : Client
new_client = record { next = 0; pending = []; err = none; events = []; writes = []; reading = true }
