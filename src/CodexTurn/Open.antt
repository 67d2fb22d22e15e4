-- ===== src/CodexTurn/Open.antt =====
-- How Run in pkg/adapters/codexturn/turn.go opens the thread and the turn.
use Prim.Native.String
use Prim.Native.String.{String, len}
use openlinker_agent_node.Base.{
  Bool, false, ◌&&◌, ◌||◌, not, ltb, ◌==◌, if◌then◌else◌, str_eq, trim_space,
}
use openlinker_agent_node.Base.Int.{ℤ, negsuc}
use openlinker_agent_node.Base.Result.{Result, ok, err, ◌>>=◌, refuse}
use openlinker_agent_node.CodexTurn.{
  TurnError, session_missing, different_thread, invalid_thread_id, invalid_turn_id, client,
}

-- An error of a call: the app-server's, by its code and text, or another one.
pub data CallError : Type 0 where
  rejected : ℤ → String → CallError
  call_failed : CallError

-- the code -32600, which is negsuc 32599
abbrev is_invalid_request : ℤ → Bool
is_invalid_request (negsuc n) = n == 32599
is_invalid_request _ = false

-- the replies to thread/resume, thread/start and turn/start: an ID each
pub record Replies : Type 0 where
  pub resume : (session_id : String) → Result CallError String
  pub start : Result CallError String
  pub turn : (thread_id : String) → Result CallError String

-- the two texts that say that a thread is gone
abbrev pub names_missing : (session_id text : String) → Bool
names_missing session_id text =
    str_eq text (String.◌++◌ "no rollout found for thread id " session_id)
    || str_eq text (String.◌++◌ "thread not found: " session_id)

abbrev pub resume_error : (session_id : String) → CallError → TurnError
resume_error session_id call_failed = client
resume_error session_id (rejected code text) =
    if is_invalid_request code && names_missing session_id text then session_missing else client

abbrev pub resumed : (session_id : String) → Result CallError String → Result TurnError String
resumed session_id (err e) = err (resume_error session_id e)
resumed session_id (ok thread) =
    if str_eq thread session_id then ok thread else err different_thread

abbrev pub called : Result CallError String → Result TurnError String
called (err e) = err client
called (ok id) = ok id

abbrev pub bad_id : String → Bool
bad_id id = str_eq (trim_space id) "" || ltb 256 (len id)

module _ (r : Replies) where
  unfoldable pub open_thread : (session_id : String) → Result TurnError String
  open_thread session_id =
      if not (str_eq session_id "")
      then resumed session_id (r.resume session_id)
      else called r.start

  -- the thread and the turn, once the connection is initialized
  unfoldable pub open_turn : (session_id : String) → Result TurnError (String × String)
  open_turn session_id = do
    thread ← open_thread session_id
    _ ← refuse (bad_id thread) invalid_thread_id
    turn ← called (r.turn thread)
    _ ← refuse (bad_id turn) invalid_turn_id
    ok (thread, turn)
