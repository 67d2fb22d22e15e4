-- ===== src/CodexTurn/Events.antt =====
-- The event loop of Run in pkg/adapters/codexturn/turn.go.
use openlinker_agent_node.Base.{
  String, Bool, true, false, ◌&&◌, ◌||◌, not, List, [], ◌∷◌, ◌++◌, Option, none, some,
  if◌then◌else◌, str_eq, trim_space, has_suffix,
}
use openlinker_agent_node.CodexTurn.{
  TurnError, invalid_item, invalid_notification, invalid_completed, message_limit, no_final,
  interrupted, failed_turn, invalid_status, context, client, ThreadItem, ItemNote, ErrorNote,
  TurnNote, Event, item_started, item_completed, error_event, turn_completed, other_event, Report,
  observed, limit_reached, retrying,
}

abbrev final_phase : Option String → Bool
final_phase none = true
final_phase (some phase) = str_eq phase "final_answer"

abbrev final_text : Bool → Option String → String
final_text false text = ""
final_text true none = ""
final_text true (some text) = trim_space text

-- codexRPCFinal
unfoldable pub rpc_final : ThreadItem → String
rpc_final item = final_text (str_eq item.kind "agentMessage" && final_phase item.phase) item.text

abbrev pub keep_text : (final text : String) → String
keep_text final text = if str_eq text "" then final else text

-- the loop over the items of a completed turn
unfoldable pub last_final : (final : String) → List ThreadItem → String
last_final final [] = final
last_final final (i ∷ is) = last_final (keep_text final (rpc_final i)) is

abbrev is_incomplete : String → Bool
is_incomplete s = has_suffix (trim_space s) "Incomplete response returned, reason: max_messages"

abbrev incomplete_details : Option String → Bool
incomplete_details none = false
incomplete_details (some s) = is_incomplete s

abbrev pub hit_limit : ErrorNote → Bool
hit_limit n = is_incomplete n.message || incomplete_details n.details

-- What follows an event: the loop goes on, or the turn ends, with an answer or an error.
pub data Next : Type 0 where
  continue : Next
  answered : Next
  ended : TurnError → Next

pub record Handled : Type 0 where
  pub next : Next
  pub final : String
  pub reports : List Report

abbrev pub go_on : (final : String) → List Report → Handled
go_on final reports = record { next = continue; final = final; reports = reports }

abbrev pub stop : TurnError → (final : String) → List Report → Handled
stop e final reports = record { next = ended e; final = final; reports = reports }

-- What the loop's selects give it: an event, the end of the request's context, or the end of the
-- client, with an event that is still queued.
pub data Signal : Type 0 where
  event : Event → Signal
  context_done : Signal
  client_done : Option Event → Signal

pub record Ending : Type 0 where
  pub error : Option TurnError
  pub final : String
  pub reports : List Report

module _ (thread_id turn_id : String) where
  abbrev pub in_scope : (thread turn : String) → Bool
  in_scope thread turn = str_eq thread thread_id && str_eq turn turn_id

  abbrev pub handle_item : (completed : Bool) → Option ItemNote → (final : String) → Handled
  handle_item completed none final = stop invalid_item final []
  handle_item completed (some n) final =
      if not (in_scope n.thread_id n.turn_id)
      then go_on final []
      else go_on (if completed then keep_text final (rpc_final n.item) else final)
          (observed completed n.item ∷ [])

  abbrev pub handle_error : Option ErrorNote → (final : String) → Handled
  handle_error none final = stop invalid_notification final []
  handle_error (some n) final =
      if not (in_scope n.thread_id n.turn_id)
      then go_on final []
      else if hit_limit n
      then stop message_limit "" (limit_reached ∷ [])
      else go_on final (if n.will_retry then retrying ∷ [] else [])

  abbrev pub with_answer : (final : String) → Handled
  with_answer final =
      if str_eq final ""
      then stop no_final final []
      else record { next = answered; final = final; reports = [] }

  abbrev pub handle_turn : Option TurnNote → (final : String) → Handled
  handle_turn none final = stop invalid_completed final []
  handle_turn (some n) final =
      if not (in_scope n.thread_id n.turn_id)
      then go_on final []
      else if str_eq n.status "completed"
      then with_answer (last_final final n.items)
      else if str_eq n.status "interrupted"
      then stop interrupted final []
      else if str_eq n.status "failed"
      then stop failed_turn final []
      else stop invalid_status final []

  -- the function `handle`
  unfoldable pub handle_event : Event → (final : String) → Handled
  handle_event (item_started n) final = handle_item false n final
  handle_event (item_completed n) final = handle_item true n final
  handle_event (error_event n) final = handle_error n final
  handle_event (turn_completed n) final = handle_turn n final
  handle_event other_event final = go_on final []

  abbrev pub after : Next → String → List Report → Option Ending → Option Ending
  after continue final reports none = none
  after continue final reports (some e) = some (record e { reports = reports ++ e.reports })
  after answered final reports rest =
      some (record { error = none; final = final; reports = reports })
  after (ended e) final reports rest =
      some (record { error = some e; final = final; reports = reports })

  abbrev pub ends_empty : TurnError → Option Ending
  ends_empty e = some (record { error = some e; final = ""; reports = [] })

  -- The loop, on the signals in the order in which it takes them; none where it waits for more.
  unfoldable pub turn_loop : List Signal → (final : String) → Option Ending
  turn_loop [] final = none
  turn_loop (context_done ∷ rest) final = ends_empty context
  turn_loop (client_done none ∷ rest) final = ends_empty client
  turn_loop (client_done (some e) ∷ rest) final =
      let h = handle_event e final in after h.next h.final h.reports (turn_loop rest h.final)
  turn_loop (event e ∷ rest) final =
      let h = handle_event e final in after h.next h.final h.reports (turn_loop rest h.final)
