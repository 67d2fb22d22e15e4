-- ===== src/CodexTurn/Tests.antt =====
-- A Codex turn at concrete inputs.
use Prim.Native.String.{String, len}
use openlinker_agent_node.Base.{
  ◌≡◌, ◌≢◌, ◌≤◌, ◌⊎◌, refl, true, List, [], ◌∷◌, none, some, trim_space,
}
use openlinker_agent_node.Base.Int.{negsuc}
use openlinker_agent_node.Base.Result.{ok, err, ◌>>=◌}
use openlinker_agent_node.CodexTurn.{
  session_missing, message_limit, ThreadItem, item_completed, error_event, turn_completed, observed,
  limit_reached,
}
use openlinker_agent_node.CodexTurn.Open.{Replies, rejected, open_thread, open_turn}
use openlinker_agent_node.CodexTurn.Events.{
  rpc_final, last_final, handle_event, Signal, event, client_done, Ending, turn_loop,
}
use openlinker_agent_node.CodexTurn.Answer.{among, offered, completed, final_answer}
use openlinker_agent_node.CodexTurn.Identity.{opened_turn}
use openlinker_agent_node.CodexTurn.Interrupt.{
  Wakeup, turn_started, turn_ended, notice, interrupt, learn_turn, await_end,
}
use openlinker_agent_node.CodexTurn.Interrupt.Own.{announced, interrupts_own_turn}

abbrev thread : String
thread = "t"

abbrev turn : String
turn = "u"

abbrev no_turn : String
no_turn = ""

abbrev yes : String
yes = "yes"

abbrev says : String → ThreadItem
says s = record { kind = "agentMessage"; text = some s; phase = none }

-- Another turn's answer is ignored, and the answer that was queued when the client ended is not.
abbrev signals : List Signal
signals =
    event (item_completed (some (record { thread_id = "t"; turn_id = "u"; item = says " yes " })))
    ∷ event (item_completed (some (record { thread_id = "t"; turn_id = "v"; item = says "no" })))
    ∷ client_done (
        some (
          turn_completed
            (some (record { thread_id = "t"; turn_id = "u"; status = "completed"; items = [] }))))
    ∷ []

abbrev answer : Ending
answer = record { error = none; final = "yes"; reports = observed true (says " yes ") ∷ [] }

ran : turn_loop "t" "u" signals "" ≡ some answer
unfolding turn_loop handle_event rpc_final last_final trim_space
ran = refl

final_answer_example :
    (among (offered "t" "u" signals) "yes" ≡ true) × (yes ≢ "") × (completed "t" "u" signals ≡ true)
final_answer_example = final_answer "t" "u" signals answer ran refl

-- The upstream limit drops what was said before.
limited :
    turn_loop "t" "u"
      (event (
          error_event (
            some (record {
              thread_id = "t";
              turn_id = "u";
              message = "stream: Incomplete response returned, reason: max_messages ";
              details = none;
              will_retry = true;
            })))
        ∷ [])
      "old"
    ≡ some (record { error = some message_limit; final = ""; reports = limit_reached ∷ [] })
unfolding turn_loop handle_event trim_space
limited = refl

abbrev replies : Replies
replies = record {
  resume = λ (s : String). ok "t";
  start = ok "new";
  turn = λ (t : String). ok "u";
}

opened : open_turn replies "t" ≡ ok ("t", "u")
unfolding open_turn open_thread trim_space ◌>>=◌
opened = refl

opened_turn_example :
    ((thread ≡ "") ⊎ (thread ≡ thread))
    × (len "t" ≤ 256)
    × (len "u" ≤ 256)
    × (trim_space "t" ≢ "")
    × (trim_space "u" ≢ "")
opened_turn_example = opened_turn replies "t" "t" "u" opened

missing :
    open_turn
      (record replies {
        resume = λ (s : String). err (rejected (negsuc 32599) "thread not found: gone");
      })
      "gone"
    ≡ err session_missing
unfolding open_turn open_thread ◌>>=◌
missing = refl

abbrev wakeups : List Wakeup
wakeups =
    notice (turn_started (some ("other", "x")))
    ∷ notice (turn_started (some ("t", "u")))
    ∷ notice (turn_ended (some ("t", "u")))
    ∷ []

asked : interrupt "t" true "" wakeups ≡ record { asked = some ("t", "u"); settled = true }
unfolding interrupt learn_turn await_end
asked = refl

asked_turn : (interrupt "t" true "" wakeups).asked ≡ some ("t", "u")
unfolding interrupt learn_turn
asked_turn = refl

interrupts_own_turn_example :
    (thread ≡ thread)
    × (turn ≢ "")
    × ((turn ≡ "") ⊎ ((no_turn ≡ "") × (announced "t" "u" wakeups ≡ true)))
interrupts_own_turn_example = interrupts_own_turn "t" true "" wakeups "t" "u" asked_turn
