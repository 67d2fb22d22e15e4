-- ===== src/CodexTurn/Interrupt.antt =====
-- interruptCodexRPC of pkg/adapters/codexturn/turn.go.
pub mod Own
use openlinker_agent_node.Base.{
  String, Bool, true, false, ◌&&◌, List, [], ◌∷◌, Option, none, some, if◌then◌else◌, str_eq,
}

-- turn/started and turn/completed by thread and turn; `none` does not decode
pub data Notice : Type 0 where
  turn_started turn_ended : Option (String × String) → Notice
  other_notice : Notice

-- What a select gives: the timeout, the end of the client, or a notification.
pub data Wakeup : Type 0 where
  timed_out client_closed : Wakeup
  notice : Notice → Wakeup

-- the turn that was asked to stop, and whether its end was seen
pub record Interruption : Type 0 where
  pub asked : Option (String × String)
  pub settled : Bool

abbrev pub nothing_asked : Interruption
nothing_asked = record { asked = none; settled = false }

module _ (thread_id : String) where
  -- the last loop: until the turn has ended
  unfoldable pub await_end : (turn_id : String) → List Wakeup → Bool
  await_end turn_id [] = false
  await_end turn_id (timed_out ∷ rest) = false
  await_end turn_id (client_closed ∷ rest) = false
  await_end turn_id (notice (turn_ended (some (thread, turn))) ∷ rest) =
      let later = await_end turn_id rest in
      if str_eq thread thread_id && str_eq turn turn_id then true else later
  await_end turn_id (notice _ ∷ rest) = await_end turn_id rest

  -- the call of turn/interrupt and the wait after it, where it is accepted
  abbrev pub ask : (accepted : Bool) → (turn_id : String) → List Wakeup → Interruption
  ask accepted turn_id rest = record {
    asked = some (thread_id, turn_id);
    settled = accepted && await_end turn_id rest;
  }

  -- the first loop: until the turn's ID is known
  unfoldable pub learn_turn : (accepted : Bool) → List Wakeup → Interruption
  learn_turn accepted [] = nothing_asked
  learn_turn accepted (timed_out ∷ rest) = nothing_asked
  learn_turn accepted (client_closed ∷ rest) = nothing_asked
  learn_turn accepted (notice (turn_started (some (thread, turn))) ∷ rest) =
      let later = learn_turn accepted rest in
      if str_eq thread thread_id
      then (if str_eq turn "" then later else ask accepted turn rest)
      else later
  learn_turn accepted (notice _ ∷ rest) = learn_turn accepted rest

  unfoldable pub interrupt : (accepted : Bool) → (turn_id : String) → List Wakeup → Interruption
  interrupt accepted turn_id wakeups =
      if str_eq thread_id ""
      then nothing_asked
      else if str_eq turn_id ""
      then learn_turn accepted wakeups
      else ask accepted turn_id wakeups
