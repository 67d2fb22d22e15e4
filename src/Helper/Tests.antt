-- ===== src/Helper/Tests.antt =====
-- The helper server at concrete requests.
use openlinker_agent_node.Base.{
  ◌≡◌, ◌≢◌, ◌↔◌, refl, Bool, true, List, [], ◌∷◌, none, some, trim_space, to_lower_code,
}
use openlinker_agent_node.Base.Assoc.{lookup, put, delete}
use openlinker_agent_node.Helper.{
  Sink, HelperSession, HelperRequest, EventBody, CallBody, Effect, bearer, authenticate,
  handle_helper_event, handle_call_agent, create_session, close_session,
}
use openlinker_agent_node.Helper.Sessions.{Action, after, IsOpen}
use openlinker_agent_node.Helper.Scoped.{
  authenticate_iff, IsAdmitted, OfRun, IsKey, event_scoped, call_scoped,
}

abbrev session : HelperSession
session = record { run_id = "run-1"; sink = Sink.checked }

abbrev past : List Action
past = Action.creates "olh_a" session ∷ Action.closes "olh_b" ∷ []

abbrev posting : {B : Type 0} → B → HelperRequest B
posting body = record {
  method = "POST";
  authorization = "Bearer  olh_a ";
  token_header = "";
  readable = true;
  size = 100;
  value = some body;
}

abbrev event : EventBody
event = record { run_id = "run-1"; event_type = "run.progress" }

abbrev call : CallBody
call = record { run_id = ""; target_agent_id = "agent-2"; idempotency_key = "k 1" }

abbrev takes : Effect → Bool
takes _ = true

authenticate_iff_example :
    (authenticate (posting event) (after past) ≡ some session)
    ↔ ((bearer (posting event) ≢ "") × IsOpen (bearer (posting event)) session past)
authenticate_iff_example = authenticate_iff (posting event) past session

event_scoped_example :
    (s : HelperSession) × (body : EventBody) × IsAdmitted (posting event) past s body
    × (Effect.emits_event s.run_id body.event_type ≡ Effect.emits_event "run-1" "run.progress")
    × OfRun body.run_id s
    × (body.event_type ≢ "")
    × (s.sink ≢ Sink.no_sink)
unfolding handle_helper_event authenticate bearer after create_session put lookup delete trim_space
    to_lower_code
event_scoped_example =
    event_scoped takes (posting event) past (Effect.emits_event "run-1" "run.progress") refl

call_scoped_example :
    (s : HelperSession) × (body : CallBody) × IsAdmitted (posting call) past s body
    × (Effect.calls_agent s.run_id body.target_agent_id body.idempotency_key
        ≡ Effect.calls_agent "run-1" "agent-2" "k 1")
    × OfRun body.run_id s
    × (body.target_agent_id ≢ "")
    × IsKey body.idempotency_key
unfolding handle_call_agent authenticate bearer after create_session put lookup delete trim_space
    to_lower_code
call_scoped_example =
    call_scoped takes (posting call) past (Effect.calls_agent "run-1" "agent-2" "k 1") refl

-- After its session is closed, or the server stopped, the token opens nothing.
closed :
    (handle_helper_event takes (posting event) (after (Action.closes "olh_a" ∷ past))
      ≡ ((401, "UNAUTHORIZED"), none))
    × (handle_helper_event takes (posting event) (after (Action.stops ∷ past))
        ≡ ((401, "UNAUTHORIZED"), none))
unfolding handle_helper_event authenticate bearer after create_session close_session put lookup
    delete trim_space to_lower_code
closed = (refl, refl)
