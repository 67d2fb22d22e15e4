-- ===== src/Node/Tests.antt =====
-- The node at concrete inputs.
use Prim.Native.String.{String}
use openlinker_agent_node.Base.{
  is_some, not, ◌≡◌, ◌≢◌, refl, true, false, ◌&&◌, [], ◌∷◌, Option, none, some, str_eq,
}
use openlinker_agent_node.Base.Assoc.{lookup}
use openlinker_agent_node.Sessions.{Conversation}
use openlinker_agent_node.Node.{Values, Output, Raw}
use openlinker_agent_node.Node.Results.{normalize_adapter_result}
use openlinker_agent_node.Node.Handling.{
  IsGiven, IsClosedFor, conclude_run, Assignment, NodeRun, Ending, run_context, handle_assignment,
  assignment_contained,
}
use openlinker_agent_node.Node.Lifecycle.{
  Node, Calls, start_node, use_steps, fresh, released, start_releases, parts_fine, stops_fine,
}

-- values are texts
abbrev texts : Values String
texts = record {
  is_nil = λ v. str_eq v "null";
  sprint = λ v. elim v [ none ↦ "<nil>" | some s ↦ s ];
  as_array = λ _. none;
  as_object = λ _. none;
  as_events = λ _. none;
  json_map = λ _. none;
}

abbrev core_conversation : Option String → Option (Conversation String)
core_conversation none = none
core_conversation (some key) = some (record {
  id = "c";
  session_key = key;
  protocol_context_id = "";
  root_context_id = "";
  current_run_id = "run-1";
  history_before_current = [];
  source = "core";
})

abbrev assignment : Assignment String
assignment = record {
  run_id = "run-1";
  agent_id = "agent-1";
  metadata = ("a2a", "x") ∷ ("team", "blue") ∷ ("conversation", "key") ∷ [];
  reads_delegated = false;
}

abbrev panicking : NodeRun String String → Ending String
panicking _ = Ending.panics

assignment_contained_example :
    (r : NodeRun String String) × IsGiven assignment (some "olh_a") r
    × ((adapter : NodeRun String String → Ending String)
        → let o =
            handle_assignment texts core_conversation (some "olh_a") adapter assignment [] [] in
          (o.0 ≡ conclude_run texts core_conversation (adapter r))
          × (o.0.status ≢ "")
          × IsClosedFor (some "olh_a") o.1)
assignment_contained_example =
    assignment_contained texts core_conversation (some "olh_a") assignment [] []

-- A panic is a failure.
contained_panic :
    (handle_assignment texts core_conversation none panicking assignment [] []).0.status ≡ "failed"
unfolding handle_assignment conclude_run
contained_panic = refl

filtered : (run_context texts core_conversation none assignment).metadata ≡ ("team", "blue") ∷ []
unfolding run_context
filtered = refl

-- The error of a map is neither an error of the result nor part of its output.
dropped_error :
    (normalize_adapter_result texts
        (Raw.object (("status", "failed") ∷ ("error", "boom") ∷ ("note", "n") ∷ []))
      ≡ record {
        status = "failed";
        output = Output.fields (("note", "n") ∷ []);
        events = [];
        error = none;
      })
unfolding normalize_adapter_result lookup
dropped_error = refl

abbrev node : Node
node = record { has_adapter = true; has_helper = true; has_listener = true; started = false }

-- The listener does not take its proxy.
abbrev refusing : Calls
refusing = record {
  preflight = true;
  new_worker = true;
  helper_start = true;
  new_proxy = true;
  set_proxy = false;
  listener_start = true;
  worker_start = true;
  helper_stop = true;
  listener_stop = false;
}

start_releases_example :
    let o = start_node node refusing in
    (use_steps o.0.1 fresh ≡ released)
    × (o.1.started ≡ false)
    × (is_some o.0.0 ≡ not (parts_fine node refusing && stops_fine node refusing))
start_releases_example = start_releases node refusing refl refl
