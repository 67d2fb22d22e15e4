-- ===== src/Broker/Tests.antt =====
-- A broker with one target, run against a Core that creates Runs, and the theorems at it.
use openlinker_agent_node.Base.{
  ℕ, ◌+◌, String, ◌≡◌, refl, ◌≢◌, Bool, true, false, List, [], ◌∷◌, Option, none, some, is_some,
  arith, eq_iff, length, All, ◌≤◌, ◌⊎◌, trim_space, if◌then◌else◌, str_eq,
}
use openlinker_agent_node.Base.Int.{pos}
use openlinker_agent_node.Base.Assoc.{lookup, put}
use openlinker_agent_node.Base.Result.{ok, err}
use openlinker_agent_node.Patterns.{is_uuid}
use openlinker_agent_node.Patterns.Laws.{IsIdCode, is_uuid_shape}
use openlinker_agent_node.Broker.{success, core, Request, Delegation, Broker, Codec, Outside}
use openlinker_agent_node.Broker.Validation.{
  validate_targets, validate_targets_sound, IsTarget, Distinct,
}
use openlinker_agent_node.Broker.Ledger.{settle, settle_one, mark_terminal}
use openlinker_agent_node.Broker.Ledger.Count.{open_count}
use openlinker_agent_node.Broker.Ledger.Ended.{AllEnded}
use openlinker_agent_node.Broker.Reads.Waiting.{IsClock}
use openlinker_agent_node.Broker.Complete.{ensure_complete, ensure_complete_sound}
use openlinker_agent_node.Broker.Call.{call_with_binding, call_delegate, call_read}
use openlinker_agent_node.Broker.Reads.{read_delegated, read_loop, wait_time}
use openlinker_agent_node.Broker.Delegate.Invariant.{IsLedger}
use openlinker_agent_node.Broker.Delegate.Retries.{conflict, unresolved_blocks}
use openlinker_agent_node.Broker.Tools.Binding.{key_binds_request}
use openlinker_agent_node.Broker.Delegate.Refusals.{
  IsAcceptable, IsNew, IsRetry, with_call, creation_permitted, IsFreed, failed_creation_frees_key,
}
use openlinker_agent_node.Broker.Tools.{call_tool}
use openlinker_agent_node.Broker.Tools.Reachable.{
  Operation, tool, complete, perform, serve, serve-IsLedger, serve-ends,
}
use openlinker_agent_node.Broker.Delegate.{
  delegate, accepted, retry_first, create, conclude, record_summary, open_request, pending,
}

abbrev agent : String
agent = "11111111-1111-4111-8111-111111111111"

abbrev child : String
child = "22222222-2222-4222-8222-222222222222"

-- JSON as the identity on the texts used here
abbrev codec : Codec
codec = record {
  canonical = λ q. q.reason;
  sha256 = λ s. s;
  encode = λ v. some v;
  summary = λ v. some (record { run_id = v; rest = "" });
  delegation = λ v. some (record { target = agent; input = some v; reason = ""; key = "k" });
  reading = λ v. some (record { child_run_id = v; wait_ms = pos 0 });
  bound_call = λ v. none;
}

-- The world is the time in seconds. Core creates the child, and the child ends at second 3.
abbrev core_up : Outside ℕ
core_up = record {
  call_agent = λ target input options w. (ok child, w);
  read_run = λ id w. (ok (some (record { status = success; output = "done" })), w);
  canceled = λ w. false;
  now = λ w. w;
  sleep = λ d w. w + d;
  on_tools = none;
  tool_used = none;
}

-- A Core whose answers get lost.
abbrev core_down : Outside ℕ
core_down = record {
  call_agent = λ target input options w. (err (core 502 "BAD_GATEWAY"), w);
  read_run = λ id w. (err (core 502 "BAD_GATEWAY"), w);
  canceled = λ w. false;
  now = λ w. w;
  sleep = λ d w. w + d;
  on_tools = none;
  tool_used = none;
}

abbrev fresh : Broker
fresh = record {
  run_id = child;
  targets = agent ∷ [];
  bound_tools = [];
  tools_ready = false;
  requests = [];
}

abbrev ask : String → Delegation
ask key = record { target = agent; input = some "{}"; reason = "why"; key = key }

is_uuid_shape_example :
    (length (openlinker_agent_node.Base.codes agent) ≡ 36)
    × All IsIdCode (openlinker_agent_node.Base.codes agent)
unfolding is_uuid
is_uuid_shape_example = is_uuid_shape agent refl

abbrev entry : Request
entry = record {
  digest = "why";
  run_id = child;
  terminal = false;
  summary = record { run_id = child; rest = "" };
}

abbrev busy : Broker
busy = record fresh { requests = ("a", entry) ∷ [] }

creates : delegate codec core_up none (ask "a") fresh 0 ≡ (ok entry.summary, busy, 0)
unfolding delegate open_request create conclude record_summary settle accepted lookup put trim_space
    is_uuid
creates = refl

-- The child has ended and the parent Run has been checked in between.
abbrev ended : Broker
ended = record fresh { requests = ("a", record entry { terminal = true }) ∷ [] }

key_binds_request_example :
    delegate codec core_up none (ask "a") ended 7
    ≡ ((if str_eq "why" "why" then ok entry.summary else err conflict), ended, 7)
unfolding serve perform call_tool call_with_binding call_read read_delegated read_loop wait_time
    mark_terminal ensure_complete delegate open_request create conclude record_summary settle
    settle_one accepted lookup put trim_space is_uuid
key_binds_request_example =
    key_binds_request codec core_up none none (ask "a") (ask "a") fresh ended 0 0 7
      (tool "wait_delegated_run" child ∷ complete ∷ []) refl refl refl refl

abbrev waiting : Broker
waiting = record fresh { requests = ("a", pending "why") ∷ [] }

waiting-IsLedger : IsLedger waiting.requests
waiting-IsLedger = ground arith

unresolved_blocks_example :
    delegate codec core_up none (ask "b") waiting 0 ≡ (err retry_first, waiting, 0)
unfolding lookup accepted trim_space
unresolved_blocks_example =
    unresolved_blocks codec core_up none (ask "b") waiting 0 "a" (pending "why") waiting-IsLedger
      refl refl refl (omega arith) refl

failed_creation_frees_key_example :
    (IsFreed (core 502 "BAD_GATEWAY") false (ask "a") "a"
      → lookup "a" (create codec core_down false none (ask "a") "why" waiting 0).1.requests ≡ none)
    × (¬ (IsFreed (core 502 "BAD_GATEWAY") false (ask "a") "a")
        → lookup "a" (create codec core_down false none (ask "a") "why" waiting 0).1.requests
          ≡ lookup "a" waiting.requests)
failed_creation_frees_key_example =
    failed_creation_frees_key codec core_down none (ask "a") waiting 0 "why"
      (core 502 "BAD_GATEWAY") refl false "a"

creation_permitted_example :
    (delegate codec core_up none (ask "a") fresh 0
      ≡ delegate codec (with_call core_down.call_agent core_up) none (ask "a") fresh 0)
    ⊎ (IsAcceptable none (ask "a") fresh
        × (IsNew codec core_up none (ask "a") fresh 0
            ⊎ IsRetry codec core_up none (ask "a") fresh 0))
creation_permitted_example =
    creation_permitted codec core_up none (ask "a") fresh 0 core_down.call_agent

ensure_complete_sound_example :
    (open_count (ensure_complete core_up busy 0).1.requests ≡ 0)
    × ((busy.bound_tools ≡ []) ⊎ (busy.tools_ready ≡ true))
    × AllEnded core_up busy.requests 0
unfolding ensure_complete settle
ensure_complete_sound_example = ensure_complete_sound core_up busy 0 refl

validate_targets_sound_example :
    (length (agent ∷ []) ≤ 32) × All IsTarget (agent ∷ []) × Distinct [] (agent ∷ [])
unfolding validate_targets is_uuid
validate_targets_sound_example = validate_targets_sound (agent ∷ []) refl

abbrev operations : List Operation
operations = tool "delegate_agent" "{}" ∷ tool "wait_delegated_run" child ∷ complete ∷ []

abbrev served : Broker
served = record fresh { requests = ("k", record entry { digest = ""; terminal = true }) ∷ [] }

serve-IsLedger_example : IsLedger served.requests
unfolding serve perform call_tool call_with_binding call_delegate call_read read_delegated read_loop
    wait_time mark_terminal ensure_complete delegate open_request create conclude record_summary
    settle accepted lookup put trim_space is_uuid
serve-IsLedger_example = serve-IsLedger codec core_up operations fresh served 0 0 refl refl

core_up-IsClock : IsClock core_up
core_up-IsClock = record { read_later = λ id w. omega arith; sleeps = λ d w h. omega arith }

serve-ends_example : is_some (serve codec core_up operations fresh 0) ≡ true
serve-ends_example = serve-ends codec core_up core_up-IsClock operations fresh 0
