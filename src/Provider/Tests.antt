-- ===== src/Provider/Tests.antt =====
-- A Codex provider with isolation, a round of the gate and a run with delegation, and the theorems
-- at them.
use openlinker_agent_node.Base.{
  List, String, ℕ, ◌+◌, ◌≤◌, ◌≡◌, refl, sym, ap, Bool, true, false, [], ◌∷◌, none, some, All, ◌⊎◌,
  ◌≢◌, trim_space,
}
use openlinker_agent_node.Base.Result.{ok}
use openlinker_agent_node.Config.Sandbox.{SandboxConfig, native, safe_path}
use openlinker_agent_node.Broker.{success, Broker, Outside}
use openlinker_agent_node.Broker.Complete.{ensure_complete}
use openlinker_agent_node.Broker.Ledger.{settle}
use openlinker_agent_node.Broker.Ledger.Count.{open_count}
use openlinker_agent_node.Provider.{ProviderConfig, ProviderRun}
use openlinker_agent_node.Provider.Scope.{scope_name, scope_text, framed, decimal, byte_size}
use openlinker_agent_node.Provider.Storage.{
  Place, control_name, open_client, placed, Made, OpenCalls, open_session, open_locked, open_temp,
  with_lock, private_root, private_directory, git_worktree, good_temp_root, takes_lock,
  makes_policy, makes_temp,
}
use openlinker_agent_node.Provider.Gate.{
  Attempt, Round, acquired, busy, locks, says_waiting, admitted, still_waiting, valid_host_auth,
  acquire_permit, wait_for_permit, try_lock, say_waiting, holds_lock, is_admitted, messages, IsBusy,
  permit_fair,
}
use openlinker_agent_node.Provider.Isolated.{
  Prepared, prepare_isolated, open_isolated, valid_isolation, isolatable, trusted_run, scope_parts,
  isolated_config,
}
use openlinker_agent_node.Provider.Isolated.Apart.{Clash, IsIsolated, Agree, storage_apart}
use openlinker_agent_node.Provider.Delegating.{
  complete, is_success, RunCalls, completion_of, delegated_run, after_provider, early_receipt,
  check_completion, delegated_success,
}

abbrev all_valid : SandboxConfig → Bool
all_valid c = true

abbrev any_endpoint : ProviderConfig → Bool
any_endpoint c = true

abbrev codex : ProviderConfig
codex = record {
  provider = "codex";
  session_isolation = record {
    mode = native;
    root = "/var/lib/node";
    namespace = "n";
    runtime_bin = "";
    temp_root = "";
    read_paths = [];
    allowed_domains = [];
  };
  host_auth_concurrency = "serial";
  session_reuse = true;
  session_store = "";
  delegation_targets = [];
  delegation_socket = "";
  env_allowlist = [];
  allowed_tools = "Read" ∷ [];
  codex_base_url = "";
  claude_base_url = "";
  workspace = "";
  sandbox = "danger-full-access";
  codex_approval = "";
  permission = "";
}

abbrev some_run : ProviderRun (Unit {0})
some_run = record {
  principal = some "p";
  agent_id = "agent";
  run_id = "run";
  conversation = some (record {
    id = "i";
    session_key = "k";
    protocol_context_id = "";
    root_context_id = "";
    current_run_id = "run";
    history_before_current = [];
    source = "core";
  });
}

abbrev private : Made
private = record {
  there = true;
  info = some (record {
    directory = true;
    symlink = false;
    shared = false;
    writable = false;
    sticky = false;
    owned = true;
  });
}

-- every call succeeds
abbrev calls : OpenCalls
calls = record {
  live = true;
  valid = true;
  runtime = true;
  root = record {
    parents_made = true;
    itself = private;
    resolved = some "/var/lib/node";
    ancestors = private.info ∷ [];
    git_here = false;
    git_above = false ∷ [];
  };
  temp_root = none;
  control = λ name. private;
  locked = true;
  data_directory = private;
  parts = private ∷ [];
  policy = true;
  runner = true;
  temp = true;
  temp_resolved = true;
}

-- as if SHA-256 were the identity
abbrev plain : List ℕ → List ℕ
plain x = x

abbrev workspace_in : Place → String
workspace_in place = "/w"

abbrev store_in : Place → String
store_in place = "/s"

abbrev ready : Prepared
ready = record {
  config = isolated_config "/w" "/s" codex;
  storage = some (record {
    root = "/var/lib/node";
    control = control_name plain "n" (scope_name plain (scope_parts codex some_run));
  });
}

runs :
    prepare_isolated plain workspace_in store_in all_valid any_endpoint codex some_run true calls
      true
    ≡ (some ready, takes_lock ∷ makes_policy ∷ makes_temp ∷ [])
unfolding prepare_isolated open_isolated open_client placed scope_name scope_text framed decimal
    byte_size valid_isolation isolatable trusted_run valid_host_auth open_session open_locked
    open_temp with_lock private_root private_directory git_worktree good_temp_root safe_path
    trim_space
runs = refl

-- the next run of the same conversation
abbrev later_run : ProviderRun (Unit {0})
later_run = record {
  principal = some "p";
  agent_id = "agent";
  run_id = "later";
  conversation = some (record {
    id = "i";
    session_key = "k";
    protocol_context_id = "";
    root_context_id = "";
    current_run_id = "later";
    history_before_current = [];
    source = "core";
  });
}

runs_later :
    prepare_isolated plain workspace_in store_in all_valid any_endpoint codex later_run true calls
      true
    ≡ (some ready, takes_lock ∷ makes_policy ∷ makes_temp ∷ [])
unfolding prepare_isolated open_isolated open_client placed scope_name scope_text framed decimal
    byte_size valid_isolation isolatable trusted_run valid_host_auth open_session open_locked
    open_temp with_lock private_root private_directory git_worktree good_temp_root safe_path
    trim_space
runs_later = refl

storage_apart_example :
    let o =
      prepare_isolated plain workspace_in store_in all_valid any_endpoint codex some_run true calls
        true in
    let u =
      prepare_isolated plain workspace_in store_in all_valid any_endpoint codex later_run true calls
        true in
    IsIsolated plain workspace_in store_in all_valid any_endpoint codex some_run ready o.1
    × IsIsolated plain workspace_in store_in all_valid any_endpoint codex later_run ready u.1
    × (Agree plain workspace_in store_in all_valid any_endpoint codex codex some_run later_run
        ⊎ Clash plain workspace_in store_in all_valid any_endpoint codex codex some_run later_run)
storage_apart_example =
    storage_apart plain workspace_in store_in all_valid any_endpoint codex codex some_run later_run
      true true calls calls true true ready ready (ap (λ o. o.0) runs) (ap (λ o. o.0) runs_later)
      refl refl refl

abbrev round : Attempt → Round
round a = record { done_before = false; attempt = a; done_after = false; done_waiting = false }

-- The lock is busy twice, and one message says so.
waits :
    acquire_permit (some true) true false true (round busy ∷ round busy ∷ round acquired ∷ [])
    ≡ (admitted, says_waiting ∷ locks ∷ [])
unfolding acquire_permit wait_for_permit try_lock say_waiting
waits = refl

permit_fair_example :
    let rounds = round busy ∷ round busy ∷ round acquired ∷ [] in
    let o = acquire_permit (some true) true false true rounds in
    (holds_lock false o.1 ≡ is_admitted o.0)
    × (messages o.1 ≤ 1)
    × ((o.0 ≢ still_waiting) ⊎ All IsBusy rounds)
permit_fair_example =
    permit_fair (some true) false true (round busy ∷ round busy ∷ round acquired ∷ [])

-- A Core that nobody calls.
abbrev quiet_core : Outside ℕ
quiet_core = record {
  call_agent = λ target input options w. (ok "", w);
  read_run = λ id w. (ok (some (record { status = success; output = "" })), w);
  canceled = λ w. false;
  now = λ w. w;
  sleep = λ d w. w + d;
  on_tools = none;
  tool_used = none;
}

abbrev idle_broker : Broker
idle_broker = record {
  run_id = "run";
  targets = "agent" ∷ [];
  bound_tools = [];
  tools_ready = false;
  requests = [];
}

abbrev delegating : RunCalls
delegating = record {
  decoded = true;
  tools = false;
  targets = true;
  resolved = true;
  reads = true;
  started = true;
  provider = record { status = "success"; error = none; go_error = false };
  discovered = false;
  completion = complete;
  emits = none;
}

completes : completion_of (ensure_complete quiet_core idle_broker 0).0 ≡ complete
unfolding ensure_complete settle
completes = refl

succeeds : delegated_run delegating ≡ (delegating.provider, [])
unfolding delegated_run after_provider early_receipt check_completion
succeeds = refl

delegated_success_example :
    ((delegated_run delegating).0 ≡ delegating.provider)
    × (((delegating.tools ≡ false) × (delegating.targets ≡ false))
        ⊎ ((delegating.resolved ≡ true)
            × (delegating.reads ≡ true)
            × (delegating.started ≡ true)
            × (open_count (ensure_complete quiet_core idle_broker 0).1.requests ≡ 0)
            × ((idle_broker.bound_tools ≡ []) ⊎ (idle_broker.tools_ready ≡ true))))
delegated_success_example =
    delegated_success quiet_core delegating idle_broker 0 (sym completes)
      (ap (λ r. is_success r.0) succeeds)
