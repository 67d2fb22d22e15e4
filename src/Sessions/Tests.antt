-- ===== src/Sessions/Tests.antt =====
-- The sessions at concrete inputs.
use Prim.Native.String.{String}
use openlinker_agent_node.Base.{
  ℕ, ◌≤◌, ◌≡◌, refl, true, false, List, [], ◌∷◌, Option, none, some, map, length, str_eq, eq_iff,
  arith, trim_space,
}
use openlinker_agent_node.Base.Assoc.{lookup, put}
use openlinker_agent_node.Sessions.{Sessions, Conversation, RunContext}
use openlinker_agent_node.Sessions.History.{
  contains, remember_history, unseen_history, history_not_lost,
}
use openlinker_agent_node.Sessions.Store.{File, read_store, write_store, update}
use openlinker_agent_node.Sessions.Scope.{
  load_session, save_session, saved, remember_runs, take_text, conversation_session_key,
  provider_session_scope, run_with_session_history,
}
use openlinker_agent_node.Sessions.Continuity.{saved_session_resumes}

-- a message whose key is its content
abbrev content : String → String
content m = m

abbrev history : List String
history = "a" ∷ "b" ∷ "c" ∷ []

history_not_lost_example :
    let seen = remember_history content 2 ("x" ∷ []) history in
    (length seen ≤ 2)
    × (contains (map content (unseen_history content ("c" ∷ "d" ∷ []) seen)) "d" ≡ true)
history_not_lost_example =
    history_not_lost content 2 ("x" ∷ []) history ("c" ∷ "d" ∷ []) "d" (omega arith) refl refl

-- The two latest keys stay; the evicted "a" is sent again.
cursor :
    (remember_history content 2 ("x" ∷ []) history ≡ "b" ∷ "c" ∷ [])
    × (unseen_history content ("a" ∷ "b" ∷ "d" ∷ []) ("b" ∷ "c" ∷ []) ≡ "a" ∷ "d" ∷ [])
unfolding remember_history unseen_history
cursor = (refl, refl)

abbrev talk : Conversation String
talk = record {
  id = "i";
  session_key = " k ";
  protocol_context_id = "";
  root_context_id = "";
  current_run_id = "run";
  history_before_current = history;
  source = "core";
}

abbrev some_run : RunContext String
some_run = record {
  run_id = "run";
  agent_id = "agent";
  principal = some "p";
  conversation = some talk;
  packages_loaded = false;
}

abbrev unit_size : Sessions → ℕ
unit_size s = 100

abbrev after_save : Option File
after_save = some (record {
  regular = true;
  private = true;
  owned = true;
  size = 100;
  content = some (
      (
        "key",
        record {
          session_id = "s1";
          session_key_hash = "key";
          workspace = "/w";
          client_mode = "standard";
          client_mode_generation = 1;
          history_seen = history;
          updated_at = "now";
        },
      )
      ∷ []);
})

stored :
    save_session content unit_size true "key" "/w" " s1" "standard" "now" 0 (some_run ∷ []) none
    ≡ (true, after_save)
unfolding save_session saved update write_store read_store remember_runs remember_history take_text
    lookup put trim_space
stored = refl

saved_session_resumes_example :
    (load_session "key" (trim_space "standard") after_save
      ≡ record { session_id = trim_space " s1"; generation = 1; mode_changed = false })
    × ((other : String)
        → str_eq (trim_space "standard") other ≡ false
        → load_session "key" other after_save
          ≡ record { session_id = ""; generation = 2; mode_changed = true })
    × ((other mode : String)
        → str_eq "key" other ≡ false
        → load_session other mode after_save ≡ load_session other mode none)
unfolding trim_space
saved_session_resumes_example =
    saved_session_resumes unit_size true content "key" "/w" " s1" "standard" "now" 0 (some_run ∷ [])
      none after_save (ground (arith, eq_iff "s1" "")) refl refl
      (ground (arith, eq_iff "standard" "")) stored

abbrev first_part : List String → String
first_part [] = ""
first_part (p ∷ ps) = p

-- Without Core's authority no session is kept.
scopes :
    (provider_session_scope first_part "codex" false some_run
      ≡ ("codex/principal-v1", "provider-principal-v1"))
    × (provider_session_scope first_part "codex" false (record some_run { principal = none })
        ≡ ("codex/principal-v1", ""))
    × (provider_session_scope first_part "codex" true some_run ≡ ("codex", "k"))
unfolding provider_session_scope conversation_session_key trim_space
scopes = (refl, refl, refl)

-- The session that is resumed is told only what it has not seen.
told :
    (run_with_session_history content some_run "key" "s1" after_save).conversation
    ≡ some (record talk { history_before_current = [] })
unfolding run_with_session_history unseen_history read_store lookup
told = refl
