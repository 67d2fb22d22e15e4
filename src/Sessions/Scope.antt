-- ===== src/Sessions/Scope.antt =====
-- pkg/adapters/session.go: loading, saving and deleting the session of a conversation.
use Prim.Native.String
use Prim.Native.String.{String}
use openlinker_agent_node.Base.{
  ℕ, suc, zero, ◌+◌, ◌%◌, ◌^◌, Bool, true, false, ◌&&◌, not, List, [], ◌∷◌, Option, none, some,
  ◌==◌, if◌then◌else◌, str_eq, trim_space, is_some,
}
use openlinker_agent_node.Base.Assoc.{lookup, put, delete}
use openlinker_agent_node.Sessions.{Session, Sessions, Conversation, RunContext}
use openlinker_agent_node.Sessions.Store.{File, read_store, update}
use openlinker_agent_node.Sessions.History.{remember_history, unseen_history}

-- s[:n]
unfoldable pub take_text : ℕ → String → String
take_text zero s = ""
take_text (suc n) String.[] = ""
take_text (suc n) (String.◌∷◌ c s) = String.◌∷◌ c (take_text n s)

abbrev pub stored_mode : Session → String
stored_mode r = let mode = trim_space r.client_mode in if str_eq mode "" then "standard" else mode

abbrev pub at_least_one : ℕ → ℕ
at_least_one n = if n == 0 then 1 else n

-- a session to resume, or none; the generation, and whether the mode changed
pub record Loaded : Type 0 where
  pub session_id : String
  pub generation : ℕ
  pub mode_changed : Bool

abbrev pub loaded : (client_mode : String) → Option Session → Loaded
loaded client_mode none = record { session_id = ""; generation = 1; mode_changed = false }
loaded client_mode (some r) =
    if not (str_eq (stored_mode r) client_mode)
    then record {
      session_id = "";
      generation = (at_least_one r.client_mode_generation + 1) % 2 ^ 64;
      mode_changed = true;
    }
    else record {
      session_id = trim_space r.session_id;
      generation = at_least_one r.client_mode_generation;
      mode_changed = false;
    }

-- loadSessionForClientMode, at a key of the store
unfoldable pub load_session : (key client_mode : String) → Option File → Loaded
load_session key client_mode file = loaded client_mode (lookup key (read_store file))

module _ {Message : Type 0} (history_key : Message → String) where
  abbrev remember_run : List String → RunContext Message → List String
  remember_run seen run = elim run.conversation [
    | none ↦ seen
    | some c ↦ remember_history history_key 512 seen c.history_before_current
  ]

  unfoldable pub remember_runs : List String → List (RunContext Message) → List String
  remember_runs seen [] = seen
  remember_runs seen (r ∷ rs) = remember_runs (remember_run seen r) rs

  abbrev seen_before : (session_id : String) → Option Session → List String
  seen_before session_id none = []
  seen_before session_id (some previous) =
      if str_eq previous.session_id session_id then previous.history_seen else []

  -- the record that is saved; `workspace` is cleaned and `now` the time of the write
  unfoldable pub saved :
      (key workspace session_id client_mode now : String)
      → (generation : ℕ) → List (RunContext Message)
      → Option Session
      → Session
  saved key workspace session_id client_mode now generation runs previous = record {
    session_id = session_id;
    session_key_hash = take_text 24 key;
    workspace = workspace;
    client_mode = trim_space client_mode;
    client_mode_generation = at_least_one generation;
    history_seen = remember_runs (seen_before session_id previous) runs;
    updated_at = now;
  }

  -- saveSessionForClientMode, at a key of the store
  unfoldable pub save_session :
      (encoded_size : Sessions → ℕ)
      → (disk : Bool) → (key workspace session_id client_mode now : String) → (generation : ℕ)
      → List (RunContext Message)
      → Option File
      → Bool × Option File
  save_session encoded_size disk key workspace session_id client_mode now generation runs file =
      let id = trim_space session_id in
      if str_eq id ""
      then (true, file)
      else update encoded_size disk
          (λ (s : Sessions).
            some
              (put key (saved key workspace id client_mode now generation runs (lookup key s)) s))
          file

  abbrev pub same_session : (id : String) → Option Session → Bool
  same_session id none = str_eq id ""
  same_session id (some r) = str_eq r.session_id id

  abbrev seen_of : Option Session → List String
  seen_of none = []
  seen_of (some r) = r.history_seen

  abbrev filtered : List String → Conversation Message → Conversation Message
  filtered seen c = record c {
    history_before_current = unseen_history history_key c.history_before_current seen;
  }

  -- runWithSessionHistory
  unfoldable pub run_with_session_history :
      RunContext Message → (key id : String) → Option File → RunContext Message
  run_with_session_history run key id file =
      let run' = record run { packages_loaded = not (str_eq id "") } in
      if str_eq id "" then run' else elim run.conversation [
        | none ↦ run'
        | some c ↦
            let previous = lookup key (read_store file) in
            if same_session id previous
            then record run' { conversation = some (filtered (seen_of previous) c) }
            else run'
      ]

-- deleteSessionID
unfoldable pub delete_session :
    (encoded_size : Sessions → ℕ)
    → (disk : Bool) → (key : String) → Option File
    → Bool × Option File
delete_session encoded_size disk key file =
    update encoded_size disk
      (λ (s : Sessions). if is_some (lookup key s) then some (delete key s) else none) file

first_nonempty : List String → String
first_nonempty [] = ""
first_nonempty (v ∷ vs) =
    let rest = first_nonempty vs in if str_eq (trim_space v) "" then rest else trim_space v

-- conversationSessionKey
unfoldable pub conversation_session_key : {Message : Type 0} → RunContext Message → String
unfolding first_nonempty
conversation_session_key run = elim run.conversation [
  | none ↦ ""
  | some c ↦ first_nonempty (c.session_key ∷ c.root_context_id ∷ c.protocol_context_id ∷ c.id ∷ [])
]

abbrev blank : String → Bool
blank s = str_eq (trim_space s) ""

abbrev is_principal : Option String → Bool
is_principal none = false
is_principal (some p) = not (blank p)

abbrev text_or_empty : Option String → String
text_or_empty none = ""
text_or_empty (some s) = s

abbrev pub is_current : {Message : Type 0} → RunContext Message → Bool
is_current run = elim run.conversation [
  | none ↦ false
  | some c ↦
      str_eq c.source "core" && str_eq c.current_run_id run.run_id && not (blank c.session_key)
]

abbrev pub is_trusted : {Message : Type 0} → RunContext Message → Bool
is_trusted run =
    is_principal run.principal
    && not (blank run.agent_id)
    && not (str_eq run.run_id "")
    && is_current run

-- providerSessionScope; `scope` is sessionsandbox.Scope and `sandboxed` an isolated session
unfoldable pub provider_session_scope :
    {Message : Type 0}
    → (scope : List String → String) → (provider : String) → (sandboxed : Bool) → RunContext Message
    → String × String
provider_session_scope scope provider sandboxed run =
    if sandboxed
    then (provider, conversation_session_key run)
    else (let namespace = String.◌++◌ provider "/principal-v1" in
        if is_trusted run
        then (
          namespace,
          scope (
              "provider-principal-v1"
              ∷ run.agent_id
              ∷ text_or_empty run.principal
              ∷ conversation_session_key run
              ∷ []),
        )
        else (namespace, ""))
