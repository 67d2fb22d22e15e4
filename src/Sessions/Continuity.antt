-- ===== src/Sessions/Continuity.antt =====
-- What is saved for a conversation is what its next run finds.
use Prim.Native.String.{String}
use openlinker_agent_node.Base.{
  ℕ, ◌+◌, ◌%◌, ◌^◌, ◌≡◌, ◌≢◌, refl, sym, ap, ◌∙◌, subst, Bool, true, false, ◌||◌, not, List, Option,
  some, ltb, inl, inr, Bool-cases, if◌then◌else◌, str_eq, eq_iff, eq_refl, arith, trim_space,
}
use openlinker_agent_node.Base.Assoc.{lookup, put, lookup-put}
use openlinker_agent_node.Sessions.{Session, Sessions, RunContext}
use openlinker_agent_node.Sessions.Store.{
  File, max_store_bytes, read_store, write_store, update, unsafe_target,
}
use openlinker_agent_node.Sessions.Scope.{
  loaded, at_least_one, stored_mode, load_session, saved, save_session,
}

abbrev written : (Sessions → ℕ) → Sessions → File
written size s = record {
  regular = true;
  private = true;
  owned = true;
  size = size s;
  content = some s;
}

refused-is_false :
    (file file' : Option File) → ◌≡◌ {A = Bool × Option File} (false, file) (true, file') → ⊥
refused-is_false file file' h =
    let e : false ≡ true = ap (λ (p : Bool × Option File). p.0) h in absurd cc

stored_mode-lem :
    (r : Session) (m : String) → trim_space r.client_mode ≡ m → m ≢ "" → stored_mode r ≡ m
stored_mode-lem r m e given =
    let named : str_eq (trim_space r.client_mode) "" ≡ false =
      ground (arith, e, given, eq_iff (trim_space r.client_mode) "", eq_iff m "") in
    rw named e

loaded-same_mode :
    (r : Session) (m : String)
    → trim_space r.client_mode ≡ m
    → m ≢ ""
    → loaded m (some r) ≡ record {
      session_id = trim_space r.session_id;
      generation = at_least_one r.client_mode_generation;
      mode_changed = false;
    }
loaded-same_mode r m e given =
    let same : str_eq (stored_mode r) m ≡ true =
      (eq_iff (stored_mode r) m).1 (stored_mode-lem r m e given) in
    rw same refl

loaded-other_mode :
    (r : Session) (m other : String)
    → trim_space r.client_mode ≡ m
    → m ≢ ""
    → str_eq m other ≡ false
    → loaded other (some r) ≡ record {
      session_id = "";
      generation = (at_least_one r.client_mode_generation + 1) % 2 ^ 64;
      mode_changed = true;
    }
loaded-other_mode r m other e given differ =
    let off : str_eq (stored_mode r) other ≡ false =
      ap (λ (x : String). str_eq x other) (stored_mode-lem r m e given) ∙ differ in
    rw off refl

at_least_one_again : (n : ℕ) → at_least_one (at_least_one n) ≡ at_least_one n
at_least_one_again n = ground arith

module _ (size : Sessions → ℕ) (disk : Bool) where
  -- What a write that reports success left is what was written.
  write_store-read :
      (s : Sessions) (file file' : Option File)
      → write_store size disk s file ≡ (true, file')
      → read_store file' ≡ s
  unfolding write_store read_store
  write_store-read s file file' h =
      elim (Bool-cases (unsafe_target file || ltb max_store_bytes (size s) || not disk)) [
        | inl bad ↦ absurd (
            refused-is_false file file' (
              ap (λ (b : Bool). if b then (false, file) else (true, some (written size s)))
                (sym bad)
              ∙ h))
        | inr good ↦
            let e : some (written size s) ≡ file' =
              ap (λ (p : Bool × Option File). p.1)
                (ap (λ (b : Bool). if b then (false, file) else (true, some (written size s)))
                    (sym good)
                  ∙ h) in
            let fits : ltb max_store_bytes (size s) ≡ false = ground (arith, good) in
            subst (λ (f : Option File). read_store f ≡ s) e (rw fits refl)
      ]

  update-read :
      (edit : Sessions → Option Sessions) (s : Sessions) (file file' : Option File)
      → edit (read_store file) ≡ some s
      → update size disk edit file ≡ (true, file')
      → read_store file' ≡ s
  unfolding update
  update-read edit s file file' e h = write_store-read s file file' (rw (e, update) at h)

  module _ {Message : Type 0} (history_key : Message → String)
      (key workspace session_id client_mode now : String) (generation : ℕ)
      (runs : List (RunContext Message)) (file file' : Option File) where
    save_session-read :
        trim_space session_id ≢ ""
        → save_session history_key size disk key workspace session_id client_mode now generation
            runs file
          ≡ (true, file')
        → read_store file'
          ≡ put key
              (saved history_key key workspace
                (trim_space session_id)
                client_mode
                now
                generation
                runs
                (lookup key (read_store file)))
              (read_store file)
    unfolding save_session
    save_session-read some_id h =
        let given : str_eq (trim_space session_id) "" ≡ false =
          ground (arith, some_id, eq_iff (trim_space session_id) "") in
        update-read
          (λ (s : Sessions). some (
            put key
              (saved history_key key workspace (trim_space session_id) client_mode now generation
                runs (lookup key s))
              s))
          (put key
            (saved history_key key workspace (trim_space session_id) client_mode now generation runs
              (lookup key (read_store file)))
            (read_store file))
          file file' refl (rw given at h)

    -- A session that was saved, under an ID and a mode without surrounding space, is what a run in
    -- the same mode resumes; a run in another mode starts afresh with the next generation, and every
    -- other conversation finds what it would have found before.
    pub saved_session_resumes :
        trim_space session_id ≢ ""
        → trim_space (trim_space session_id) ≡ trim_space session_id
        → trim_space (trim_space client_mode) ≡ trim_space client_mode
        → trim_space client_mode ≢ ""
        → save_session history_key size disk key workspace session_id client_mode now generation
            runs file
          ≡ (true, file')
        → (load_session key (trim_space client_mode) file' ≡ record {
          session_id = trim_space session_id;
          generation = at_least_one generation;
          mode_changed = false;
        })
          × ((other : String)
              → str_eq (trim_space client_mode) other ≡ false
              → load_session key other file' ≡ record {
                session_id = "";
                generation = (at_least_one generation + 1) % 2 ^ 64;
                mode_changed = true;
              })
          × ((other mode : String)
              → str_eq key other ≡ false
              → load_session other mode file' ≡ load_session other mode file)
    unfolding load_session saved
    saved_session_resumes some_id id_trimmed mode_trimmed some_mode h =
        let read = save_session-read some_id h in
        let r : Session =
          saved history_key key workspace (trim_space session_id) client_mode now generation runs
            (lookup key (read_store file)) in
        let here : str_eq key key ≡ true = eq_refl key in
        let found : lookup key (read_store file') ≡ some r =
          ap (lookup key) read ∙ lookup-put key key r (read_store file) ∙ rw here refl in
        (
          ap (loaded (trim_space client_mode)) found
              ∙ loaded-same_mode r (trim_space client_mode) mode_trimmed some_mode
              ∙ cc (id_trimmed, at_least_one_again generation),
          λ other differ.
              ap (loaded other) found
              ∙ loaded-other_mode r (trim_space client_mode) other mode_trimmed some_mode differ
              ∙ cc (at_least_one_again generation),
          λ other m differ.
              ap (loaded m) (
                ap (lookup other) read ∙ lookup-put key other r (read_store file) ∙ rw differ refl),
        )
