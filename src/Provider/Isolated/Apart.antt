-- ===== src/Provider/Isolated/Apart.antt =====
-- Isolated sessions of pkg/adapters/isolation.go are trusted and apart from each other.
use Prim.Native.Char.{code}
use Prim.Native.String.{String, [] as nil, ◌∷◌ as cons}
use text.Mathlib.TextEquality.{Char-path}
use openlinker_agent_node.Base.{
  ℕ, ◌⊎◌, ◌≡◌, refl, sym, ap, ◌∙◌, Bool, true, false, not, ◌||◌, List, [], ◌∷◌, ◌++◌, Option, none,
  some, some_inj, if◌then◌else◌, Bool-cases, inl, inr, codes, arith, subst,
}
use openlinker_agent_node.Config.Sandbox.{SandboxConfig, enabled}
use openlinker_agent_node.Provider.{ProviderConfig, ProviderRun}
use openlinker_agent_node.Provider.Scope.{scope_name, scope_name_inj, Collides}
use openlinker_agent_node.Provider.Storage.{
  OpenCalls, StorageStep, Place, open_client, control_name, close_storage, hold_step, hold_steps,
  nothing_held, all_held, Held, open_client-IsHeld,
}
use openlinker_agent_node.Provider.Isolated.{
  valid_isolation, trusted_run, Prepared, scope_parts, open_isolated, prepare_isolated,
  principal_of, session_key_of, isolated_config,
}

codes_inj : (s t : String) → codes s ≡ codes t → s ≡ t
codes_inj nil nil h = refl
codes_inj nil (cons d t) h = absurd cc
codes_inj (cons c s) nil h = absurd cc
codes_inj (cons c s) (cons d t) h =
    let heads : code c ≡ code d = cc in
    let tails : codes s ≡ codes t = cc in
    let first = Char-path c d heads in let rest = codes_inj s t tails in cc

hold_steps-append :
    (first later : List StorageStep) (h : Held)
    → hold_steps (first ++ later) h ≡ hold_steps later (hold_steps first h)
hold_steps-append [] later h = refl
hold_steps-append (s ∷ first) later h = hold_steps-append first later (hold_step s h)

module _ (hash : List ℕ → List ℕ) (workspace store : Place → String)
    (valid_config : SandboxConfig → Bool) (valid_endpoint : ProviderConfig → Bool)
    {M : Type 0} where
  module _ (c : ProviderConfig) (r : ProviderRun M) where
    abbrev Outcome : Type 0
    Outcome = Option Prepared × List StorageStep

    -- the name of the directory that the run has to be in
    abbrev pub directory_of : List ℕ
    directory_of =
        control_name hash c.session_isolation.namespace (scope_name hash (scope_parts c r))

    -- What has to hold of an isolated run that starts.
    pub record IsIsolated (p : Prepared) (steps : List StorageStep) : Type 0 where
      pub valid : valid_isolation valid_config valid_endpoint c ≡ true
      pub trusted : trusted_run r ≡ true
      pub named :
          (root : String) × (p.storage ≡ some (record { root = root; control = directory_of }))
      pub held : hold_steps steps nothing_held ≡ all_held

    -- Nothing is held where no run starts, and an isolated run that starts is as it must be.
    abbrev IsSettled : Outcome → Type 0
    IsSettled o =
        (o.0 ≡ none → hold_steps o.1 nothing_held ≡ nothing_held)
        × ((p : Prepared) → o.0 ≡ some p → enabled c.session_isolation ≡ true → IsIsolated p o.1)

    nothing-IsSettled : IsSettled (none, [])
    nothing-IsSettled = ((λ h. refl), λ p h k. absurd cc)

    open_isolated-IsSettled :
        (calls : OpenCalls) (policy : Bool)
        → valid_isolation valid_config valid_endpoint c ≡ true
        → trusted_run r ≡ true
        → IsSettled
            (open_isolated hash workspace store valid_config valid_endpoint c r calls policy)
    unfolding open_isolated
    open_isolated-IsSettled calls policy valid trusted =
        let scope = scope_name hash (scope_parts c r) in
        let o = open_client hash c.session_isolation.namespace scope calls in
        elim (open_client-IsHeld hash c.session_isolation.namespace scope calls) [
          | inl (failed, free) ↦ rw (failed, open_isolated) ((λ h. free), λ p h k. absurd cc)
          | inr (root, opened, all) ↦
              let place : Place = record { root = root; control = directory_of } in
              elim (Bool-cases policy) [
                | inr bad ↦
                    let joined = hold_steps-append o.1 close_storage nothing_held in
                    let free = joined ∙ ap (λ (h : Held). hold_steps close_storage h) all in
                    rw (opened, open_isolated, bad) ((λ h. free), λ p h k. absurd cc)
                | inl good ↦
                    let v : Prepared = record {
                      config = isolated_config (workspace place) (store place) c;
                      storage = some place;
                    } in
                    rw (opened, open_isolated, good)
                      (
                        (λ h. absurd cc),
                        λ p h k.
                            subst (λ (x : Prepared). IsIsolated x o.1) (some_inj h)
                              (record {
                                valid = valid;
                                trusted = trusted;
                                named = (root, refl);
                                held = all;
                              }),
                      )
              ]
        ]

    pick-IsSettled :
        (b : Bool) (x y : Outcome)
        → (b ≡ true → IsSettled x)
        → (b ≡ false → IsSettled y)
        → IsSettled (if b then x else y)
    pick-IsSettled true x y f g = f refl
    pick-IsSettled false x y f g = g refl

    prepare_isolated-IsSettled :
        (environment : Bool) (calls : OpenCalls) (policy : Bool)
        → IsSettled (
            prepare_isolated hash workspace store valid_config valid_endpoint c r environment calls
              policy)
    unfolding prepare_isolated
    prepare_isolated-IsSettled environment calls policy =
        let valid = valid_isolation valid_config valid_endpoint c in
        let on = enabled c.session_isolation in
        let o = open_isolated hash workspace store valid_config valid_endpoint c r calls policy in
        let direct : Prepared = record { config = c; storage = none } in
        let strange = not (trusted_run r) || not environment in
        pick-IsSettled (not valid) (none, [])
          (if not on then (some direct, []) else if strange then (none, []) else o)
          (λ e. nothing-IsSettled)
          (λ good.
            pick-IsSettled (not on) (some direct, []) (if strange then (none, []) else o)
              (λ off. ((λ h. absurd cc), λ p h k. absurd (ground (arith, off, k))))
              (λ isolates.
                pick-IsSettled strange (none, []) o (λ e. nothing-IsSettled)
                  (λ fine.
                    open_isolated-IsSettled calls policy (ground (arith, good))
                      (ground (arith, fine)))))

  abbrev pub Agree : ProviderConfig → ProviderConfig → ProviderRun M → ProviderRun M → Type 0
  Agree c d r s =
      (c.session_isolation.namespace ≡ d.session_isolation.namespace)
      × (c.provider ≡ d.provider)
      × (r.agent_id ≡ s.agent_id)
      × (principal_of r.principal ≡ principal_of s.principal)
      × (session_key_of r.conversation ≡ session_key_of s.conversation)

  -- the parts of the two names around that of the scope
  abbrev pub client_parts : ProviderConfig → ProviderRun M → List (List ℕ)
  client_parts c r = codes "host-client-v1" ∷ scope_name hash (scope_parts c r) ∷ []

  abbrev pub control_parts : ProviderConfig → ProviderRun M → List (List ℕ)
  control_parts c r = codes c.session_isolation.namespace ∷ scope_name hash (client_parts c r) ∷ []

  -- SHA-256 gives different texts of these two runs the same digest.
  abbrev pub Clash : ProviderConfig → ProviderConfig → ProviderRun M → ProviderRun M → Type 0
  Clash c d r s =
      Collides hash (control_parts c r) (control_parts d s)
      ⊎ Collides hash (client_parts c r) (client_parts d s)
      ⊎ Collides hash (scope_parts c r) (scope_parts d s)

  directory_of-Agree :
      (c d : ProviderConfig) (r s : ProviderRun M)
      → directory_of c r ≡ directory_of d s
      → Agree c d r s ⊎ Clash c d r s
  directory_of-Agree c d r s h =
      elim (scope_name_inj hash (control_parts c r) (control_parts d s) h) [
        | inr collision ↦ inr (inl collision)
        | inl outer ↦
            let spaces : codes c.session_isolation.namespace ≡ codes d.session_isolation.namespace =
              cc in
            let middle : scope_name hash (client_parts c r) ≡ scope_name hash (client_parts d s) =
              cc in
            elim (scope_name_inj hash (client_parts c r) (client_parts d s) middle) [
              | inr collision ↦ inr (inr (inl collision))
              | inl inner ↦
                  let scopes : scope_name hash (scope_parts c r)
                      ≡ scope_name hash (scope_parts d s) =
                    cc in
                  elim (scope_name_inj hash (scope_parts c r) (scope_parts d s) scopes) [
                    | inr collision ↦ inr (inr (inr collision))
                    | inl parts ↦ inl (
                      codes_inj c.session_isolation.namespace d.session_isolation.namespace spaces,
                      codes_inj c.provider d.provider (cc),
                      codes_inj r.agent_id s.agent_id (cc),
                      codes_inj (principal_of r.principal) (principal_of s.principal) (cc),
                      codes_inj (session_key_of r.conversation) (session_key_of s.conversation)
                          (cc),
                    )
                  ]
            ]
      ]

  -- Of two isolated runs that prepareIsolatedSession lets start with the same storage directory,
  -- each has a valid configuration, a trusted run and exactly its lock, policy and temporary
  -- directory; and both are of the same namespace, provider, agent, principal and session key,
  -- unless SHA-256 gives two different texts, of which it names the storage of
  -- these two runs, the same digest.
  pub storage_apart :
      (c d : ProviderConfig) (r s : ProviderRun M) (environment environment' : Bool)
      (calls calls' : OpenCalls) (policy policy' : Bool) (p q : Prepared)
      → let o =
          prepare_isolated hash workspace store valid_config valid_endpoint c r environment calls
            policy in
        let u =
          prepare_isolated hash workspace store valid_config valid_endpoint d s environment' calls'
            policy' in
        o.0 ≡ some p
        → u.0 ≡ some q
        → enabled c.session_isolation ≡ true
        → enabled d.session_isolation ≡ true
        → p.storage ≡ q.storage
        → IsIsolated c r p o.1 × IsIsolated d s q u.1 × (Agree c d r s ⊎ Clash c d r s)
  storage_apart c d r s environment environment' calls calls' policy policy' p q h k on on' same =
      let a = (prepare_isolated-IsSettled c r environment calls policy).1 p h on in
      let b = (prepare_isolated-IsSettled d s environment' calls' policy').1 q k on' in
      let places = some_inj (sym a.named.1 ∙ same ∙ b.named.1) in
      let names : directory_of c r ≡ directory_of d s = ap (λ (x : Place). x.control) places in
      (a, b, directory_of-Agree c d r s names)
