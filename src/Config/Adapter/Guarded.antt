-- ===== src/Config/Adapter/Guarded.antt =====
-- Which adapters start with which isolation.
use openlinker_agent_node.Base.{ℕ, String, ◌≡◌, inl, inr, ◌||◌, Bool-cases, str_eq}
use openlinker_agent_node.Base.Result.{ok, IsEnsured, >>=-IsEnsured, ok-IsEnsured}
use openlinker_agent_node.Config.{Env, Host}
use openlinker_agent_node.Config.Isolation.{codex, claude}
use openlinker_agent_node.Config.Isolation.Defaults.{
  IsDecided, provider_isolation-IsDecided, IsIdle, unisolated_options-IsIdle,
}
use openlinker_agent_node.Config.Adapter.{
  Adapter, claude_adapter, codex_adapter, http_from_env, a2a_from_env, command_from_env,
  claude_from_env, codex_from_env, adapter_for, adapter_from_env,
}

module _ (host : Host) (get : Env) where
  -- What an adapter that was made owes to the isolation settings.
  abbrev pub IsGuarded : Adapter → Type 0
  IsGuarded (claude_adapter c permission allowed) =
      IsDecided host get claude c.host_auth_concurrency c.isolation
  IsGuarded (codex_adapter c sandbox approval mock) =
      IsDecided host get codex c.host_auth_concurrency c.isolation
  IsGuarded _ = IsIdle host get (get "OPENLINKER_AGENT_NODE_HOST_AUTH_CONCURRENCY")

  abbrev concurrency : String
  concurrency = get "OPENLINKER_AGENT_NODE_HOST_AUTH_CONCURRENCY"

  http-IsGuarded : (t : ℕ) → IsEnsured IsGuarded (http_from_env host get concurrency t)
  unfolding http_from_env
  http-IsGuarded t = >>=-IsEnsured _ _ _ (λ u e. >>=-IsEnsured _ _ _ (λ headers f.
      ok-IsEnsured (λ (v : Unit {0}). IsIdle host get concurrency) _ u
        (unisolated_options-IsIdle host get concurrency) e))

  a2a-IsGuarded : (t : ℕ) → IsEnsured IsGuarded (a2a_from_env host get concurrency t)
  unfolding a2a_from_env
  a2a-IsGuarded t = >>=-IsEnsured _ _ _ (λ u e. >>=-IsEnsured _ _ _ (λ headers f.
      >>=-IsEnsured _ _ _ (λ modes g.
        ok-IsEnsured (λ (v : Unit {0}). IsIdle host get concurrency) _ u
          (unisolated_options-IsIdle host get concurrency) e)))

  command-IsGuarded : (t : ℕ) → IsEnsured IsGuarded (command_from_env host get concurrency t)
  unfolding command_from_env
  command-IsGuarded t = >>=-IsEnsured _ _ _ (λ u e. >>=-IsEnsured _ _ _ (λ args f.
      ok-IsEnsured (λ (v : Unit {0}). IsIdle host get concurrency) _ u
        (unisolated_options-IsIdle host get concurrency) e))

  claude-IsGuarded : IsEnsured IsGuarded (claude_from_env host get concurrency)
  unfolding claude_from_env
  claude-IsGuarded = >>=-IsEnsured _ _ _ (λ c e. >>=-IsEnsured _ _ _ (λ u f.
      >>=-IsEnsured _ _ _ (λ t g. >>=-IsEnsured _ _ _ (λ s h. >>=-IsEnsured _ _ _ (λ a i.
        >>=-IsEnsured _ _ _ (λ targets j.
          ok-IsEnsured (IsDecided host get claude concurrency) _ c
            (provider_isolation-IsDecided host get claude concurrency) e))))))

  codex-IsGuarded : IsEnsured IsGuarded (codex_from_env host get concurrency)
  unfolding codex_from_env
  codex-IsGuarded = >>=-IsEnsured _ _ _ (λ c e. >>=-IsEnsured _ _ _ (λ s f.
      >>=-IsEnsured _ _ _ (λ u g. >>=-IsEnsured _ _ _ (λ targets h. >>=-IsEnsured _ _ _ (λ t i.
        ok-IsEnsured (IsDecided host get codex concurrency) _ c
          (provider_isolation-IsDecided host get codex concurrency) e)))))

  adapter_for-IsGuarded :
      (mode : String) (t : ℕ) → IsEnsured IsGuarded (adapter_for host get mode concurrency t)
  unfolding adapter_for
  adapter_for-IsGuarded mode t = elim (Bool-cases (str_eq mode "http" || str_eq mode "openclaw")) [
    | inl h ↦ rw h (http-IsGuarded t)
    | inr h ↦ rw h (elim (Bool-cases (str_eq mode "a2a")) [
      | inl a ↦ rw a (a2a-IsGuarded t)
      | inr a ↦ rw a (elim (Bool-cases (str_eq mode "command")) [
        | inl c ↦ rw c (command-IsGuarded t)
        | inr c ↦ rw c (elim (Bool-cases (str_eq mode "claude")) [
          | inl l ↦ rw l claude-IsGuarded
          | inr l ↦ rw l (elim (Bool-cases (str_eq mode "codex")) [
            | inl x ↦ rw x codex-IsGuarded
            | inr x ↦
                rw x
                  (elim (Bool-cases (str_eq mode "module")) [ inl m ↦ rw m tt | inr m ↦ rw m tt ])
          ])
        ])
      ])
    ])
  ]

  -- Whatever the environment, an adapter that starts is guarded. A Codex or Claude session is
  -- native, with no workspace configured, unless SESSION_ISOLATION is off or, for Codex, a mock
  -- response is set; only a native one has a HOST_AUTH_CONCURRENCY. Any other adapter starts only
  -- with SESSION_ISOLATION unset or off and no HOST_AUTH_CONCURRENCY.
  pub adapter_from_env-IsGuarded :
      (mode : String) (a : Adapter) → adapter_from_env host get mode ≡ ok a → IsGuarded a
  unfolding adapter_from_env
  adapter_from_env-IsGuarded mode a h =
      ok-IsEnsured IsGuarded (adapter_from_env host get mode) a
        (>>=-IsEnsured IsGuarded _ _
          (λ t e. >>=-IsEnsured IsGuarded _ _ (λ u f. adapter_for-IsGuarded mode t)))
        h
