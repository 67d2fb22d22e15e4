-- ===== src/Config/Isolation/Defaults.antt =====
-- When the session of a provider is isolated.
use openlinker_agent_node.Base.{
  String, ◌≡◌, refl, sym, ap, ◌∙◌, subst, ◌⊎◌, inl, inr, Bool, true, false, ◌&&◌, ◌||◌, not,
  Bool-cases, if◌then◌else◌, str_eq, eq_iff,
}
use openlinker_agent_node.Base.Result.{
  Result, ok, err, IsEnsured, >>=-IsEnsured, ok-IsEnsured, IsEnsured-ok, refuse-ok,
}
use openlinker_agent_node.Config.{Env, Host, Problem}
use openlinker_agent_node.Config.Sandbox.{
  Mode, unset, off, native, other_mode, SandboxConfig, is_native, enabled, inactive, validate,
}
use openlinker_agent_node.Config.Isolation.{
  Provider, hinted, is_unset, configured_mode, parse_isolation, isolation_from_env, is_mock,
  native_provider_options, variable, provider_isolation, unisolated_options,
}

hinted-ok : {A : Type 0} (b : Bool) (r : Result Problem A) (a : A) → hinted b r ≡ ok a → r ≡ ok a
hinted-ok b (ok x) a h = h
hinted-ok true (err e) a h = absurd cc
hinted-ok false (err e) a h = absurd cc

negated : (b : Bool) → not b ≡ false → b ≡ true
negated true h = refl
negated false h = sym h

text_eq : (s t : String) → not (str_eq s t) ≡ false → s ≡ t
text_eq s t h = (eq_iff s t).0 (negated (str_eq s t) h)

-- The mode that is used, by the one that is configured.
decided :
    (cfg : Mode) (mock : Bool)
    → let m = if is_unset cfg && not mock then native else cfg in
      (inactive m || is_native m) ≡ true
      → (is_native m ≡ true) ⊎ ((is_native m ≡ false) × ((cfg ≡ off) ⊎ (mock ≡ true)))
decided unset true h = inr (refl, inr refl)
decided unset false h = inl refl
decided off mock h = inr (refl, inl refl)
decided native mock h = inl refl
decided other_mode mock h = absurd cc

idle :
    (cfg : Mode)
    → let m = if is_unset cfg && false then native else cfg in
      (inactive m || is_native m) ≡ true → is_native m ≡ false → (cfg ≡ unset) ⊎ (cfg ≡ off)
idle unset h k = inl refl
idle off h k = inr refl
idle native h k = absurd cc
idle other_mode h k = absurd cc

module _ (host : Host) (get : Env) where
  -- A configuration that is accepted has the mode that was asked for, validated.
  parse_isolation-mode :
      (mode : Mode)
      → IsEnsured
          (λ (c : SandboxConfig). (c.mode ≡ mode) × (validate host c ≡ ok tt))
          (parse_isolation host get mode)
  unfolding parse_isolation
  parse_isolation-mode mode = >>=-IsEnsured _ _ _ (λ root e1. >>=-IsEnsured _ _ _ (λ u e2.
      >>=-IsEnsured _ _ _ (λ reads e3. >>=-IsEnsured _ _ _ (λ domains e4.
        >>=-IsEnsured _ _ _ (λ namespace e5.
          >>=-IsEnsured _ _ _ (λ v valid. >>=-IsEnsured _ _ _ (λ w e7. (refl, valid))))))))

  validate-mode :
      (c : SandboxConfig)
      → IsEnsured (λ (u : Unit {0}). (inactive c.mode || is_native c.mode) ≡ true) (validate host c)
  unfolding validate
  validate-mode c = elim (Bool-cases (inactive c.mode)) [
    | inl idle ↦ rw idle (IsEnsured-ok (λ (u : Unit {0}). true ≡ true) _ (λ u e. refl))
    | inr busy ↦ rw busy (
        >>=-IsEnsured _ _ _ (λ u e.
          IsEnsured-ok (λ (v : Unit {0}). is_native c.mode ≡ true) _
            (λ v f. negated (is_native c.mode) (refuse-ok _ _ u e))))
  ]

  isolation-mode :
      (default_native : Bool) (c : SandboxConfig)
      → isolation_from_env host get default_native ≡ ok c
      → (c.mode ≡ (
          if is_unset (configured_mode host get) && default_native
          then native
          else configured_mode host get))
        × ((inactive c.mode || is_native c.mode) ≡ true)
  unfolding isolation_from_env
  isolation-mode default_native c h =
      let cfg = configured_mode host get in
      let defaulted = is_unset cfg && default_native in
      let mode = if defaulted then native else cfg in
      let (same, valid) =
        ok-IsEnsured (λ (c : SandboxConfig). (c.mode ≡ mode) × (validate host c ≡ ok tt)) _ c
          (parse_isolation-mode mode) (hinted-ok defaulted (parse_isolation host get mode) c h) in
      (
        same,
        ok-IsEnsured (λ (u : Unit {0}). (inactive c.mode || is_native c.mode) ≡ true) _ tt
            (validate-mode c) valid,
      )

  -- A provider's session is native, or the operator turned isolation off, or a mock response
  -- takes the provider's place; only a native session has a setting for its credentials.
  abbrev pub IsDecided : Provider → (concurrency : String) → SandboxConfig → Type 0
  IsDecided p concurrency c =
      ((enabled c ≡ true) × (is_mock host get p ≡ false) × (get (variable p "WORKSPACE") ≡ ""))
      ⊎ ((enabled c ≡ false)
          × ((configured_mode host get ≡ off) ⊎ (is_mock host get p ≡ true))
          × (concurrency ≡ ""))

  native-IsDecided :
      (p : Provider) (concurrency : String) (c : SandboxConfig)
      → enabled c ≡ true
      → is_mock host get p ≡ false
      → (native_provider_options host get p ≡ ok tt)
      → IsDecided p concurrency c
  unfolding native_provider_options
  native-IsDecided p concurrency c on real options = inl (
    on,
    real,
    ok-IsEnsured (λ (u : Unit {0}). get (variable p "WORKSPACE") ≡ "") _ tt
        (>>=-IsEnsured _ _ _ (λ u e.
          IsEnsured-ok (λ (v : Unit {0}). get (variable p "WORKSPACE") ≡ "") _
            (λ v f. text_eq _ _ (refuse-ok _ _ u e))))
        options,
  )

  leaf-IsDecided :
      (p : Provider) (concurrency : String) (c : SandboxConfig)
      → isolation_from_env host get (not (is_mock host get p)) ≡ ok c
      → (enabled c && is_mock host get p) ≡ false
      → (not (enabled c) && not (str_eq concurrency "")) ≡ false
      → (if enabled c then native_provider_options host get p else ok tt) ≡ ok tt
      → IsDecided p concurrency c
  leaf-IsDecided p concurrency c made mock credentials options =
      let mode = isolation-mode (not (is_mock host get p)) c made in
      elim (decided (configured_mode host get) (is_mock host get p)
        (subst (λ (m : Mode). (inactive m || is_native m) ≡ true) (mode.0) (mode.1))) [
          | inl on ↦
              let there : enabled c ≡ true = ap is_native (mode.0) ∙ on in
              native-IsDecided p concurrency c there
                (ap (λ (b : Bool). b && is_mock host get p) (sym there) ∙ mock)
                (ap (λ (b : Bool). if b then native_provider_options host get p else ok tt)
                    (sym there)
                  ∙ options)
          | inr (idle, why) ↦
              let gone : enabled c ≡ false = ap is_native (mode.0) ∙ idle in
              inr (
                gone,
                why,
                text_eq concurrency "" (
                    ap (λ (b : Bool). not b && not (str_eq concurrency "")) (sym gone)
                    ∙ credentials),
              )
        ]

  pub provider_isolation-IsDecided :
      (p : Provider) (concurrency : String)
      → IsEnsured (IsDecided p concurrency) (provider_isolation host get p concurrency)
  unfolding provider_isolation
  provider_isolation-IsDecided p concurrency = >>=-IsEnsured _ _ _ (λ c e1.
      >>=-IsEnsured _ _ _ (λ u e2. >>=-IsEnsured _ _ _ (λ v e3.
        >>=-IsEnsured _ _ _ (λ w e4.
          leaf-IsDecided p concurrency c e1 (refuse-ok _ _ u e2) (refuse-ok _ _ v e3) e4))))

  -- An adapter that cannot be isolated starts only where native isolation is not asked for.
  abbrev pub IsIdle : (concurrency : String) → Type 0
  IsIdle concurrency =
      ((configured_mode host get ≡ unset) ⊎ (configured_mode host get ≡ off)) × (concurrency ≡ "")

  pub unisolated_options-IsIdle :
      (concurrency : String)
      → IsEnsured (λ (u : Unit {0}). IsIdle concurrency) (unisolated_options host get concurrency)
  unfolding unisolated_options
  unisolated_options-IsIdle concurrency = >>=-IsEnsured _ _ _ (λ c e1. >>=-IsEnsured _ _ _ (λ u e2.
      IsEnsured-ok (λ (v : Unit {0}). IsIdle concurrency) _
        (λ v e3. (
          let mode = isolation-mode false c e1 in
              idle (configured_mode host get)
                (subst (λ (m : Mode). (inactive m || is_native m) ≡ true) (mode.0) (mode.1))
                (subst (λ (m : Mode). is_native m ≡ false) (mode.0) (refuse-ok _ _ u e2)),
          text_eq concurrency "" (refuse-ok _ _ v e3),
        ))))
