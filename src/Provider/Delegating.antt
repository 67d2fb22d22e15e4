-- ===== src/Provider/Delegating.antt =====
-- The run of a provider with delegation: delegationProvider.Run of pkg/adapters/delegation.go,
-- with what the calls around the provider return.
use Prim.Native.String.{String}
use openlinker_agent_node.Base.Result.{Result, ok, err}
use openlinker_agent_node.Broker.{Failure, Broker, Outside}
use openlinker_agent_node.Broker.Ledger.Count.{open_count}
use openlinker_agent_node.Broker.Complete.{ensure_complete, ensure_complete_sound}
use openlinker_agent_node.Base.{
  ◌≡◌, ◌⊎◌, refl, sym, ap, ◌∙◌, Bool, true, false, not, ◌&&◌, ◌||◌, List, [], ◌∷◌, Option, none,
  some, if◌then◌else◌, Bool-cases, Option-cases, inl, inr, str_eq, arith, is_some,
}

-- RuntimeResult and the error beside it
pub record Ended : Type 0 where
  pub status : String
  pub error : Option String  -- its code
  pub go_error : Bool

-- what EnsureComplete says
pub data Completion : Type 0 where
  complete : Completion
  tools_unavailable : Completion
  unfinished : Completion

pub data McpEvent : Type 0 where
  bindings_failed : McpEvent
  ended_before_discovery : McpEvent

-- The calls of a Run, by what they return. `emits` is none where the run has no channel.
pub record RunCalls : Type 0 where
  pub decoded : Bool  -- DecodeBound
  pub tools : Bool  -- it gave some tools
  pub targets : Bool  -- some targets are configured
  pub resolved : Bool
  pub reads : Bool  -- ReadDelegatedRun is there
  pub started : Bool  -- StartBound
  pub provider : Ended
  pub discovered : Bool
  pub completion : Completion
  pub emits : Option (McpEvent → Bool)

abbrev pub run_error : Ended
run_error = record { status = ""; error = none; go_error = true }

-- failedResult
abbrev pub failed_run : String → Ended
failed_run code = record { status = "failed"; error = some code; go_error = false }

abbrev pub DelegatedRun : Type 0
DelegatedRun = Ended × List McpEvent

abbrev pub is_success : Ended → Bool
is_success e =
    not e.go_error && not (is_some e.error) && (str_eq e.status "" || str_eq e.status "success")

-- ErrBoundToolsUnavailable or another error of EnsureComplete
abbrev pub completion_of : Result Failure (Unit {0}) → Completion
completion_of (ok u) = complete
completion_of (err Failure.tools_unavailable) = Completion.tools_unavailable
completion_of (err (Failure.safe s)) = unfinished
completion_of (err Failure.context_canceled) = unfinished
completion_of (err Failure.deadline_exceeded) = unfinished
completion_of (err (Failure.core status code)) = unfinished
completion_of (err (Failure.other s)) = unfinished

-- `unavailable`
unfoldable pub unavailable : RunCalls → DelegatedRun
unavailable c = if not c.tools then (run_error, []) else elim c.emits [
  | none ↦ (failed_run "MCP_TOOLS_UNAVAILABLE", [])
  | some sends ↦
      if sends bindings_failed
      then (failed_run "MCP_TOOLS_UNAVAILABLE", bindings_failed ∷ [])
      else (run_error, [])
]

unfoldable pub check_completion : RunCalls → Completion → DelegatedRun
unfolding unavailable
check_completion c complete = (c.provider, [])
check_completion c Completion.tools_unavailable = unavailable c
check_completion c unfinished = (failed_run "DELEGATION_UNFINISHED", [])

-- the receipt of a provider that ended before it discovered its tools
unfoldable pub early_receipt : RunCalls → DelegatedRun → DelegatedRun
early_receipt c rest =
    if not c.tools || c.discovered || is_success c.provider then rest else elim c.emits [
      | none ↦ rest
      | some sends ↦
          if sends ended_before_discovery
          then (rest.0, ended_before_discovery ∷ rest.1)
          else if c.provider.go_error
          then rest
          else (record c.provider { go_error = true }, [])
    ]

-- Run after the provider
unfoldable pub after_provider : RunCalls → DelegatedRun
unfolding check_completion early_receipt
after_provider c =
    early_receipt c
      (if is_success c.provider then check_completion c c.completion else (c.provider, []))

-- Run
unfoldable pub delegated_run : RunCalls → DelegatedRun
unfolding unavailable after_provider
delegated_run c =
    if not c.decoded
    then (run_error, [])
    else if not c.tools && not c.targets
    then (c.provider, [])
    else if not c.resolved || not c.reads || not c.started
    then unavailable c
    else after_provider c

unavailable-fails : (c : RunCalls) → is_success (unavailable c).0 ≡ false
unfolding unavailable
unavailable-fails c = elim (Bool-cases c.tools) [
  | inr none_there ↦ rw none_there refl
  | inl tools ↦ elim (Option-cases c.emits) [
    | inl mute ↦ rw (tools, unavailable, mute) refl
    | inr (sends, e) ↦ elim (Bool-cases (sends bindings_failed)) [
      | inl sent ↦ rw (tools, unavailable, e, sent) refl
      | inr lost ↦ rw (tools, unavailable, e, lost) refl
    ]
  ]
]

completion_of-complete : (r : Result Failure (Unit {0})) → completion_of r ≡ complete → r ≡ ok tt
completion_of-complete (ok u) h = refl
completion_of-complete (err Failure.tools_unavailable) h = absurd cc
completion_of-complete (err (Failure.safe s)) h = absurd cc
completion_of-complete (err Failure.context_canceled) h = absurd cc
completion_of-complete (err Failure.deadline_exceeded) h = absurd cc
completion_of-complete (err (Failure.core status code)) h = absurd cc
completion_of-complete (err (Failure.other s)) h = absurd cc

check_completion-success :
    (c : RunCalls) (k : Completion)
    → is_success (check_completion c k).0 ≡ true
    → (k ≡ complete) × ((check_completion c k).0 ≡ c.provider)
unfolding check_completion
check_completion-success c complete h = (refl, refl)
check_completion-success c Completion.tools_unavailable h = absurd (cc (unavailable-fails c))
check_completion-success c unfinished h = absurd cc

early_receipt-success :
    (c : RunCalls) (rest : DelegatedRun)
    → is_success (early_receipt c rest).0 ≡ true
    → is_success rest.0 ≡ true
unfolding early_receipt
early_receipt-success c rest h =
    elim (Bool-cases (not c.tools || c.discovered || is_success c.provider)) [
      | inl late ↦ ground (arith, late, h)
      | inr early ↦ elim (Option-cases c.emits) [
        | inl mute ↦ ground (arith, early, h, mute)
        | inr (sends, e) ↦ elim (Bool-cases (sends ended_before_discovery)) [
          | inl sent ↦ ground (arith, early, h, e, sent)
          | inr lost ↦ elim (Bool-cases c.provider.go_error) [
            | inl failed ↦ ground (arith, early, h, e, lost, failed)
            | inr well ↦ ground (arith, early, h, e, lost, well)
          ]
        ]
      ]
    ]

early_receipt-fine :
    (c : RunCalls) (rest : DelegatedRun)
    → is_success c.provider ≡ true
    → early_receipt c rest ≡ rest
unfolding early_receipt
early_receipt-fine c rest fine =
    let late : (not c.tools || c.discovered || is_success c.provider) ≡ true =
      ground (arith, fine) in
    rw late refl

after_provider-success :
    (c : RunCalls)
    → is_success (after_provider c).0 ≡ true
    → (c.completion ≡ complete) × ((after_provider c).0 ≡ c.provider)
unfolding after_provider
after_provider-success c h =
    let rest =
      if is_success c.provider then check_completion c c.completion else (c.provider, []) in
    let k = early_receipt-success c rest h in
    elim (Bool-cases (is_success c.provider)) [
      | inr failed ↦ absurd (ground (arith, failed, k))
      | inl fine ↦
          let same = early_receipt-fine c rest fine in
          let whole : rest ≡ check_completion c c.completion = rw fine refl in
          let done =
            check_completion-success c c.completion (ap (λ r. is_success r.0) (sym whole) ∙ k) in
          (done.0, ap (λ r. r.0) (same ∙ whole) ∙ done.1)
    ]

last_branch :
    {A : Type 0} {a b c : Bool} (x y z u : A)
    → a ≡ true
    → b ≡ false
    → c ≡ false
    → (if not a then x else if b then y else if c then z else u) ≡ u
last_branch x y z u h k l = rw (h, k, l) refl

all_there :
    (a b c : Bool) → (not a || not b || not c) ≡ false → (a ≡ true) × (b ≡ true) × (c ≡ true)
all_there a b c h = ground (arith, h)

-- A run with delegation that ends in success is the run of its provider, unchanged. Either it had
-- no tools and no targets, or the proxy was found, the delegated runs can be read and the broker
-- was started; and, where the completion is what EnsureComplete says of the broker, no request is
-- open after it, and the bound tools, if there are any, were discovered.
pub delegated_success :
    {W : Type 0} (out : Outside W) (c : RunCalls) (b : Broker) (w : W)
    → c.completion ≡ completion_of (ensure_complete out b w).0
    → is_success (delegated_run c).0 ≡ true
    → ((delegated_run c).0 ≡ c.provider)
      × (((c.tools ≡ false) × (c.targets ≡ false))
          ⊎ ((c.resolved ≡ true)
              × (c.reads ≡ true)
              × (c.started ≡ true)
              × (open_count (ensure_complete out b w).1.requests ≡ 0)
              × ((b.bound_tools ≡ []) ⊎ (b.tools_ready ≡ true))))
unfolding delegated_run
delegated_success out c b w same h = elim (Bool-cases c.decoded) [
  | inr bad ↦ absurd (cc (rw bad at h))
  | inl good ↦ elim (Bool-cases (not c.tools && not c.targets)) [
    | inl bare ↦ rw (good, bare) (refl, inl (ground (arith, bare)))
    | inr delegates ↦ elim (Bool-cases (not c.resolved || not c.reads || not c.started)) [
      | inl missing ↦ absurd (cc (unavailable-fails c, rw (good, delegates, missing) at h))
      | inr there ↦
          let runs : delegated_run c ≡ after_provider c =
            last_branch _ _ _ _ good delegates there in
          let k = after_provider-success c (ap (λ r. is_success r.0) (sym runs) ∙ h) in
          let broker =
            ensure_complete_sound out b w
              (completion_of-complete (ensure_complete out b w).0 (sym same ∙ k.0)) in
          let (found, reads, started) = all_there c.resolved c.reads c.started there in
          (ap (λ r. r.0) runs ∙ k.1, inr (found, reads, started, broker.0, broker.1))
    ]
  ]
]
