-- ===== src/Broker/Delegate/Refusals.antt =====
-- What a request must be for a child to be created, and what a refusal or a rejection leaves behind.
use Prim.Native.String.{len, count}
use openlinker_agent_node.Base.{
  List, [], ◌∷◌, refl, ap, leb, length, ◌≤◌, ◌<◌, String, ◌≡◌, ◌≢◌, ◌⊎◌, ◌↔◌, Bool, true, false,
  ◌||◌, Option, none, some, arith, str_eq, eq_iff, Option-cases, Bool-cases, inl, inr, sym,
  trim_space, is_some,
}
use openlinker_agent_node.Base.Assoc.{lookup, lookup-delete}
use openlinker_agent_node.Base.Result.{Result, err, Result-cases}
use openlinker_agent_node.Broker.{
  Value, Summary, CallOptions, Request, Failure, BoundTool, Delegation, Broker, Codec, Outside,
}
use openlinker_agent_node.Broker.Ledger.{settle_one, settle}
use openlinker_agent_node.Broker.Ledger.Ended.{AllEnded, settle-AllEnded}
use openlinker_agent_node.Broker.Validation.{has}
use openlinker_agent_node.Broker.Delegate.{
  retry_first, wait_first, open_request, repeat_request, definite_rejection, accepted, conclude,
  create, delegate, call_options, bound_to,
}

-- The target is that of the tool that the owner bound, or one of the configured targets.
abbrev pub IsAllowed : Option BoundTool → String → List String → Type 0
IsAllowed none target targets = has target targets ≡ true
IsAllowed (some tool) target targets = (tool.target_id ≡ target) ⊎ (has target targets ≡ true)

pub record IsAcceptable (bound : Option BoundTool) (q : Delegation) (b : Broker) : Type 0 where
  pub allowed : IsAllowed bound q.target b.targets
  pub given : q.input ≢ none
  pub key_present : 0 < len q.key
  pub key_short : len q.key ≤ 128
  pub key_trimmed : trim_space q.key ≡ q.key
  pub reason_short : count q.reason ≤ 500

IsAllowed-iff :
    (bound : Option BoundTool) (target : String) (targets : List String)
    → ((bound_to bound target || has target targets) ≡ true) ↔ IsAllowed bound target targets
IsAllowed-iff none target targets = ground arith
IsAllowed-iff (some t) target targets = ground (arith, eq_iff t.target_id target)

accepted-IsAcceptable :
    (bound : Option BoundTool) (q : Delegation) (b : Broker)
    → accepted bound q b ≡ true
    → IsAcceptable bound q b
unfolding accepted
accepted-IsAcceptable bound q b h =
    let (to, _) = IsAllowed-iff bound q.target b.targets in
    record {
      allowed = to (ground arith);
      given = ground arith;
      key_present = ground arith;
      key_short = ground arith;
      key_trimmed = (eq_iff (trim_space q.key) q.key).0 (ground arith);
      reason_short = ground arith;
    }

-- The same outside with another CallAgent.
abbrev pub with_call :
    {W : Type 0}
    → (String → Option Value → CallOptions → W → Result Failure Value × W)
    → Outside W
    → Outside W
with_call f out = record out { call_agent = f }

settle-with_call :
    {W : Type 0} (out : Outside W)
    (f : String → Option Value → CallOptions → W → Result Failure Value × W) (u : Failure)
    (g : String → Failure) (m : List (String × Request)) (w : W)
    → settle (with_call f out) u g m w ≡ settle out u g m w
unfolding settle settle_one
settle-with_call {W} out f u g [] w = refl
settle-with_call {W} out f u g ((k, r) ∷ m) w = elim (Result-cases (settle_one out u g r w).0) [
  | inr (e, failed) ↦ rw (failed, settle) refl
  | inl (r', fine) ↦
      rw (fine, settle)
        (ap
          (λ (x : Result Failure (Unit {0}) × List (String × Request) × W).
            (x.0, (k, r') ∷ x.1, x.2))
          (settle-with_call out f u g m (settle_one out u g r w).1))
]

module _ (c : Codec) {W : Type 0} (out : Outside W) (bound : Option BoundTool) (q : Delegation)
    (b : Broker) (w : W) where
  -- a key that is there, with the same arguments and no Run yet
  pub record IsRetry : Type 0 where
    pub entry : Request
    pub found : lookup q.key b.requests ≡ some entry
    pub repeated : entry.digest ≡ c.sha256 (c.canonical q)
    pub unresolved : entry.run_id ≡ ""

  -- a new key beside at most 63 others, whose Runs have all ended
  pub record IsNew : Type 0 where
    pub absent : lookup q.key b.requests ≡ none
    pub room : length b.requests < 64
    pub idle : AllEnded out b.requests w

  module _ (f : String → Option Value → CallOptions → W → Result Failure Value × W) where
    -- The outcome does not depend on CallAgent, or a creation is in order.
    abbrev Permits :
        Result Failure Summary × Broker × W → Result Failure Summary × Broker × W → Type 0
    Permits x y = (x ≡ y) ⊎ (IsAcceptable bound q b × (IsNew ⊎ IsRetry))

    open_request-Permits :
        IsAcceptable bound q b
        → lookup q.key b.requests ≡ none
        → length b.requests < 64
        → Permits
            (open_request c out bound q (c.sha256 (c.canonical q)) b w)
            (open_request c (with_call f out) bound q (c.sha256 (c.canonical q)) b w)
    unfolding open_request settle
    open_request-Permits fine new few =
        let same = settle-with_call out f retry_first wait_first b.requests w in
        elim (Result-cases (settle out retry_first wait_first b.requests w).0) [
          | inl (u, done) ↦ inr (
            fine,
            inl (record {
              absent = new;
              room = few;
              idle = settle-AllEnded out retry_first wait_first b.requests w done;
            }),
          )
          | inr (e, failed) ↦ inl (rw (same, open_request, failed) refl)
        ]

    repeat_request-Permits :
        (p : Request)
        → IsAcceptable bound q b
        → lookup q.key b.requests ≡ some p
        → Permits
            (repeat_request c out bound q (c.sha256 (c.canonical q)) p b w)
            (repeat_request c (with_call f out) bound q (c.sha256 (c.canonical q)) p b w)
    unfolding repeat_request
    repeat_request-Permits p fine old =
        let d = c.sha256 (c.canonical q) in
        elim (Bool-cases (str_eq p.digest d)) [
          | inr conflict ↦ inl (rw conflict refl)
          | inl same ↦ elim (Bool-cases (str_eq p.run_id "")) [
            | inr known ↦ inl (rw (same, known) refl)
            | inl empty ↦ inr (
              fine,
              inr (record {
                entry = p;
                found = old;
                repeated = (eq_iff p.digest d).0 same;
                unresolved = (eq_iff p.run_id "").0 empty;
              }),
            )
          ]
        ]

    -- Whatever CallAgent would do, the outcome of delegate_agent is the same with any other in its
    -- place, unless the creation of a child is in order: the target is that of the bound tool or a
    -- configured one, there is an input object, the key has 1 to 128 bytes and no space around it,
    -- the reason has at most 500 characters; and either the key is new, there are fewer than 64
    -- requests and the Run of each has ended, or the key is that of a creation with the same
    -- arguments whose outcome is unknown.
    pub creation_permitted :
        (delegate c out bound q b w ≡ delegate c (with_call f out) bound q b w)
        ⊎ (IsAcceptable bound q b × (IsNew ⊎ IsRetry))
    unfolding delegate
    creation_permitted = elim (Bool-cases (accepted bound q b)) [
      | inr refused ↦ inl (rw refused refl)
      | inl ok_request ↦
          let fine = accepted-IsAcceptable bound q b ok_request in
          elim (Option-cases (lookup q.key b.requests)) [
            | inr (p, old) ↦ rw (ok_request, old, delegate) (repeat_request-Permits p fine old)
            | inl new ↦ elim (Bool-cases (leb 64 (length b.requests))) [
              | inl full ↦ inl (rw (ok_request, new, full, delegate) refl)
              | inr room ↦
                  rw (ok_request, new, room, delegate)
                    (open_request-Permits fine new (ground (arith, room)))
            ]
          ]
    ]

-- The answers of Core that prove that no child was created.
abbrev pub IsRejection : Failure → Type 0
IsRejection (Failure.core s c) =
    ((s ≡ 403) × ((c ≡ "PERMISSION_DENIED") ⊎ (c ≡ "FORBIDDEN")))
    ⊎ ((s ≡ 401) × (c ≡ "UNAUTHORIZED"))
    ⊎ ((s ≡ 422) × (c ≡ "VALIDATION_FAILED"))
    ⊎ ((s ≡ 400) × (c ≡ "BAD_REQUEST"))
    ⊎ ((s ≡ 429) × (c ≡ "RATE_LIMITED"))
IsRejection _ = ⊥

-- A failure that takes the entry of `j` away.
abbrev pub IsFreed : Failure → Bool → Delegation → String → Type 0
IsFreed e exists q j = IsRejection e × (exists ≡ false) × (j ≡ q.key)

rejected : Failure → Bool
rejected e = is_some (definite_rejection e)

rejected_sound : (e : Failure) → rejected e ≡ true → IsRejection e
unfolding rejected definite_rejection
rejected_sound (Failure.core s c) h = ground (
  arith,
  eq_iff c "PERMISSION_DENIED",
  eq_iff c "FORBIDDEN",
  eq_iff c "UNAUTHORIZED",
  eq_iff c "VALIDATION_FAILED",
  eq_iff c "BAD_REQUEST",
  eq_iff c "RATE_LIMITED",
)
rejected_sound _ h = absurd (cc)

rejected_complete : (e : Failure) → IsRejection e → rejected e ≡ true
unfolding rejected definite_rejection
rejected_complete (Failure.core s c) h = ground (
  arith,
  eq_iff c "PERMISSION_DENIED",
  eq_iff c "FORBIDDEN",
  eq_iff c "UNAUTHORIZED",
  eq_iff c "VALIDATION_FAILED",
  eq_iff c "BAD_REQUEST",
  eq_iff c "RATE_LIMITED",
)
rejected_complete _ h = elim h [ ]

conclude-IsFreed :
    (c : Codec) (exists : Bool) (q : Delegation) (d : String) (e : Failure) (b : Broker)
    (j : String)
    → (IsFreed e exists q j → lookup j (conclude c exists q d (err e) b).1.requests ≡ none)
      × (¬ (IsFreed e exists q j)
          → lookup j (conclude c exists q d (err e) b).1.requests ≡ lookup j b.requests)
unfolding conclude rejected
conclude-IsFreed c exists q d e b j = (
  λ (r, new, same).
      ground (arith, rejected_complete e r, lookup-delete q.key j b.requests, eq_iff q.key j),
  λ other. elim (Option-cases (definite_rejection e)) [
    | inl t ↦ rw (t, conclude)
    | inr (x, t) ↦ elim (Bool-cases exists) [
      | inl old ↦ rw (t, conclude) (rw old)
      | inr new ↦ elim (Bool-cases (str_eq q.key j)) [
        | inl same ↦
            absurd (other (rejected_sound e (rw (t, rejected)), new, sym ((eq_iff q.key j).0 same)))
        | inr differ ↦ rw (t, conclude) (rw new (rw lookup-delete (rw differ)))
      ]
    ]
  ],
)

module _ (c : Codec) {W : Type 0} (out : Outside W) (bound : Option BoundTool) (q : Delegation)
    (b : Broker) (w : W) (d : String) (e : Failure)
    (failed : (out.call_agent q.target q.input (call_options c bound q b) w).0 ≡ err e) where
  -- A failed creation frees its key exactly where Core's answer proves that no child exists and
  -- the key was new. In every other case, a retry of an older attempt included, each key keeps
  -- the entry that it had.
  pub failed_creation_frees_key :
      (exists : Bool) (j : String)
      → (IsFreed e exists q j → lookup j (create c out exists bound q d b w).1.requests ≡ none)
        × (¬ (IsFreed e exists q j)
            → lookup j (create c out exists bound q d b w).1.requests ≡ lookup j b.requests)
  unfolding create
  failed_creation_frees_key exists j = rw failed (conclude-IsFreed c exists q d e b j)
