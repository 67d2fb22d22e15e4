-- ===== src/Helper/Scoped.antt =====
-- What a request to internal/agentnode/helper_server.go can do, by the history of the server.
use Prim.Native.String.{String, len}
use openlinker_agent_node.Base.{
  ℕ, ◌≤◌, ◌≡◌, ◌≢◌, refl, ◌↔◌, ◌⊎◌, inl, inr, Bool, true, false, not, ◌||◌, List, [], ◌∷◌, ◌++◌,
  ◌==◌, some, some_inj, Bool-cases, Option-cases, str_eq, eq_iff, arith, codes, All, All-any,
  All-map, any, ltb,
}
use openlinker_agent_node.Helper.{
  Sink, HelperSession, HelperRequest, EventBody, CallBody, Effect, bearer, authenticate,
  max_helper_body_bytes, decode_helper_json, last_code, bad_codes, bad_key, send_by, other_run,
  event_in, handle_helper_event, call_in, handle_call_agent,
}
use openlinker_agent_node.Helper.Sessions.{Action, after, IsOpen, open-lookup, lookup-IsOpen}

-- A request is let in exactly by a token that is not empty and whose session is open: it was
-- created with that token, and since then neither replaced, nor closed, nor was the server stopped.
pub authenticate_iff :
    {B : Type 0} (q : HelperRequest B) (past : List Action) (session : HelperSession)
    → (authenticate q (after past) ≡ some session)
      ↔ ((bearer q ≢ "") × IsOpen (bearer q) session past)
unfolding authenticate
authenticate_iff q past session = (
  λ h. elim (Bool-cases (str_eq (bearer q) "")) [
    | inl empty ↦ absurd (cc (rw empty at h))
    | inr given ↦
        let d : bearer q ≢ "" = ground (arith, given, eq_iff (bearer q) "") in
        (d, lookup-IsOpen (bearer q) session past (rw given at h))
  ],
  λ (d, h).
      let given : str_eq (bearer q) "" ≡ false = ground (arith, d, eq_iff (bearer q) "") in
      rw given (open-lookup (bearer q) session past h),
)

-- What the request must be, whatever it asks for.
pub record IsAdmitted {B : Type 0} (q : HelperRequest B) (past : List Action)
    (session : HelperSession) (body : B) : Type 0 where
  pub posted : q.method ≡ "POST"
  pub known : bearer q ≢ ""
  pub still_open : IsOpen (bearer q) session past
  pub bounded : q.size ≤ 1048576
  pub content : q.value ≡ some body

decode_helper_json-some :
    {B : Type 0} (q : HelperRequest B) (body : B)
    → decode_helper_json q ≡ some body
    → (q.size ≤ 1048576) × (q.value ≡ some body)
unfolding decode_helper_json
decode_helper_json-some q body h =
    elim (Bool-cases (not q.readable || ltb max_helper_body_bytes q.size)) [
      | inl bad ↦ absurd (cc (rw bad at h))
      | inr good ↦ (ground (arith, good), rw good at h)
    ]

-- the run that a body names, if it names one, is that of the session
abbrev pub OfRun : String → HelperSession → Type 0
OfRun run_id session = (run_id ≡ "") ⊎ (run_id ≡ session.run_id)

other_run-OfRun :
    (accepted : Effect → Bool) (run_id : String) (session : HelperSession)
    → other_run accepted run_id session ≡ false
    → OfRun run_id session
other_run-OfRun accepted run_id session h = elim (Bool-cases (str_eq run_id "")) [
  | inl empty ↦ inl ((eq_iff run_id "").0 empty)
  | inr given ↦
      let same : str_eq run_id session.run_id ≡ true = ground (arith, h, given) in
      inr ((eq_iff run_id session.run_id).0 same)
]

-- neither the first nor the last code is a space
abbrev pub IsTrimmed : List ℕ → Type 0
IsTrimmed cs = ((rest : List ℕ) → cs ≢ 32 ∷ rest) × ((front : List ℕ) → cs ≢ front ++ 32 ∷ [])

-- printable ASCII, with no space at the ends, of 1 to 255 bytes
abbrev pub IsKey : String → Type 0
IsKey key =
    (len key ≤ 255)
    × (codes key ≢ [])
    × All (λ c. (32 ≤ c) × (c ≤ 126)) (codes key)
    × IsTrimmed (codes key)

last_code-append : (c : ℕ) (front : List ℕ) → last_code c (front ++ 32 ∷ []) ≡ 32
last_code-append c [] = refl
last_code-append c (d ∷ front) = last_code-append d front

last_of : (c : ℕ) (rest front : List ℕ) → c ∷ rest ≡ front ++ 32 ∷ [] → last_code c rest ≡ 32
last_of c rest [] e =
    let first : c ≡ 32 = cc in let none_left : rest ≡ [] = cc in rw none_left first
last_of c rest (d ∷ front) e =
    let tail : rest ≡ front ++ 32 ∷ [] = cc in rw tail (last_code-append c front)

bad_codes-IsTrimmed : (cs : List ℕ) → bad_codes cs ≡ false → IsTrimmed cs
bad_codes-IsTrimmed [] h = absurd cc
bad_codes-IsTrimmed (c ∷ rest) h =
    let first : (c == 32) ≡ false = ground (arith, h) in
    let last : (last_code c rest == 32) ≡ false = ground (arith, h) in
    (
      λ others e. let same : c ≡ 32 = cc in ground (arith, first, same),
      λ front e. let same = last_of c rest front e in ground (arith, last, same),
    )

bad_codes-All :
    (cs : List ℕ) → bad_codes cs ≡ false → (cs ≢ []) × All (λ c. (32 ≤ c) × (c ≤ 126)) cs
bad_codes-All [] h = absurd cc
bad_codes-All (c ∷ rest) h =
    let fine : any (λ d. ltb d 32 || ltb 126 d) (c ∷ rest) ≡ false = ground (arith, h) in
    (
      (λ e. cc),
      All-map (λ d k. (ground (arith, k), ground (arith, k))) (c ∷ rest)
          (All-any (λ d. ltb d 32 || ltb 126 d) (c ∷ rest) fine),
    )

bad_key-IsKey : (key : String) → bad_key key ≡ false → IsKey key
unfolding bad_key
bad_key-IsKey key h =
    let shown : bad_codes (codes key) ≡ false = ground (arith, h) in
    let (some_code, ascii) = bad_codes-All (codes key) shown in
    (ground (arith, h), some_code, ascii, bad_codes-IsTrimmed (codes key) shown)

module _ (accepted : Effect → Bool) where
  send_by-some :
      (sink : Sink) (d e : Effect)
      → (send_by accepted sink d).1 ≡ some e
      → (d ≡ e) × (sink ≢ Sink.no_sink)
  unfolding send_by
  send_by-some Sink.no_sink d e h = absurd cc
  send_by-some Sink.plain d e h = (some_inj h, (λ k. cc))
  send_by-some Sink.checked d e h = elim (Bool-cases (accepted d)) [
    | inl fine ↦ (some_inj (rw fine at h), (λ k. cc))
    | inr refused ↦ (some_inj (rw refused at h), (λ k. cc))
  ]

  event_in-some :
      (session : HelperSession) (body : EventBody) (e : Effect)
      → (event_in accepted session (some body)).1 ≡ some e
      → (Effect.emits_event session.run_id body.event_type ≡ e)
        × OfRun body.run_id session
        × (body.event_type ≢ "")
        × (session.sink ≢ Sink.no_sink)
  unfolding event_in
  event_in-some session body e h = elim (Bool-cases (other_run accepted body.run_id session)) [
    | inl other ↦ absurd (cc (rw other at h))
    | inr own ↦ elim (Bool-cases (str_eq body.event_type "")) [
      | inl empty ↦ absurd (cc (rw (own, empty) at h))
      | inr given ↦
          let d = Effect.emits_event session.run_id body.event_type in
          let (same, sink) = send_by-some session.sink d e (rw (own, given) at h) in
          let named : body.event_type ≢ "" = ground (arith, given, eq_iff body.event_type "") in
          (same, other_run-OfRun accepted body.run_id session own, named, sink)
    ]
  ]

  call_in-some :
      (session : HelperSession) (body : CallBody) (e : Effect)
      → (call_in accepted session (some body)).1 ≡ some e
      → (Effect.calls_agent session.run_id body.target_agent_id body.idempotency_key ≡ e)
        × OfRun body.run_id session
        × (body.target_agent_id ≢ "")
        × IsKey body.idempotency_key
  unfolding call_in
  call_in-some session body e h = elim (Bool-cases (other_run accepted body.run_id session)) [
    | inl other ↦ absurd (cc (rw other at h))
    | inr own ↦ elim (Bool-cases (str_eq body.target_agent_id "")) [
      | inl empty ↦ absurd (cc (rw (own, empty) at h))
      | inr given ↦ elim (Bool-cases (bad_key body.idempotency_key)) [
        | inl bad ↦ absurd (cc (rw (own, given, bad) at h))
        | inr good ↦
            let d = Effect.calls_agent session.run_id body.target_agent_id body.idempotency_key in
            let named : body.target_agent_id ≢ "" =
              ground (arith, given, eq_iff body.target_agent_id "") in
            let same : d ≡ e = elim (Bool-cases (accepted d)) [
              | inl fine ↦ some_inj (rw (own, given, good, fine) at h)
              | inr refused ↦ some_inj (rw (own, given, good, refused) at h)
            ] in
            (
              same,
              other_run-OfRun accepted body.run_id session own,
              named,
              bad_key-IsKey body.idempotency_key good,
            )
      ]
    ]
  ]

  admitted :
      {B : Type 0} (q : HelperRequest B) (past : List Action) (session : HelperSession) (body : B)
      → str_eq q.method "POST" ≡ true
      → authenticate q (after past) ≡ some session
      → decode_helper_json q ≡ some body
      → IsAdmitted q past session body
  admitted q past session body posted known decoded =
      let (token, alive) = (authenticate_iff q past session).0 known in
      let (small, value) = decode_helper_json-some q body decoded in
      record {
        posted = (eq_iff q.method "POST").0 posted;
        known = token;
        still_open = alive;
        bounded = small;
        content = value;
      }

  -- A run context is asked to send an event only for a POST with the token of a session that is
  -- open by the history of the server, for that session's run, with a body of at most 1 MiB that
  -- names no other run and an event type, where the run context takes events.
  pub event_scoped :
      (q : HelperRequest EventBody) (past : List Action) (e : Effect)
      → (handle_helper_event accepted q (after past)).1 ≡ some e
      → (session : HelperSession) × (body : EventBody) × IsAdmitted q past session body
        × (Effect.emits_event session.run_id body.event_type ≡ e)
        × OfRun body.run_id session
        × (body.event_type ≢ "")
        × (session.sink ≢ Sink.no_sink)
  unfolding handle_helper_event event_in
  event_scoped q past e h = elim (Bool-cases (str_eq q.method "POST")) [
    | inr other ↦ absurd (cc (rw other at h))
    | inl posted ↦ elim (Option-cases (authenticate q (after past))) [
      | inl unknown ↦ absurd (cc (rw (posted, handle_helper_event, unknown) at h))
      | inr (session, known) ↦ elim (Option-cases (decode_helper_json q)) [
        | inl bad ↦ absurd (cc (rw (posted, handle_helper_event, known, bad) at h))
        | inr (body, decoded) ↦
            let k = rw (posted, handle_helper_event, known, decoded) at h in
            let (same, run, named, sink) = event_in-some session body e k in
            (
              session,
              body,
              admitted q past session body posted known decoded,
              same,
              run,
              named,
              sink,
            )
      ]
    ]
  ]

  -- An agent is called only for a POST with the token of a session that is open by the history of
  -- the server, by that session's run, with a body of at most 1 MiB that names no other run, a
  -- target, and a key of 1 to 255 printable ASCII bytes with no space at its start or end.
  pub call_scoped :
      (q : HelperRequest CallBody) (past : List Action) (e : Effect)
      → (handle_call_agent accepted q (after past)).1 ≡ some e
      → (session : HelperSession) × (body : CallBody) × IsAdmitted q past session body
        × (Effect.calls_agent session.run_id body.target_agent_id body.idempotency_key ≡ e)
        × OfRun body.run_id session
        × (body.target_agent_id ≢ "")
        × IsKey body.idempotency_key
  unfolding handle_call_agent call_in
  call_scoped q past e h = elim (Bool-cases (str_eq q.method "POST")) [
    | inr other ↦ absurd (cc (rw other at h))
    | inl posted ↦ elim (Option-cases (authenticate q (after past))) [
      | inl unknown ↦ absurd (cc (rw (posted, handle_call_agent, unknown) at h))
      | inr (session, known) ↦ elim (Option-cases (decode_helper_json q)) [
        | inl bad ↦ absurd (cc (rw (posted, handle_call_agent, known, bad) at h))
        | inr (body, decoded) ↦
            let k = rw (posted, handle_call_agent, known, decoded) at h in
            let (same, run, named, key) = call_in-some session body e k in
            (
              session,
              body,
              admitted q past session body posted known decoded,
              same,
              run,
              named,
              key,
            )
      ]
    ]
  ]
