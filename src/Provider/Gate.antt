-- ===== src/Provider/Gate.antt =====
-- The wait for the lock of host authentication: pkg/adapters/host_auth_gate.go.
use openlinker_agent_node.Base.{
  ℕ, ◌+◌, ◌≤◌, ◌≡◌, ◌≢◌, ◌⊎◌, refl, Bool, true, false, not, ◌&&◌, ◌||◌, List, [], ◌∷◌, Option, none,
  some, if◌then◌else◌, Bool-cases, Option-cases, inl, inr, str_eq, arith, All,
}
use openlinker_agent_node.Config.Sandbox.{enabled}
use openlinker_agent_node.Provider.{ProviderConfig}

-- validateHostAuthConcurrency
unfoldable pub valid_host_auth : ProviderConfig → Bool
valid_host_auth c =
    str_eq c.host_auth_concurrency ""
    || (enabled c.session_isolation
        && (str_eq c.host_auth_concurrency "serial"
            || str_eq c.host_auth_concurrency "client-managed"))

-- what AcquireLock returns
pub data Attempt : Type 0 where
  acquired : Attempt
  busy : Attempt
  unsafe : Attempt

-- One round of the loop: whether the context is done before the attempt, the attempt, whether it
-- is done right after, and whether it ends while the timer runs.
pub record Round : Type 0 where
  pub done_before : Bool
  pub attempt : Attempt
  pub done_after : Bool
  pub done_waiting : Bool

pub data GateStep : Type 0 where
  locks : GateStep
  unlocks : GateStep
  says_waiting : GateStep

-- how the loop ends
pub data Admission : Type 0 where
  admitted : Admission
  cancelled : Admission
  unavailable : Admission
  event_failed : Admission
  still_waiting : Admission  -- after the rounds that are given

abbrev pub Gate : Type 0
Gate = Admission × List GateStep

-- `emits` is none where there is no channel, and else whether the event is taken
module _ (emits : Option Bool) where
  -- the message of the first wait
  unfoldable pub say_waiting : Bool → Gate → Gate
  say_waiting true rest = rest
  say_waiting false rest = elim emits [
    | none ↦ rest
    | some true ↦ (rest.0, says_waiting ∷ rest.1)
    | some false ↦ (event_failed, says_waiting ∷ [])
  ]

  -- one round, from AcquireLock on, where `rest` is what follows the timer
  unfoldable pub try_lock : Attempt → Bool → Round → Gate → Gate
  unfolding say_waiting
  try_lock acquired waiting r rest =
      if r.done_after then (cancelled, locks ∷ unlocks ∷ []) else (admitted, locks ∷ [])
  try_lock unsafe waiting r rest = (unavailable, [])
  try_lock busy waiting r rest =
      say_waiting waiting (if r.done_waiting then (cancelled, []) else rest)

  -- the loop of acquireHostAuthPermit
  unfoldable pub wait_for_permit : Bool → List Round → Gate
  unfolding try_lock
  wait_for_permit waiting [] = (still_waiting, [])
  wait_for_permit waiting (r ∷ rounds) =
      let rest = wait_for_permit true rounds in
      if r.done_before then (cancelled, []) else try_lock r.attempt waiting r rest

  -- acquireHostAuthPermit; `needed` is whether there is an isolated session and the policy is not
  -- client-managed, `path` whether the lock's path could be prepared
  unfoldable pub acquire_permit : (needed done path : Bool) → List Round → Gate
  unfolding wait_for_permit
  acquire_permit needed done path rounds =
      if not needed
      then (if done then cancelled else admitted, [])
      else if done
      then (cancelled, [])
      else if not path
      then (unavailable, [])
      else wait_for_permit false rounds

abbrev pub messages : List GateStep → ℕ
messages [] = 0
messages (says_waiting ∷ rest) = 1 + messages rest
messages (locks ∷ rest) = messages rest
messages (unlocks ∷ rest) = messages rest

-- whether the lock is held after the steps
abbrev pub holds_lock : Bool → List GateStep → Bool
holds_lock held [] = held
holds_lock held (locks ∷ rest) = holds_lock true rest
holds_lock held (unlocks ∷ rest) = holds_lock false rest
holds_lock held (says_waiting ∷ rest) = holds_lock held rest

abbrev pub is_admitted : Admission → Bool
is_admitted admitted = true
is_admitted cancelled = false
is_admitted unavailable = false
is_admitted event_failed = false
is_admitted still_waiting = false

-- With the lock exactly where it is admitted, and at most so many messages.
record IsFair (limit : ℕ) (g : Gate) : Type 0 where
  lock : holds_lock false g.1 ≡ is_admitted g.0
  said : messages g.1 ≤ limit

-- A round that goes on to the next.
abbrev pub IsBusy : Round → Type 0
IsBusy r = (r.done_before ≡ false) × (r.attempt ≡ busy) × (r.done_waiting ≡ false)

abbrev message_left : Bool → ℕ
message_left waiting = if waiting then 0 else 1

more-IsFair : (waiting : Bool) (g : Gate) → IsFair 0 g → IsFair (message_left waiting) g
more-IsFair true g h = h
more-IsFair false g h = record { lock = h.lock; said = let s = h.said in omega (arith, s) }

either-IsFair :
    (limit : ℕ) (b : Bool) (g h : Gate)
    → IsFair limit g
    → IsFair limit h
    → IsFair limit (if b then g else h)
either-IsFair limit true g h k l = k
either-IsFair limit false g h k l = l

module _ (emits : Option Bool) where
  say_waiting-IsFair :
      (waiting : Bool) (g : Gate)
      → IsFair 0 g
      → IsFair (message_left waiting) (say_waiting emits waiting g)
  unfolding say_waiting
  say_waiting-IsFair true g h = h
  say_waiting-IsFair false g h = elim (Option-cases emits) [
    | inl mute ↦ rw (mute, say_waiting) (more-IsFair false g h)
    | inr (true, e) ↦
        rw (e, say_waiting) (record { lock = h.lock; said = let s = h.said in omega (arith, s) })
    | inr (false, e) ↦ rw (e, say_waiting) (record { lock = refl; said = omega arith })
  ]

  try_lock-IsFair :
      (attempt : Attempt) (waiting : Bool) (r : Round) (g : Gate)
      → IsFair 0 g
      → IsFair (message_left waiting) (try_lock emits attempt waiting r g)
  unfolding try_lock
  try_lock-IsFair acquired waiting r g h = elim (Bool-cases r.done_after) [
    | inl ended ↦ rw ended (
        more-IsFair waiting (cancelled, locks ∷ unlocks ∷ [])
          (record { lock = refl; said = omega arith }))
    | inr fine ↦
        rw fine
          (more-IsFair waiting (admitted, locks ∷ []) (record { lock = refl; said = omega arith }))
  ]
  try_lock-IsFair unsafe waiting r g h =
      more-IsFair waiting (unavailable, []) (record { lock = refl; said = omega arith })
  try_lock-IsFair busy waiting r g h =
      let ended : IsFair 0 (cancelled, []) = record { lock = refl; said = omega arith } in
      say_waiting-IsFair waiting (if r.done_waiting then (cancelled, []) else g)
        (elim (Bool-cases r.done_waiting) [ inl e ↦ rw e ended | inr e ↦ rw e h ])

  wait_for_permit-IsFair :
      (waiting : Bool) (rounds : List Round)
      → IsFair (message_left waiting) (wait_for_permit emits waiting rounds)
  unfolding wait_for_permit
  wait_for_permit-IsFair waiting [] =
      more-IsFair waiting (still_waiting, []) (record { lock = refl; said = omega arith })
  wait_for_permit-IsFair waiting (r ∷ rounds) =
      let rest = wait_for_permit emits true rounds in
      either-IsFair (message_left waiting) r.done_before (cancelled, [])
        (try_lock emits r.attempt waiting r rest)
        (more-IsFair waiting (cancelled, []) (record { lock = refl; said = omega arith }))
        (try_lock-IsFair r.attempt waiting r rest (wait_for_permit-IsFair true rounds))

  say_waiting-still :
      (waiting : Bool) (g : Gate)
      → (say_waiting emits waiting g).0 ≡ still_waiting
      → g.0 ≡ still_waiting
  unfolding say_waiting
  say_waiting-still true g h = h
  say_waiting-still false g h = elim (Option-cases emits) [
    | inl mute ↦ rw (mute, say_waiting) at h
    | inr (true, e) ↦ rw (e, say_waiting) at h
    | inr (false, e) ↦ absurd (cc (rw (e, say_waiting) at h))
  ]

  try_lock-still :
      (attempt : Attempt) (waiting : Bool) (r : Round) (g : Gate)
      → (try_lock emits attempt waiting r g).0 ≡ still_waiting
      → (attempt ≡ busy) × (r.done_waiting ≡ false) × (g.0 ≡ still_waiting)
  unfolding try_lock
  try_lock-still acquired waiting r g h = elim (Bool-cases r.done_after) [
    | inl ended ↦ absurd (cc (rw ended at h))
    | inr fine ↦ absurd (cc (rw fine at h))
  ]
  try_lock-still unsafe waiting r g h = absurd cc
  try_lock-still busy waiting r g h =
      let k = say_waiting-still waiting (if r.done_waiting then (cancelled, []) else g) h in
      elim (Bool-cases r.done_waiting) [
        | inl ended ↦ absurd (cc (rw ended at k))
        | inr goes ↦ (refl, goes, rw goes at k)
      ]

  wait_for_permit-still :
      (waiting : Bool) (rounds : List Round)
      → (wait_for_permit emits waiting rounds).0 ≡ still_waiting
      → All IsBusy rounds
  unfolding wait_for_permit
  wait_for_permit-still waiting [] h = tt
  wait_for_permit-still waiting (r ∷ rounds) h =
      let rest = wait_for_permit emits true rounds in
      elim (Bool-cases r.done_before) [
        | inl ended ↦ absurd (cc (rw ended at h))
        | inr live ↦
            let k : (try_lock emits r.attempt waiting r rest).0 ≡ still_waiting =
              ground (arith, live, h) in
            let (contended, waits, later) = try_lock-still r.attempt waiting r rest k in
            ((live, contended, waits), wait_for_permit-still true rounds later)
      ]

still_or : (a : Admission) → (a ≡ still_waiting) ⊎ (a ≢ still_waiting)
still_or admitted = inr (λ h. cc)
still_or cancelled = inr (λ h. cc)
still_or unavailable = inr (λ h. cc)
still_or event_failed = inr (λ h. cc)
still_or still_waiting = inl refl

wait_for_permit-ends :
    (emits : Option Bool) (rounds : List Round)
    → ((wait_for_permit emits false rounds).0 ≢ still_waiting) ⊎ All IsBusy rounds
wait_for_permit-ends emits rounds = elim (still_or (wait_for_permit emits false rounds).0) [
  | inl still ↦ inr (wait_for_permit-still emits false rounds still)
  | inr ended ↦ inl ended
]

-- However the rounds go, a run that is admitted to the host's authentication holds the lock, and
-- one that is cancelled or refused does not, also where its context ended just after it got the
-- lock; the wait is announced at most once; and either the wait ends within the rounds, or
-- in each of them the lock is busy and the context is not done.
pub permit_fair :
    (emits : Option Bool) (done path : Bool) (rounds : List Round)
    → let o = acquire_permit emits true done path rounds in
      (holds_lock false o.1 ≡ is_admitted o.0)
      × (messages o.1 ≤ 1)
      × ((o.0 ≢ still_waiting) ⊎ All IsBusy rounds)
unfolding acquire_permit
permit_fair emits done path rounds = elim (Bool-cases done) [
  | inl ended ↦ rw ended (refl, omega arith, inl (λ h. cc))
  | inr live ↦ elim (Bool-cases path) [
    | inr missing ↦ rw (live, missing) (refl, omega arith, inl (λ h. cc))
    | inl there ↦
        let fair = wait_for_permit-IsFair emits false rounds in
        rw (live, there) (fair.lock, fair.said, wait_for_permit-ends emits rounds)
  ]
]
