-- ===== src/A2a/Response/Delivery.antt =====
-- What a client receives of a response that passes through the writer.
use openlinker_agent_node.Base.{
  ℕ, ◌≡◌, refl, sym, ap, ◌∙◌, ◌⊎◌, inl, inr, Bool, true, List, [], ◌∷◌, arith, subst, Bool-cases,
  if◌then◌else◌,
}
use openlinker_agent_node.A2a.Response.{
  send, Reply, Sent, interim, header, is_interim, received, chunk, flushed, envelope, Writer,
  write_header, flush_held, write_body, ensure_header, write_over, write, flush, finish, Action,
  set_status, send_bytes, send_flush, act, act_all, new_writer,
}
use openlinker_agent_node.A2a.Response.Writing.{
  bytes_of, headers_in, payload, status_of, IsHeaded, Delivers, flush_held-Open, act_all-Delivers,
}

-- The status of the response: an interim one leaves it to the first write or the end.
abbrev pub final_status : ℕ → ℕ
final_status status = if is_interim status then 200 else status

-- A header before all bytes and flushes, after interim statuses at most, and no other later.
abbrev pub IsStarted : ℕ → List Sent → Type 0
IsStarted status (interim s ∷ rest) = IsStarted status rest
IsStarted status (header s ∷ rest) = (s ≡ status) × (headers_in rest ≡ 0)
IsStarted status _ = ⊥

-- The client gets the envelope alone.
abbrev pub IsReplaced : (List ℕ → Bool) → Reply → List Action → List Sent → Type 0
IsReplaced unavailable reply actions sent =
    (sent ≡ envelope reply ∷ [])
    × (status_of actions ≡ 502)
    × (unavailable (payload actions) ≡ true)

-- The client gets what the proxy wrote, after a header with the proxy's status.
abbrev pub IsPassed : List Action → List Sent → Type 0
IsPassed actions sent =
    (bytes_of sent ≡ payload actions) × IsStarted (final_status (status_of actions)) sent

-- Once a header was written, the status stays.
abbrev Keeps : Writer → Writer → Type 0
Keeps w w' = (w'.wrote_header ≡ true) × (w'.status ≡ w.status)

ensure_header-Keeps : (w : Writer) → w.wrote_header ≡ true → ensure_header w ≡ w
unfolding ensure_header
ensure_header-Keeps w h = rw h refl

flush_held-Keeps : (w : Writer) → w.wrote_header ≡ true → Keeps w (flush_held w).0
unfolding flush_held
flush_held-Keeps w h = ground (arith, h)

write_body-Keeps : (b : List ℕ) (w : Writer) → w.wrote_header ≡ true → Keeps w (write_body b w).0
unfolding write_body write_over
write_body-Keeps b w h = ground (arith, h, flush_held-Keeps w h)

act-Keeps : (a : Action) (w : Writer) → w.wrote_header ≡ true → Keeps w (act a w)
unfolding act write flush write_header
act-Keeps (set_status s) w h = ground (arith, h)
act-Keeps (send_bytes b) w h =
    subst (λ (v : Writer). Keeps w (write_body b v).0) (sym (ensure_header-Keeps w h))
      (write_body-Keeps b w h)
act-Keeps send_flush w h =
    subst
      (λ (v : Writer).
        Keeps w (if v.hold_error then v else record v { target = send flushed v.target }))
      (sym (ensure_header-Keeps w h)) (ground (arith, h))

act_all-Keeps :
    (actions : List Action) (w : Writer) → w.wrote_header ≡ true → Keeps w (act_all actions w)
unfolding act_all
act_all-Keeps [] w h = (h, refl)
act_all-Keeps (a ∷ rest) w h =
    let (now, same) = act-Keeps a w h in
    let (later, same') = act_all-Keeps rest (act a w) now in (later, same' ∙ same)

first_status :
    (a : Action) (rest : List Action)
    → ((act a new_writer).wrote_header ≡ true) × ((act a new_writer).status ≡ status_of (a ∷ rest))
unfolding act write flush write_header ensure_header write_body
first_status (set_status s) rest = (ground arith, ground arith)
first_status (send_bytes b) rest = (refl, refl)
first_status send_flush rest = (refl, refl)

finish-Delivers :
    (unavailable : List ℕ → Bool) (reply : Reply) (acc : List ℕ) (w : Writer)
    → Delivers acc w
    → w.wrote_header ≡ true
    → let sent = (finish unavailable reply w).target.sent in
      ((sent ≡ envelope reply ∷ []) × (w.status ≡ 502) × (unavailable acc ≡ true))
      ⊎ ((bytes_of sent ≡ acc) × IsHeaded w.status sent)
unfolding finish
finish-Delivers unavailable reply acc w (alive, inl i) h = absurd cc
finish-Delivers unavailable reply acc w (alive, inr (inr i)) h = inr (ground arith)
finish-Delivers unavailable reply acc w (alive, inr (inl i)) h =
    ground (arith, flush_held-Open acc w alive i, flush_held-Keeps w h)

-- What a client makes of writes without a header.
received-IsStarted :
    (xs : List Sent)
    → headers_in xs ≡ 0
    → (bytes_of (received xs) ≡ bytes_of xs) × IsStarted 200 (received xs)
received-IsStarted [] e = (refl, (refl, refl))
received-IsStarted (interim s ∷ xs) e = received-IsStarted xs e
received-IsStarted (header s ∷ xs) e = absurd (omega (arith, e))
received-IsStarted (chunk b ∷ xs) e = (refl, (refl, e))
received-IsStarted (flushed ∷ xs) e = (refl, (refl, e))
received-IsStarted (envelope r ∷ xs) e = absurd (omega (arith, e))

-- An interim status is followed by a 200, and any other is the response's.
IsHeaded-IsStarted :
    (status : ℕ) (xs : List Sent)
    → IsHeaded status xs
    → (bytes_of (received xs) ≡ bytes_of xs) × IsStarted (final_status status) (received xs)
IsHeaded-IsStarted status [] h = elim h [ ]
IsHeaded-IsStarted status (interim _ ∷ xs) h = elim h [ ]
IsHeaded-IsStarted status (chunk _ ∷ xs) h = elim h [ ]
IsHeaded-IsStarted status (flushed ∷ xs) h = elim h [ ]
IsHeaded-IsStarted status (envelope _ ∷ xs) h = elim h [ ]
IsHeaded-IsStarted status (header s ∷ xs) (e, later) = elim (Bool-cases (is_interim s)) [
  | inl waits ↦ ground (arith, received-IsStarted xs later)
  | inr final ↦ ground arith
]

written_delivered :
    (unavailable : List ℕ → Bool) (reply : Reply) (actions : List Action)
    → let sent = (finish unavailable reply (act_all actions new_writer)).target.sent in
      IsReplaced unavailable reply actions sent
      ⊎ ((bytes_of sent ≡ payload actions) × IsHeaded (status_of actions) sent)
unfolding act_all finish
written_delivered unavailable reply [] = inr (refl, (refl, refl))
written_delivered unavailable reply (a ∷ rest) =
    let actions = a ∷ rest in
    let w = act_all actions new_writer in
    let (started, status) = first_status a rest in
    let (written, same) = act_all-Keeps rest (act a new_writer) started in
    subst
      (λ (s : ℕ).
        let sent = (finish unavailable reply w).target.sent in
        ((sent ≡ envelope reply ∷ []) × (s ≡ 502) × (unavailable (payload actions) ≡ true))
        ⊎ ((bytes_of sent ≡ payload actions) × IsHeaded s sent))
      (same ∙ status)
      (finish-Delivers unavailable reply (payload actions) w
        (act_all-Delivers [] actions new_writer (ground arith)) written)

-- Whatever the proxy writes, in whatever pieces and with whatever flushes, a client that stays
-- gets one header before all bytes, with the first status that the proxy wrote (200 where it wrote
-- none first, or an interim 1xx), and then exactly the bytes that it wrote, in order; or the
-- listener's envelope and nothing else. The envelope replaces only a 502 that was held back whole
-- and whose body the SDK's marker is recognised in.
pub response_delivered :
    (unavailable : List ℕ → Bool) (reply : Reply) (actions : List Action)
    → let sent = received (finish unavailable reply (act_all actions new_writer)).target.sent in
      IsReplaced unavailable reply actions sent ⊎ IsPassed actions sent
response_delivered unavailable reply actions = elim (written_delivered unavailable reply actions) [
  | inl (e, held, marked) ↦ inl (ap received e, held, marked)
  | inr (bytes, headed) ↦
      let (same, started) =
        IsHeaded-IsStarted (status_of actions)
          (finish unavailable reply (act_all actions new_writer)).target.sent headed in
      inr (same ∙ bytes, started)
]
