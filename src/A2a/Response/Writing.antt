-- ===== src/A2a/Response/Writing.antt =====
-- The states of publicA2AProxyResponseWriter while the proxy writes
-- (internal/agentnode/public_a2a_server.go).
use openlinker_agent_node.Base.{
  ℕ, ◌+◌, ◌≡◌, refl, sym, ◌⊎◌, inl, inr, Bool, true, false, List, [], ◌∷◌, ◌++◌, arith, subst,
}
use mathlib.Core.List.{append-nil, append_assoc}
use openlinker_agent_node.A2a.Response.{
  Sent, interim, header, chunk, flushed, envelope, Writer, write_header, flush_held, write_body,
  ensure_header, write_over, after_flush, write, flush, Action, set_status, send_bytes, send_flush,
  act, act_all,
}

abbrev pub bytes_of : List Sent → List ℕ
bytes_of [] = []
bytes_of (chunk b ∷ xs) = b ++ bytes_of xs
bytes_of (_ ∷ xs) = bytes_of xs

abbrev pub headers_in : List Sent → ℕ
headers_in [] = 0
headers_in (header s ∷ xs) = 1 + headers_in xs
headers_in (envelope r ∷ xs) = 1 + headers_in xs
headers_in (_ ∷ xs) = headers_in xs

-- The bytes that the proxy wrote.
abbrev pub payload : List Action → List ℕ
payload [] = []
payload (send_bytes b ∷ xs) = b ++ payload xs
payload (_ ∷ xs) = payload xs

bytes_of-append : (xs ys : List Sent) → bytes_of (xs ++ ys) ≡ bytes_of xs ++ bytes_of ys
bytes_of-append [] ys = refl
bytes_of-append (interim s ∷ xs) ys = bytes_of-append xs ys
bytes_of-append (header s ∷ xs) ys = bytes_of-append xs ys
bytes_of-append (chunk b ∷ xs) ys = simp (bytes_of-append xs ys, append_assoc)
bytes_of-append (flushed ∷ xs) ys = bytes_of-append xs ys
bytes_of-append (envelope r ∷ xs) ys = bytes_of-append xs ys

headers_in-append : (xs ys : List Sent) → headers_in (xs ++ ys) ≡ headers_in xs + headers_in ys
headers_in-append [] ys = omega arith
headers_in-append (interim s ∷ xs) ys = headers_in-append xs ys
headers_in-append (header s ∷ xs) ys = omega (arith, headers_in-append xs ys)
headers_in-append (chunk b ∷ xs) ys = headers_in-append xs ys
headers_in-append (flushed ∷ xs) ys = headers_in-append xs ys
headers_in-append (envelope r ∷ xs) ys = omega (arith, headers_in-append xs ys)

bytes_of-chunk : (xs : List Sent) (b : List ℕ) → bytes_of (xs ++ chunk b ∷ []) ≡ bytes_of xs ++ b
bytes_of-chunk xs b = simp (bytes_of-append, append-nil)

-- Nothing was written yet.
abbrev pub Idle : Writer → List ℕ → Type 0
Idle w acc =
    (w.wrote_header ≡ false)
    × (w.hold_error ≡ false)
    × (w.target.sent ≡ [])
    × (w.body ≡ [])
    × (acc ≡ [])

-- What the proxy makes of the status: its first WriteHeader, unless it writes or flushes before.
abbrev pub status_of : List Action → ℕ
status_of (set_status s ∷ rest) = s
status_of _ = 200

-- A header first, and then no other.
abbrev pub IsHeaded : ℕ → List Sent → Type 0
IsHeaded status (header s ∷ rest) = (s ≡ status) × (headers_in rest ≡ 0)
IsHeaded status _ = ⊥

-- A 502 is held back with all of its body.
abbrev pub Held : Writer → List ℕ → Type 0
Held w acc =
    (w.wrote_header ≡ true)
    × (w.hold_error ≡ true)
    × (w.target.sent ≡ [])
    × (w.status ≡ 502)
    × (w.body ≡ acc)

-- All that was written has been sent, after one header with the status.
abbrev pub Open : Writer → List ℕ → Type 0
Open w acc =
    (w.wrote_header ≡ true)
    × (w.hold_error ≡ false)
    × (w.body ≡ [])
    × (bytes_of w.target.sent ≡ acc)
    × IsHeaded w.status w.target.sent

-- `acc` has been written to a client that is still there.
abbrev pub Delivers : List ℕ → Writer → Type 0
Delivers acc w = (w.target.broken ≡ false) × (Idle w acc ⊎ Held w acc ⊎ Open w acc)

write_header-Delivers :
    (acc : List ℕ) (s : ℕ) (w : Writer) → Delivers acc w → Delivers acc (write_header s w)
unfolding write_header
write_header-Delivers acc s w d = ground arith

-- An error that is let go is sent as it was written.
pub flush_held-Open :
    (acc : List ℕ) (w : Writer)
    → w.target.broken ≡ false
    → Held w acc
    → ((flush_held w).1 ≡ true)
      × ((flush_held w).0.target.broken ≡ false)
      × Open (flush_held w).0 acc
unfolding flush_held
flush_held-Open [] w alive i = ground arith
flush_held-Open (x ∷ xs) w alive i = ground (arith, append-nil (x ∷ xs))

after_flush-Delivers :
    (acc b : List ℕ) (x : Writer × Bool)
    → x.1 ≡ true
    → x.0.target.broken ≡ false
    → Open x.0 acc
    → Delivers (acc ++ b) (after_flush b x).0
after_flush-Delivers acc b (w, done) e alive i =
    ground (arith, bytes_of-chunk w.target.sent b, headers_in-append w.target.sent (chunk b ∷ []))

write_over-Delivers :
    (acc b : List ℕ) (w : Writer)
    → w.target.broken ≡ false
    → Held w acc
    → Delivers (acc ++ b) (write_over b w).0
unfolding write_over
write_over-Delivers acc b w alive i =
    let (done, alive', o) = flush_held-Open acc w alive i in
    after_flush-Delivers acc b (flush_held w) done alive' o

write_body-Open :
    (acc b : List ℕ) (w : Writer)
    → w.target.broken ≡ false
    → Open w acc
    → Delivers (acc ++ b) (write_body b w).0
unfolding write_body
write_body-Open acc b w alive i =
    ground (arith, bytes_of-chunk w.target.sent b, headers_in-append w.target.sent (chunk b ∷ []))

write_body-Delivers :
    (acc b : List ℕ) (w : Writer)
    → Delivers acc w
    → w.wrote_header ≡ true
    → Delivers (acc ++ b) (write_body b w).0
unfolding write_body
write_body-Delivers acc b w (alive, inl i) h = absurd (cc)
write_body-Delivers acc b w (alive, inr (inr i)) h = write_body-Open acc b w alive i
write_body-Delivers acc b w (alive, inr (inl i)) h =
    ground (arith, write_over-Delivers acc b w alive i)

ensure_header-Delivers :
    (acc : List ℕ) (w : Writer)
    → Delivers acc w
    → Delivers acc (ensure_header w) × ((ensure_header w).wrote_header ≡ true)
unfolding ensure_header write_header
ensure_header-Delivers acc w d = (ground arith, ground arith)

write-Delivers : (acc b : List ℕ) (w : Writer) → Delivers acc w → Delivers (acc ++ b) (write b w).0
unfolding write
write-Delivers acc b w d =
    let (d', started) = ensure_header-Delivers acc w d in
    write_body-Delivers acc b (ensure_header w) d' started

flush-Delivers : (acc : List ℕ) (w : Writer) → Delivers acc w → Delivers acc (flush w)
unfolding flush
flush-Delivers acc w d =
    let (d', started) = ensure_header-Delivers acc w d in
    let w' = ensure_header w in
    ground (
      arith,
      d',
      started,
      bytes_of-append w'.target.sent (flushed ∷ []),
      append-nil (bytes_of w'.target.sent),
      headers_in-append w'.target.sent (flushed ∷ []),
    )

pub act_all-Delivers :
    (acc : List ℕ) (actions : List Action) (w : Writer)
    → Delivers acc w
    → Delivers (acc ++ payload actions) (act_all actions w)
unfolding act_all act
act_all-Delivers acc [] w d = subst (λ (x : List ℕ). Delivers x w) (sym (append-nil acc)) d
act_all-Delivers acc (set_status s ∷ rest) w d =
    act_all-Delivers acc rest (write_header s w) (write_header-Delivers acc s w d)
act_all-Delivers acc (send_flush ∷ rest) w d =
    act_all-Delivers acc rest (flush w) (flush-Delivers acc w d)
act_all-Delivers acc (send_bytes b ∷ rest) w d =
    subst (λ (x : List ℕ). Delivers x (act_all rest (write b w).0))
      (append_assoc acc b (payload rest))
      (act_all-Delivers (acc ++ b) rest (write b w).0 (write-Delivers acc b w d))
