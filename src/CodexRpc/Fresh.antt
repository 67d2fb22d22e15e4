-- ===== src/CodexRpc/Fresh.antt =====
-- No two calls of a client of pkg/adapters/codexrpc/client.go are given the same ID.
use openlinker_agent_node.Base.{
  ℕ, ◌+◌, ◌%◌, ◌^◌, ◌≤◌, ◌<◌, String, ◌≡◌, ◌≢◌, refl, sym, ◌∙◌, ap, inl, inr, Bool, true, false,
  ◌||◌, List, [], ◌∷◌, Option, none, some, Bool-cases, Option-cases, arith, length, ltb, leb, All,
  All-map,
}
use openlinker_agent_node.Base.Assoc.{lookup}
use openlinker_agent_node.CodexRpc.{Message, Client, max_output_bytes, max_queued_messages}
use openlinker_agent_node.CodexRpc.Steps.{
  read_request, read_notification, deliver, read_response, read_line, send, tail, wrote, Step,
  call_begins, call_sends, call_receives, call_returns, line, stream_ends, message_written,
  event_taken, client_closes, begin_call, received, registered, step, issued,
}

abbrev pub AllDistinct : List String → Type 0
AllDistinct [] = Unit
AllDistinct (x ∷ xs) = All (λ y. x ≢ y) xs × AllDistinct xs

deliver-next :
    (m : Message) (o : Option (Option Message)) (c : Client) → (deliver m o c).next ≡ c.next
deliver-next m none c = refl
deliver-next m (some none) c = refl
deliver-next m (some (some x)) c = ground arith

read_line-next :
    (b : Bool) (size : ℕ) (m : Option Message) (c : Client) → (read_line b size m c).next ≡ c.next
unfolding read_line read_request read_notification read_response
read_line-next b size none c = ground arith
read_line-next b size (some m) c = ground (arith, deliver-next m (lookup m.id c.pending) c)

module _ (format : ℕ → String) where
  received-next :
      (o : Option (Option Message)) (id : String) (c : Client)
      → (received format o id c).next ≡ c.next
  received-next none id c = refl
  received-next (some none) id c = refl
  received-next (some (some x)) id c = refl

  wrote-next : (failed : Bool) (c : Client) → (wrote failed c).next ≡ c.next
  wrote-next true c = ground arith
  wrote-next false c = refl

  abbrev following : Client → ℕ
  following c = (c.next + 1) % 2 ^ 64

  -- A step registers no ID and leaves the counter, or the next ID.
  abbrev Moves : Option String → Client → Client → Type 0
  Moves none c d = d.next ≡ c.next
  Moves (some id) c d = (id ≡ format (following c)) × (d.next ≡ following c)

  begin_call-Moves :
      (size : ℕ) (c : Client) → Moves (begin_call format size c).0 c (begin_call format size c).1
  unfolding begin_call
  begin_call-Moves size c =
      elim (Bool-cases (ltb max_output_bytes size || leb max_queued_messages (length c.pending))) [
        | inl refused ↦ rw refused refl
        | inr free ↦ rw free (refl, refl)
      ]

  step-Moves : (s : Step) (c : Client) → Moves (registered format s c) c (step format s c)
  unfolding step send
  step-Moves (call_begins size) c = begin_call-Moves size c
  step-Moves (call_sends b m) c = ground arith
  step-Moves (call_receives id) c = received-next (lookup id c.pending) id c
  step-Moves (call_returns id) c = refl
  step-Moves (line b size m) c = ground (arith, read_line-next b size m c)
  step-Moves (stream_ends failed) c = ground arith
  step-Moves (message_written failed) c =
      ground (arith, wrote-next failed (record c { writes = tail c.writes }))
  step-Moves event_taken c = refl
  step-Moves client_closes c = ground arith

  -- The ID is that of a number after `n`.
  abbrev After : ℕ → String → Type 0
  After n id = (k : ℕ) × (n < k) × (k < 2 ^ 64) × (id ≡ format k)

  After-weaker : (m n : ℕ) (ids : List String) → m ≤ n → All (After n) ids → All (After m) ids
  After-weaker m n ids le h =
      All-map (λ id (k, above, small, e). (k, omega (arith, le, above), small, e)) ids h

  module _ (injective : (m n : ℕ) → m < 2 ^ 64 → n < 2 ^ 64 → format m ≡ format n → m ≡ n) where
    pub issued_fresh :
        (ss : List Step) (c : Client)
        → c.next + length (issued format ss c) < 2 ^ 64
        → All (After c.next) (issued format ss c) × AllDistinct (issued format ss c)
    unfolding issued
    issued_fresh [] c h = (tt, tt)
    issued_fresh (s ∷ ss) c h =
        let d = step format s c in
        let moves = step-Moves s c in
        elim (Option-cases (registered format s c)) [
          | inl nothing ↦
              let same : d.next ≡ c.next = rw nothing at moves in
              let small = rw (nothing, issued) at h in
              let (later, apart) = issued_fresh ss d (omega (arith, same, small)) in
              rw (nothing, issued) (After-weaker c.next d.next _ (omega (arith, same)) later, apart)
          | inr (id, some_id) ↦
              let both : (id ≡ format (following c)) × (d.next ≡ following c) =
                rw some_id at moves in
              let small = rw (some_id, issued) at h in
              let low : c.next + 1 < 2 ^ 64 = omega (arith, small) in
              let counted : following c ≡ c.next + 1 = omega (arith, low) in
              let moved : d.next ≡ c.next + 1 = both.1 ∙ counted in
              let mine : id ≡ format (c.next + 1) = both.0 ∙ ap format counted in
              let (later, apart) = issued_fresh ss d (omega (arith, moved, small)) in
              let new : All (λ y. id ≢ y) (issued format ss d) =
                All-map
                  (λ y (k, above, under, e) same.
                    let number = injective (c.next + 1) k low under (sym mine ∙ same ∙ e) in
                    omega (arith, number, above, moved))
                  (issued format ss d) later in
              rw (some_id, issued)
                (
                  (
                    (c.next + 1, omega arith, low, mine),
                    After-weaker c.next d.next (issued format ss d) (omega (arith, moved)) later,
                  ),
                  (new, apart),
                )
        ]
