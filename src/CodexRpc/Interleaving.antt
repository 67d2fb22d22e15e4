-- ===== src/CodexRpc/Interleaving.antt =====
-- The RPC client over any interleaving of calls, messages and failures.
use openlinker_agent_node.Base.{
  ℕ, ◌+◌, ◌%◌, ◌^◌, ◌≤◌, ◌<◌, String, ◌≡◌, inl, inr, Bool, true, false, ◌||◌, List, [], ◌∷◌, none,
  some, if◌then◌else◌, Bool-cases, Option-cases, arith, length, ltb, leb, ◌==◌,
}
use openlinker_agent_node.Base.Assoc.{lookup, length-delete-le}
use openlinker_agent_node.CodexRpc.{
  Message, eof, write_failed, read_failed, Client, max_output_bytes, max_queued_messages,
}
use openlinker_agent_node.CodexRpc.Steps.{
  fail_read, read_line, tail, wrote, Step, call_begins, call_sends, call_receives, call_returns,
  line, stream_ends, message_written, event_taken, client_closes, begin_call, received, step, steps,
  issued, new_client,
}
use openlinker_agent_node.CodexRpc.Fresh.{AllDistinct, issued_fresh}
use openlinker_agent_node.CodexRpc.Bounds.{
  IsSound, put-IsOwn, delete-IsOwn, lookup-own, length-put-le, fail-IsSound, fail_read-IsSound,
  fill-IsSound, read_line-IsSound, send-IsSound, length-tail-le, written-IsSound,
}

either-IsSound : (b : Bool) (c d : Client) → IsSound c → IsSound d → IsSound (if b then c else d)
either-IsSound true c d h k = h
either-IsSound false c d h k = k

wrote-IsSound : (failed : Bool) (c : Client) → IsSound c → IsSound (wrote failed c)
wrote-IsSound true c h = fail-IsSound write_failed c h
wrote-IsSound false c h = h

module _ (format : ℕ → String) where
  begin_call-IsSound : (size : ℕ) (c : Client) → IsSound c → IsSound (begin_call format size c).1
  unfolding begin_call
  begin_call-IsSound size c h =
      elim (Bool-cases (ltb max_output_bytes size || leb max_queued_messages (length c.pending))) [
        | inl refused ↦ rw refused h
        | inr free ↦
            let id = format ((c.next + 1) % 2 ^ 64) in
            rw free (record {
              pending_bound = let l = length-put-le id none c.pending in ground (arith, free, l);
              event_bound = h.event_bound;
              write_bound = h.write_bound;
              own = put-IsOwn id none c.pending tt (h.own);
            })
      ]

  received-IsSound :
      (id : String) (c : Client) → IsSound c → IsSound (received format (lookup id c.pending) id c)
  received-IsSound id c h = elim (Option-cases (lookup id c.pending)) [
    | inl gone ↦ rw gone h
    | inr (none, there) ↦ rw there h
    | inr (some m, there) ↦ rw there (fill-IsSound id none (some m) c there tt h)
  ]

  step-IsSound : (s : Step) (c : Client) → IsSound c → IsSound (step format s c)
  unfolding step
  step-IsSound (call_begins size) c h = begin_call-IsSound size c h
  step-IsSound (call_sends b m) c h = send-IsSound b m c h
  step-IsSound (call_receives id) c h = received-IsSound id c h
  step-IsSound (call_returns id) c h = record {
    pending_bound = let b = h.pending_bound in omega (arith, b, length-delete-le id c.pending);
    event_bound = h.event_bound;
    write_bound = h.write_bound;
    own = delete-IsOwn id c.pending (h.own);
  }
  step-IsSound (line b size m) c h =
      either-IsSound c.reading (read_line b size m c) c (read_line-IsSound b size m c h) h
  step-IsSound (stream_ends failed) c h =
      let e = if failed then read_failed else eof in
      either-IsSound c.reading (fail_read e c) c (fail_read-IsSound e c h) h
  step-IsSound (message_written failed) c h =
      let d = record c { writes = tail c.writes } in
      either-IsSound (length c.writes == 0) c (wrote failed d) h
        (wrote-IsSound failed d (written-IsSound c h))
  step-IsSound event_taken c h = record {
    pending_bound = h.pending_bound;
    event_bound = let b = h.event_bound in omega (arith, b, length-tail-le c.events);
    write_bound = h.write_bound;
    own = h.own;
  }
  step-IsSound client_closes c h = fail-IsSound eof c h

  steps-IsSound : (ss : List Step) (c : Client) → IsSound c → IsSound (steps format ss c)
  unfolding steps
  steps-IsSound [] c h = h
  steps-IsSound (s ∷ ss) c h = steps-IsSound ss (step format s c) (step-IsSound s c h)

  -- In any interleaving of the steps of a new client that registers fewer than 2 ^ 64 calls, no
  -- two calls are given the same ID, and the response that waits for a call carries that call's
  -- own ID: none finds the response of another. At most 128 calls are pending, and at most 128
  -- notifications and 128 messages to write are queued.
  pub client_bounded :
      (ss : List Step)
      → ((m n : ℕ) → m < 2 ^ 64 → n < 2 ^ 64 → format m ≡ format n → m ≡ n)
      → length (issued format ss new_client) < 2 ^ 64
      → let c = steps format ss new_client in
        AllDistinct (issued format ss new_client)
        × ((id : String) (m : Message) → lookup id c.pending ≡ some (some m) → m.id ≡ id)
        × (length c.pending ≤ 128)
        × (length c.events ≤ 128)
        × (length c.writes ≤ 128)
  client_bounded ss injective few =
      let start : IsSound new_client = record {
        pending_bound = omega arith;
        event_bound = omega arith;
        write_bound = omega arith;
        own = tt;
      } in
      let h = steps-IsSound ss new_client start in
      let fresh = issued_fresh format injective ss new_client (omega (arith, few)) in
      (
        fresh.1,
        (λ id m there. lookup-own id m (steps format ss new_client).pending (h.own) there),
        h.pending_bound,
        h.event_bound,
        h.write_bound,
      )
