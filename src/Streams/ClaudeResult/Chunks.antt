-- ===== src/Streams/ClaudeResult/Chunks.antt =====
-- The result stream does not depend on how its input is cut into writes.
use openlinker_agent_node.Base.{
  ℕ, ◌≤◌, ◌≡◌, refl, sym, ap, ◌∙◌, subst, inl, inr, Bool, false, List, [], ◌∷◌, ◌++◌, Option, none,
  some, Bool-cases, length, is_some, arith,
}
use openlinker_agent_node.Streams.Output.{max_bytes}
use openlinker_agent_node.Streams.Output.Laws.{joined}
use openlinker_agent_node.Streams.Lines.{Cut, cut}
use openlinker_agent_node.Streams.Lines.Chunks.{before, cut-append, cut-IsDecomposition}
use openlinker_agent_node.Streams.ClaudeResult.{
  ResultStream, append_chunk, take_event, take_line, consume, feed, keep_rest, write_result,
  write_results,
}
-- The bytes before a text that has no newline go to its first line.
use openlinker_agent_node.Streams.ClaudeResult.Pending.{
  prepend_lines, prepend, cut-prepend, append_chunk-append, IsWithin, append_chunk-IsWithin,
  keep_rest-lem,
}

module _ {Event : Type 0} (trim : List ℕ → List ℕ) (decode : List ℕ → Option Event)
    (is_result : Event → Bool) where
  event-IsWithin :
      (text : List ℕ) (o : Option Event) (s : ResultStream Event)
      → IsWithin (take_event trim decode is_result text o s)
  unfolding IsWithin
  event-IsWithin text none s = omega arith
  event-IsWithin text (some e) s = elim (Bool-cases (is_result e)) [
    | inl last ↦ rw last (omega arith)
    | inr progress ↦ rw progress (omega arith)
  ]

  taken-IsWithin :
      (text : List ℕ) (s : ResultStream Event) → IsWithin (take_line trim decode is_result text s)
  unfolding IsWithin
  taken-IsWithin [] s = omega arith
  taken-IsWithin (c ∷ cs) s = event-IsWithin (c ∷ cs) (decode (c ∷ cs)) s

  consume-IsWithin :
      (s : ResultStream Event) → IsWithin s → IsWithin (consume trim decode is_result s)
  unfolding consume
  consume-IsWithin s h = elim (Bool-cases (is_some s.error)) [
    | inl failed ↦ rw failed h
    | inr fine ↦ rw fine (taken-IsWithin (trim s.pending) s)
  ]

  feed-IsWithin :
      (ls : List (List ℕ)) (s : ResultStream Event)
      → IsWithin s
      → IsWithin (feed trim decode is_result ls s)
  unfolding feed
  feed-IsWithin [] s h = h
  feed-IsWithin (l ∷ ls) s h =
      feed-IsWithin ls (consume trim decode is_result (append_chunk l s))
        (consume-IsWithin (append_chunk l s) (append_chunk-IsWithin l s h))

  feed-append :
      (ls ms : List (List ℕ)) (s : ResultStream Event)
      → feed trim decode is_result (ls ++ ms) s
        ≡ feed trim decode is_result ms (feed trim decode is_result ls s)
  unfolding feed
  feed-append [] ms s = refl
  feed-append (l ∷ ls) ms s = feed-append ls ms (consume trim decode is_result (append_chunk l s))

  -- What follows a cut, from a state.
  abbrev follow : Cut → ResultStream Event → ResultStream Event
  follow c s = keep_rest trim decode is_result c.rest (feed trim decode is_result c.lines s)

  follow-prepend_lines :
      (r : List ℕ) (ls : List (List ℕ)) (rest : List ℕ) (s : ResultStream Event)
      → IsWithin s
      → follow (prepend_lines r ls rest) s
        ≡ follow (record { lines = ls; rest = rest }) (append_chunk r s)
  unfolding feed
  follow-prepend_lines r [] rest s h =
      keep_rest-lem trim decode is_result (r ++ rest) s h
      ∙ append_chunk-append r rest s
      ∙ sym (
          keep_rest-lem trim decode is_result rest (append_chunk r s) (append_chunk-IsWithin r s h))
  follow-prepend_lines r (l ∷ ls) rest s h =
      ap
        (λ (t : ResultStream Event).
          keep_rest trim decode is_result rest
            (feed trim decode is_result ls (consume trim decode is_result t)))
        (append_chunk-append r l s)

  write_result-append :
      (a b : List ℕ) (s : ResultStream Event)
      → IsWithin s
      → write_result trim decode is_result (a ++ b) s
        ≡ write_result trim decode is_result b (write_result trim decode is_result a s)
  unfolding write_result
  write_result-append a b s h =
      let la = (cut a).lines in
      let ra = (cut a).rest in
      let s1 = feed trim decode is_result la s in
      let within = feed-IsWithin la s h in
      ap (λ (c : Cut). follow c s)
        (cut-append a b ∙ ap (before la) (cut-prepend ra b ((cut-IsDecomposition a).after)))
      ∙ ap (keep_rest trim decode is_result (prepend ra (cut b)).rest)
          (feed-append la (prepend ra (cut b)).lines s)
      ∙ follow-prepend_lines ra (cut b).lines (cut b).rest s1 within
      ∙ ap (follow (cut b)) (sym (keep_rest-lem trim decode is_result ra s1 within))

  write_result-IsWithin :
      (p : List ℕ) (s : ResultStream Event)
      → IsWithin s
      → IsWithin (write_result trim decode is_result p s)
  unfolding write_result
  write_result-IsWithin p s h =
      let within = feed-IsWithin (cut p).lines s h in
      subst IsWithin
        (sym (
          keep_rest-lem trim decode is_result (cut p).rest
            (feed trim decode is_result (cut p).lines s) within))
        (append_chunk-IsWithin (cut p).rest (feed trim decode is_result (cut p).lines s) within)

  abbrev new_stream : ResultStream Event
  new_stream = record { pending = []; result = none; error = none; canceled = false; observed = [] }

  nothing-written : (s : ResultStream Event) → s ≡ write_result trim decode is_result [] s
  unfolding write_result cut feed
  nothing-written s = refl

  -- The writes are one write.
  writes-join :
      (vs : List (List ℕ)) (s : ResultStream Event)
      → IsWithin s
      → write_results trim decode is_result vs s ≡ write_result trim decode is_result (joined vs) s
  unfolding write_results
  writes-join [] s h = nothing-written s
  writes-join (v ∷ vs) s h =
      writes-join vs (write_result trim decode is_result v s) (write_result-IsWithin v s h)
      ∙ sym (write_result-append v (joined vs) s h)

  -- However a Claude process cuts its output into writes, the stream ends in the state of one write
  -- of all of it: the same result, the same error and cancellation, the same observed lines; and no
  -- more than 4 MiB are ever pending.
  pub result_of_writes :
      (vs : List (List ℕ))
      → (write_results trim decode is_result vs new_stream
          ≡ write_result trim decode is_result (joined vs) new_stream)
        × (length (write_results trim decode is_result vs new_stream).pending ≤ max_bytes)
  unfolding IsWithin
  result_of_writes vs =
      let start : IsWithin new_stream = omega arith in
      let e = writes-join vs new_stream start in
      (e, subst IsWithin (sym e) (write_result-IsWithin (joined vs) new_stream start))
