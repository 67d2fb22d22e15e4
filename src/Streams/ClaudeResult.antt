-- ===== src/Streams/ClaudeResult.antt =====
-- pkg/adapters/claude_output.go: the result stream of a Claude process.
pub mod Pending
pub mod Chunks
use openlinker_agent_node.Base.{
  ℕ, ◌+◌, Bool, true, false, List, [], ◌∷◌, ◌++◌, Option, none, some, ltb, if◌then◌else◌, length,
  is_some,
}
use openlinker_agent_node.Base.Result.{Result, ok, err}
use openlinker_agent_node.Streams.Output.{max_bytes}
use openlinker_agent_node.Streams.Lines.{cut}

pub data StreamError : Type 0 where
  record_too_long invalid_line no_result : StreamError

-- `observed` is what ObserveLine is given; `canceled` says that the cancel function was called.
pub record ResultStream (Event : Type 0) : Type 0 where
  pub pending : List ℕ
  pub result : Option Event
  pub error : Option StreamError
  pub canceled : Bool
  pub observed : List (List ℕ)

abbrev pub fail_stream : {Event : Type 0} → StreamError → ResultStream Event → ResultStream Event
fail_stream e s = record s { error = some e; pending = []; canceled = true }

-- Write's test of a chunk and its append; nothing follows an error
unfoldable pub append_chunk : {Event : Type 0} → List ℕ → ResultStream Event → ResultStream Event
append_chunk chunk s =
    if is_some s.error
    then s
    else if ltb max_bytes (length s.pending + length chunk)
    then fail_stream record_too_long s
    else record s { pending = s.pending ++ chunk }

module _ {Event : Type 0} (trim : List ℕ → List ℕ) (decode : List ℕ → Option Event)
    (is_result : Event → Bool) where
  abbrev pub take_event : List ℕ → Option Event → ResultStream Event → ResultStream Event
  take_event text none s = fail_stream invalid_line s
  take_event text (some e) s =
      if is_result e
      then record s { result = some e; pending = [] }
      else record s { observed = s.observed ++ text ∷ []; pending = [] }

  abbrev pub take_line : List ℕ → ResultStream Event → ResultStream Event
  take_line [] s = record s { pending = [] }
  take_line (c ∷ cs) s = take_event (c ∷ cs) (decode (c ∷ cs)) s

  -- consume
  unfoldable pub consume : ResultStream Event → ResultStream Event
  consume s = if is_some s.error then s else take_line (trim s.pending) s

  -- the rounds of Write's loop that find a newline
  unfoldable pub feed : List (List ℕ) → ResultStream Event → ResultStream Event
  feed [] s = s
  feed (l ∷ ls) s = feed ls (consume (append_chunk l s))

  -- its last round, where bytes are left
  abbrev pub keep_rest : List ℕ → ResultStream Event → ResultStream Event
  keep_rest [] s = s
  keep_rest (c ∷ cs) s = append_chunk (c ∷ cs) s

  -- Write
  unfoldable pub write_result : List ℕ → ResultStream Event → ResultStream Event
  write_result p s = let c = cut p in keep_rest c.rest (feed c.lines s)

  abbrev pub final_result : ResultStream Event → Result StreamError Event
  final_result s = elim s.error [
    | some e ↦ err e
    | none ↦ elim s.result [ none ↦ err no_result | some r ↦ ok r ]
  ]

  -- Result
  unfoldable pub result_of : ResultStream Event → Result StreamError Event
  result_of s = final_result (consume s)

  unfoldable pub write_results : List (List ℕ) → ResultStream Event → ResultStream Event
  write_results [] s = s
  write_results (v ∷ vs) s = write_results vs (write_result v s)
