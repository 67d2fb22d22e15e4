-- ===== src/Streams/Tests.antt =====
-- The theorems on provider output at concrete inputs.
use openlinker_agent_node.Base.{
  none, ◌==◌, ℕ, ◌+◌, ◌≤◌, String, ◌≡◌, refl, Bool, true, false, List, [], ◌∷◌, Option, some,
  length, trim_space, str_eq, lower_is, equal_fold, to_lower_code,
}
use openlinker_agent_node.Base.Assoc.{lookup, put, delete}
use openlinker_agent_node.Streams.Output.{limited_all, empty_buffer}
use openlinker_agent_node.Streams.Output.Laws.{joined, limited_keeps_first}
use openlinker_agent_node.Streams.Lines.{
  cut, observe_line, observe_lines, Observer, drain, write_bytes, write_all, flush_bytes,
}
use openlinker_agent_node.Streams.Lines.Chunks.{writes_join}
use openlinker_agent_node.Base.Result.{ok}
use openlinker_agent_node.Streams.Output.{max_bytes}
use openlinker_agent_node.Streams.ClaudeResult.{
  ResultStream, append_chunk, consume, feed, write_result, write_results, result_of,
}
use openlinker_agent_node.Streams.ClaudeResult.Chunks.{result_of_writes}
use openlinker_agent_node.Streams.CodexTools.{
  Item, CodexEvent, web_search, failed, codex_progress, progress_payload, normalized_kind,
}
use openlinker_agent_node.Streams.ClaudeTools.{
  ClaudeEvent, message_start, block_start, contents, tool_use, tool_result, processing,
  tool_started, tool_failed, command, mcp_tool, observe_all, claude_progress, handle_block,
  handle_blocks,
}
use openlinker_agent_node.Streams.ClaudeTools.Balance.{max_tools, tools_balanced}
use openlinker_agent_node.Streams.ClaudeTools.Counts.{starts, ends, visible}

abbrev pieces : List (List ℕ)
pieces = (1 ∷ 2 ∷ 3 ∷ []) ∷ (4 ∷ []) ∷ (5 ∷ 6 ∷ []) ∷ []

limited_keeps_first_example :
    let b = limited_all 4 empty_buffer pieces in
    (b.buf ≡ 1 ∷ 2 ∷ 3 ∷ 4 ∷ []) × (b.exceeded ≡ true) × (b.canceled ≡ true)
limited_keeps_first_example = limited_keeps_first 4 pieces

-- Lines are not trimmed here; an event is the line, and it is reported as it is.
abbrev same : List ℕ → List ℕ
same line = line

abbrev whole : List ℕ → Option (List ℕ)
whole line = some line

abbrev alone : List ℕ → List (List ℕ)
alone event = event ∷ []

abbrev new_observer : Observer same whole alone
new_observer = record { pending = []; emitted = [] }

abbrev json_pieces : List (List ℕ)
json_pieces = (123 ∷ 1 ∷ []) ∷ (2 ∷ 10 ∷ 7 ∷ 10 ∷ []) ∷ (123 ∷ 10 ∷ 123 ∷ []) ∷ []

writes_join_example :
    write_all same whole alone json_pieces new_observer
    ≡ write_bytes same whole alone (joined json_pieces) new_observer
writes_join_example = writes_join same whole alone json_pieces new_observer

-- The line that does not start like an object is skipped.
observed :
    flush_bytes same whole alone (write_all same whole alone json_pieces new_observer)
    ≡ record { pending = []; emitted = (123 ∷ 1 ∷ 2 ∷ []) ∷ (123 ∷ []) ∷ (123 ∷ []) ∷ [] }
unfolding flush_bytes write_all write_bytes drain observe_lines observe_line cut
observed = refl

abbrev searched : CodexEvent
searched = record {
  type_name = "item.completed";
  item = some (record { kind = " Web_Search "; status = "FAILED" });
}

codex_reports :
    codex_progress (λ (i : Item). false) searched
    ≡ record { phase = failed; tool_kind = web_search } ∷ []
unfolding codex_progress progress_payload normalized_kind trim_space lower_is equal_fold
    to_lower_code
codex_reports = refl

abbrev claude_events : List ClaudeEvent
claude_events =
    message_start
    ∷ block_start (tool_use "1" "Bash")
    ∷ contents (tool_use "1" "Bash" ∷ tool_use "2" "Task" ∷ tool_use "3" "mcp__x" ∷ [])
    ∷ contents (tool_result "1" true ∷ tool_result "9" false ∷ [])
    ∷ []

abbrev hide_task : String → Bool
hide_task name = str_eq name "Task"

tools_balanced_example :
    let r = observe_all hide_task claude_events [] in
    (starts r.0 ≡ ends r.0 + visible r.1) × (length r.1 ≤ max_tools)
tools_balanced_example = tools_balanced hide_task claude_events

-- The second use of "1" is ignored, and so is the result of an unknown use.
claude_reports :
    (observe_all hide_task claude_events []).0
    ≡ processing ∷ tool_started command ∷ tool_started mcp_tool ∷ tool_failed command ∷ []
unfolding observe_all claude_progress handle_block handle_blocks lookup put delete
claude_reports = refl

-- A line that starts with 1 is a result; every line decodes.
abbrev starts_one : List ℕ → Bool
starts_one [] = false
starts_one (c ∷ cs) = c == 1

abbrev result_pieces : List (List ℕ)
result_pieces = (2 ∷ 10 ∷ 1 ∷ []) ∷ (5 ∷ 10 ∷ 3 ∷ []) ∷ []

abbrev empty_stream : ResultStream (List ℕ)
empty_stream = record { pending = []; result = none; error = none; canceled = false; observed = [] }

result_of_writes_example :
    (write_results same whole starts_one result_pieces empty_stream
      ≡ write_result same whole starts_one (joined result_pieces) empty_stream)
    × (length (write_results same whole starts_one result_pieces empty_stream).pending ≤ max_bytes)
result_of_writes_example = result_of_writes same whole starts_one result_pieces

-- The result is the last one of its kind, and what is left is consumed at the end.
result_found :
    result_of same whole starts_one (write_results same whole starts_one result_pieces empty_stream)
    ≡ ok (1 ∷ 5 ∷ [])
unfolding result_of write_results write_result consume feed append_chunk cut
result_found = refl
