-- ===== src/Streams/ClaudeTools.antt =====
-- pkg/adapters/providerstream/claude.go: the tools that a Claude process has open. A field that
-- is not of its type is empty or false, as the source's type assertions leave it.
pub mod Counts
pub mod Balance
use openlinker_agent_node.Base.{
  ℕ, String, Bool, true, false, ◌||◌, List, [], ◌∷◌, ◌++◌, Option, none, some, leb, if◌then◌else◌,
  str_eq, has_prefix, length, is_some,
}
use openlinker_agent_node.Base.Assoc.{lookup, put, delete}

pub data Kind : Type 0 where
  tool command web_search mcp_tool suppressed : Kind

pub data Block : Type 0 where
  tool_use : (id name : String) → Block
  tool_result : (id : String) (is_error : Bool) → Block
  other_block : Block

pub data ClaudeEvent : Type 0 where
  message_start : ClaudeEvent
  block_start : Block → ClaudeEvent
  contents : List Block → ClaudeEvent  -- of an assistant or a user message
  api_retry : ClaudeEvent
  other_event : ClaudeEvent

pub data ClaudePayload : Type 0 where
  tool_started tool_completed tool_failed : Kind → ClaudePayload
  processing retrying : ClaudePayload

abbrev pub tool_kind : String → Kind
tool_kind name =
    if str_eq name "Bash"
    then command
    else if str_eq name "WebSearch" || str_eq name "WebFetch"
    then web_search
    else if has_prefix name "mcp__"
    then mcp_tool
    else tool

-- unless the tool is suppressed
abbrev pub reported : Kind → ClaudePayload → List ClaudePayload
reported suppressed p = []
reported _ p = p ∷ []

abbrev pub Active : Type 0
Active = List (String × Kind)

abbrev pub start_tool : String → Kind → Active → List ClaudePayload × Active
start_tool id kind active = (reported kind (tool_started kind), put id kind active)

abbrev pub end_tool : String → Bool → Option Kind → Active → List ClaudePayload × Active
end_tool id is_error none active = ([], active)
end_tool id is_error (some kind) active =
    (reported kind (if is_error then tool_failed kind else tool_completed kind), delete id active)

module _ (suppress : String → Bool) where
  abbrev pub kind_of : String → Kind
  kind_of name = if suppress name then suppressed else tool_kind name

  -- the function `block` of NewClaudeObserver
  unfoldable pub handle_block : Block → Active → List ClaudePayload × Active
  handle_block (tool_use id name) active =
      if str_eq id "" || is_some (lookup id active) || leb 512 (length active)
      then ([], active)
      else start_tool id (kind_of name) active
  handle_block (tool_result id is_error) active = end_tool id is_error (lookup id active) active
  handle_block other_block active = ([], active)

  unfoldable pub handle_blocks : List Block → Active → List ClaudePayload × Active
  handle_blocks [] active = ([], active)
  handle_blocks (b ∷ bs) active =
      let (first, active') = handle_block b active in
      let (rest, active'') = handle_blocks bs active' in (first ++ rest, active'')

  -- the progress function of NewClaudeObserver
  unfoldable pub claude_progress : ClaudeEvent → Active → List ClaudePayload × Active
  claude_progress message_start active = (processing ∷ [], active)
  claude_progress (block_start b) active = handle_block b active
  claude_progress (contents bs) active = handle_blocks bs active
  claude_progress api_retry active = (retrying ∷ [], active)
  claude_progress other_event active = ([], active)

  unfoldable pub observe_all : List ClaudeEvent → Active → List ClaudePayload × Active
  observe_all [] active = ([], active)
  observe_all (e ∷ es) active =
      let (first, active') = claude_progress e active in
      let (rest, active'') = observe_all es active' in (first ++ rest, active'')
