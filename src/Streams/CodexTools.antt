-- ===== src/Streams/CodexTools.antt =====
-- pkg/adapters/providerstream/codex.go: what of a Codex event is reported. A field that is not
-- a string is the empty string, as stringValue has it.
use openlinker_agent_node.Base.{
  String, Bool, false, ◌&&◌, not, List, [], ◌∷◌, Option, none, some, if◌then◌else◌, str_eq,
  trim_space, lower_is, equal_fold,
}

pub record Item : Type 0 where
  pub kind : String  -- its "type"
  pub status : String

pub record CodexEvent : Type 0 where
  pub type_name : String
  pub item : Option Item

pub data ToolKind : Type 0 where
  web_search command mcp_tool : ToolKind

pub data Phase : Type 0 where
  started completed failed : Phase

-- a payload of run.status.changed, whose status is "provider_tool_" and the phase
pub record CodexPayload : Type 0 where
  pub phase : Phase
  pub tool_kind : ToolKind

-- normalizedCodexToolKind; `none` is its ""
unfoldable pub normalized_kind : String → Option ToolKind
normalized_kind value =
    let word = trim_space value in
    if lower_is word "web_search"
    then some web_search
    else if lower_is word "command_execution"
    then some command
    else if lower_is word "mcp_tool_call"
    then some mcp_tool
    else none

abbrev pub phase_of : String → Item → Phase
phase_of type_name item =
    if str_eq type_name "item.completed"
    then (if equal_fold (trim_space item.status) "failed" then failed else completed)
    else started

abbrev pub payload_of : String → Item → Option ToolKind → Option CodexPayload
payload_of type_name item none = none
payload_of type_name item (some kind) =
    some (record { phase = phase_of type_name item; tool_kind = kind })

abbrev pub item_payload : String → Option Item → Option CodexPayload
item_payload type_name none = none
item_payload type_name (some item) = payload_of type_name item (normalized_kind item.kind)

-- codexProgressPayload
unfoldable pub progress_payload : CodexEvent → Option CodexPayload
progress_payload e =
    if not (str_eq e.type_name "item.started") && not (str_eq e.type_name "item.completed")
    then none
    else item_payload e.type_name e.item

abbrev pub suppressed_item : (Item → Bool) → Option Item → Bool
suppressed_item suppress none = false
suppressed_item suppress (some item) = suppress item

abbrev pub payload_list : Option CodexPayload → List CodexPayload
payload_list none = []
payload_list (some p) = p ∷ []

-- the progress function of NewCodexObserver
unfoldable pub codex_progress : (Item → Bool) → CodexEvent → List CodexPayload
codex_progress suppress e =
    if suppressed_item suppress e.item then [] else payload_list (progress_payload e)
