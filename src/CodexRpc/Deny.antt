-- ===== src/CodexRpc/Deny.antt =====
-- denyRequest of pkg/adapters/codexrpc/client.go.
use openlinker_agent_node.Base.{String, ◌||◌, none, some, if◌then◌else◌, str_eq}
use openlinker_agent_node.Base.Int.{negsuc}
use openlinker_agent_node.CodexRpc.{Message}

abbrev reply_to : Message → (result : String) → Message
reply_to m result = record { id = m.id; method = ""; params = ""; result = result; error = none }

unfoldable pub deny_request : Message → Message
deny_request m =
    if str_eq m.method "item/commandExecution/requestApproval"
      || str_eq m.method "item/fileChange/requestApproval"
    then reply_to m "{\"decision\":\"decline\"}"
    else if str_eq m.method "mcpServer/elicitation/request"
    then reply_to m "{\"action\":\"decline\",\"content\":null}"
    else if str_eq m.method "item/permissions/requestApproval"
    then reply_to m "{\"permissions\":{},\"scope\":\"turn\"}"
    else if str_eq m.method "item/tool/requestUserInput"
    then reply_to m "{\"answers\":{}}"
    else record {
      id = m.id;
      method = "";
      params = "";
      result = "";
      error = some (record {
        code = negsuc 32600;
        message = "Interactive requests and dynamic tools are unavailable in this Worker";
      });
    }
