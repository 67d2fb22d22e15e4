-- ===== src/CodexRpc/Tests.antt =====
-- The RPC client at a concrete run.
use Prim.Native.String.{◌∷◌ as cons}
use openlinker_agent_node.Base.{
  ℕ, suc, zero, ◌≤◌, String, ◌≡◌, refl, ap, arith, false, List, [], ◌∷◌, none, some, length, map,
}
use openlinker_agent_node.Base.Assoc.{lookup, put, delete}
use openlinker_agent_node.CodexRpc.{Message, duplicate_response}
use openlinker_agent_node.CodexRpc.Deny.{deny_request}
use openlinker_agent_node.CodexRpc.Steps.{
  Step, call_begins, call_sends, call_returns, line, message_written, step, steps, issued,
  new_client, begin_call, send, read_line, read_request, read_response,
}
use openlinker_agent_node.CodexRpc.Fresh.{AllDistinct}
use openlinker_agent_node.CodexRpc.Interleaving.{client_bounded}

-- a numeral of as many strokes
abbrev numeral : ℕ → String
numeral zero = ""
numeral (suc n) = cons "1" (numeral n)

numeral_inj : (m n : ℕ) → numeral m ≡ numeral n → m ≡ n
numeral_inj zero zero h = refl
numeral_inj zero (suc n) h = absurd cc
numeral_inj (suc m) zero h = absurd cc
numeral_inj (suc m) (suc n) h =
    let rest : numeral m ≡ numeral n = cc in ap suc (numeral_inj m n rest)

abbrev response : Message
response = record { id = "1"; method = ""; params = ""; result = "{}"; error = none }

abbrev approval : Message
approval = record {
  id = "\"a\"";
  method = "item/fileChange/requestApproval";
  params = "{}";
  result = "";
  error = none;
}

abbrev trace : List Step
trace =
    call_begins 2
    ∷ call_sends false
        (record { id = "1"; method = "turn/start"; params = "{}"; result = ""; error = none })
    ∷ line false 40 (some approval)
    ∷ message_written false
    ∷ line false 40 (some response)
    ∷ []

client_bounded_example :
    let c = steps numeral trace new_client in
    AllDistinct (issued numeral trace new_client)
    × ((id : String) (m : Message) → lookup id c.pending ≡ some (some m) → m.id ≡ id)
    × (length c.pending ≤ 128)
    × (length c.events ≤ 128)
    × (length c.writes ≤ 128)
unfolding issued step begin_call send read_line read_request read_response lookup put
client_bounded_example =
    client_bounded numeral trace (λ m n small small' h. numeral_inj m n h) (omega arith)

-- The request for approval is declined, and the response waits for its call.
ran :
    let c = steps numeral trace new_client in
    (map (λ (m : Message). m.result) c.writes ≡ "{\"decision\":\"decline\"}" ∷ [])
    × (lookup "1" c.pending ≡ some (some response))
unfolding steps step begin_call send read_line read_request read_response deny_request lookup put
ran = (refl, refl)

-- A second response before the first is received ends the client; a late one does not.
repeated :
    ((steps numeral (line false 40 (some response) ∷ []) (steps numeral trace new_client)).err
      ≡ some duplicate_response)
    × ((steps numeral
          (call_returns "1" ∷ line false 40 (some response) ∷ [])
          (steps numeral trace new_client)).err
        ≡ none)
unfolding steps step begin_call send read_line read_request read_response deny_request lookup put
    delete
repeated = (refl, refl)
