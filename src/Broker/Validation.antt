-- ===== src/Broker/Validation.antt =====
-- ValidateTargets and ValidateBoundTools of pkg/adapters/agentdelegation.
use openlinker_agent_node.Base.{
  String, ◌≡◌, Bool, true, false, ◌||◌, not, List, [], ◌∷◌, Option, none, some, ltb, length,
  if◌then◌else◌, str_eq, arith, All, eq_iff, ◌≤◌, ◌≢◌,
}
use openlinker_agent_node.Patterns.{is_uuid, is_digest, is_bound_name}
use openlinker_agent_node.Broker.{BoundTool, Failure, safe, other}

abbrev pub has : String → List String → Bool
has x [] = false
has x (y ∷ ys) = str_eq y x || has x ys

-- the loop of ValidateTargets; `seen` is its map
targets_from : List String → List String → Option Failure
targets_from seen [] = none
targets_from seen (id ∷ ids) =
    let rest = targets_from (id ∷ seen) ids in
    if not (is_uuid id) || str_eq id "00000000-0000-0000-0000-000000000000" || has id seen
    then some (safe "delegation targets must be distinct lowercase Agent UUIDs")
    else rest

unfoldable pub validate_targets : List String → Option Failure
unfolding targets_from
validate_targets targets =
    if ltb 32 (length targets)
    then some (safe "at most 32 delegation targets are allowed")
    else targets_from [] targets

-- the test on one tool; the marshalled length stands for the tool's size
abbrev bad_tool : List String → BoundTool → Bool
bad_tool seen t =
    ltb 20480 t.size
    || not (is_uuid t.binding_id)
    || not (is_uuid t.target_id)
    || not (is_digest t.digest)
    || not (is_bound_name t.name)
    || has t.name seen
    || not (str_eq t.input_type "object")

bound_from : List String → List BoundTool → Option Failure
bound_from seen [] = none
bound_from seen (t ∷ ts) =
    let rest = bound_from (t.name ∷ seen) ts in
    if bad_tool seen t then some (other "invalid MCP binding snapshot") else rest

unfoldable pub validate_bound_tools : List BoundTool → Option Failure
unfolding bound_from
validate_bound_tools tools =
    if ltb 16 (length tools) then some (other "too many MCP bindings") else bound_from [] tools

-- Every name occurs once in `xs`, and none of them is in `seen`.
abbrev pub Distinct : List String → List String → Type 0
Distinct seen [] = Unit
Distinct seen (x ∷ xs) = (has x seen ≡ false) × Distinct (x ∷ seen) xs

abbrev pub IsTarget : String → Type 0
IsTarget id = (is_uuid id ≡ true) × (id ≢ "00000000-0000-0000-0000-000000000000")

targets_from_sound :
    (seen ids : List String) → targets_from seen ids ≡ none → All IsTarget ids × Distinct seen ids
unfolding targets_from
targets_from_sound seen [] h = (tt, tt)
targets_from_sound seen (id ∷ ids) h =
    ground
      (arith, targets_from_sound (id ∷ seen) ids, eq_iff id "00000000-0000-0000-0000-000000000000")

-- An accepted list of targets has at most 32 entries, all of them UUIDs other than the nil UUID,
-- and none twice.
pub validate_targets_sound :
    (targets : List String)
    → validate_targets targets ≡ none
    → (length targets ≤ 32) × All IsTarget targets × Distinct [] targets
unfolding validate_targets
validate_targets_sound targets h = ground (arith, targets_from_sound [] targets)
