-- ===== src/Streams/ClaudeTools/Balance.antt =====
-- What Claude's observer reports is balanced: no end without its start.
use openlinker_agent_node.Base.{
  ℕ, suc, ◌+◌, ◌≤◌, String, ◌≡◌, refl, inl, inr, Bool, true, false, ◌||◌, List, [], ◌∷◌, ◌++◌, none,
  some, arith, leb, if◌then◌else◌, str_eq, length, is_some, Bool-cases, Option-cases,
}
use openlinker_agent_node.Base.Assoc.{lookup, length-put_new, length-delete-le}
use openlinker_agent_node.Streams.ClaudeTools.{
  Kind, tool, command, web_search, mcp_tool, suppressed, Block, tool_use, tool_result, other_block,
  ClaudeEvent, message_start, block_start, contents, api_retry, other_event, ClaudePayload,
  tool_started, tool_completed, tool_failed, processing, retrying, reported, Active, start_tool,
  end_tool, kind_of, handle_block, handle_blocks, claude_progress, observe_all,
}
use openlinker_agent_node.Streams.ClaudeTools.Counts.{
  weight, starts, ends, visible, IsDistinct, starts-append, ends-append, visible-put,
  visible-delete, put-IsDistinct, delete-IsDistinct,
}

abbrev pub max_tools : ℕ
max_tools = 512

-- After `out` was reported from `m`, the open tools are `m'`.
record IsBalanced (m : Active) (out : List ClaudePayload) (m' : Active) : Type 0 where
  distinct : IsDistinct m'
  bounded : length m' ≤ max_tools
  balance : visible m + starts out ≡ visible m' + ends out

IsBalanced-append :
    (m m' m'' : Active) (ps qs : List ClaudePayload)
    → IsBalanced m ps m'
    → IsBalanced m' qs m''
    → IsBalanced m (ps ++ qs) m''
IsBalanced-append m m' m'' ps qs h k =
    let a = h.balance in
    let b = k.balance in
    record {
      distinct = k.distinct;
      bounded = k.bounded;
      balance = omega (arith, a, b, starts-append ps qs, ends-append ps qs);
    }

IsBalanced-quiet :
    (m : Active) (out : List ClaudePayload)
    → IsDistinct m
    → length m ≤ max_tools
    → starts out ≡ 0
    → ends out ≡ 0
    → IsBalanced m out m
IsBalanced-quiet m out d l s e = record { distinct = d; bounded = l; balance = omega (arith, s, e) }

starts-started : (k : Kind) → starts (reported k (tool_started k)) ≡ weight k
starts-started suppressed = refl
starts-started tool = refl
starts-started command = refl
starts-started web_search = refl
starts-started mcp_tool = refl

ends-started : (k : Kind) → ends (reported k (tool_started k)) ≡ 0
ends-started suppressed = refl
ends-started tool = refl
ends-started command = refl
ends-started web_search = refl
ends-started mcp_tool = refl

abbrev ended : Bool → Kind → ClaudePayload
ended is_error k = if is_error then tool_failed k else tool_completed k

ends-ended : (b : Bool) (k : Kind) → ends (reported k (ended b k)) ≡ weight k
ends-ended b suppressed = refl
ends-ended true tool = refl
ends-ended true command = refl
ends-ended true web_search = refl
ends-ended true mcp_tool = refl
ends-ended false tool = refl
ends-ended false command = refl
ends-ended false web_search = refl
ends-ended false mcp_tool = refl

starts-ended : (b : Bool) (k : Kind) → starts (reported k (ended b k)) ≡ 0
starts-ended b suppressed = refl
starts-ended true tool = refl
starts-ended true command = refl
starts-ended true web_search = refl
starts-ended true mcp_tool = refl
starts-ended false tool = refl
starts-ended false command = refl
starts-ended false web_search = refl
starts-ended false mcp_tool = refl

IsBalanced-start :
    (id : String) (k : Kind) (m : Active)
    → IsDistinct m
    → lookup id m ≡ none
    → suc (length m) ≤ max_tools
    → IsBalanced m (start_tool id k m).0 (start_tool id k m).1
IsBalanced-start id k m d fresh room = record {
  distinct = put-IsDistinct id k m fresh d;
  bounded = omega (arith, length-put_new id k m fresh);
  balance = omega (arith, visible-put id k m fresh, starts-started k, ends-started k);
}

IsBalanced-end :
    (id : String) (b : Bool) (k : Kind) (m : Active)
    → IsDistinct m
    → length m ≤ max_tools
    → lookup id m ≡ some k
    → IsBalanced m (end_tool id b (some k) m).0 (end_tool id b (some k) m).1
IsBalanced-end id b k m d l there = record {
  distinct = delete-IsDistinct id m d;
  bounded = omega (arith, length-delete-le id m);
  balance = omega (arith, visible-delete id k m d there, starts-ended b k, ends-ended b k);
}

module _ (suppress : String → Bool) where
  IsBalanced-use :
      (id name : String) (m : Active)
      → IsDistinct m
      → length m ≤ max_tools
      → let r = handle_block suppress (tool_use id name) m in IsBalanced m r.0 r.1
  unfolding handle_block
  IsBalanced-use id name m d l =
      elim (Bool-cases (str_eq id "" || is_some (lookup id m) || leb 512 (length m))) [
        | inl refused ↦ rw refused (IsBalanced-quiet m [] d l refl refl)
        | inr free ↦ rw free (elim (Option-cases (lookup id m)) [
          | inl fresh ↦ IsBalanced-start id (kind_of suppress name) m d fresh (ground (arith, free))
          | inr (k, there) ↦ absurd (ground (arith, free, there))
        ])
      ]

  handle_block-IsBalanced :
      (b : Block) (m : Active)
      → IsDistinct m
      → length m ≤ max_tools
      → let r = handle_block suppress b m in IsBalanced m r.0 r.1
  unfolding handle_block
  handle_block-IsBalanced (tool_use id name) m d l = IsBalanced-use id name m d l
  handle_block-IsBalanced (tool_result id is_error) m d l = elim (Option-cases (lookup id m)) [
    | inl absent ↦ rw absent (IsBalanced-quiet m [] d l refl refl)
    | inr (k, there) ↦ rw there (IsBalanced-end id is_error k m d l there)
  ]
  handle_block-IsBalanced other_block m d l = IsBalanced-quiet m [] d l refl refl

  handle_blocks-IsBalanced :
      (bs : List Block) (m : Active)
      → IsDistinct m
      → length m ≤ max_tools
      → let r = handle_blocks suppress bs m in IsBalanced m r.0 r.1
  unfolding handle_blocks
  handle_blocks-IsBalanced [] m d l = IsBalanced-quiet m [] d l refl refl
  handle_blocks-IsBalanced (b ∷ bs) m d l =
      let (out, m') = handle_block suppress b m in
      let h = handle_block-IsBalanced b m d l in
      IsBalanced-append m m' (handle_blocks suppress bs m').1 out (handle_blocks suppress bs m').0 h
        (handle_blocks-IsBalanced bs m' h.distinct h.bounded)

  claude_progress-IsBalanced :
      (e : ClaudeEvent) (m : Active)
      → IsDistinct m
      → length m ≤ max_tools
      → let r = claude_progress suppress e m in IsBalanced m r.0 r.1
  unfolding claude_progress
  claude_progress-IsBalanced message_start m d l =
      IsBalanced-quiet m (processing ∷ []) d l refl refl
  claude_progress-IsBalanced (block_start b) m d l = handle_block-IsBalanced b m d l
  claude_progress-IsBalanced (contents bs) m d l = handle_blocks-IsBalanced bs m d l
  claude_progress-IsBalanced api_retry m d l = IsBalanced-quiet m (retrying ∷ []) d l refl refl
  claude_progress-IsBalanced other_event m d l = IsBalanced-quiet m [] d l refl refl

  observe_all-IsBalanced :
      (es : List ClaudeEvent) (m : Active)
      → IsDistinct m
      → length m ≤ max_tools
      → let r = observe_all suppress es m in IsBalanced m r.0 r.1
  unfolding observe_all
  observe_all-IsBalanced [] m d l = IsBalanced-quiet m [] d l refl refl
  observe_all-IsBalanced (e ∷ es) m d l =
      let (out, m') = claude_progress suppress e m in
      let h = claude_progress-IsBalanced e m d l in
      IsBalanced-append m m' (observe_all suppress es m').1 out (observe_all suppress es m').0 h
        (observe_all-IsBalanced es m' h.distinct h.bounded)

  -- Over any sequence of Claude's events, the tools reported as started are those reported as
  -- completed or failed and those still open that are not suppressed; at most 512 are open.
  pub tools_balanced :
      (es : List ClaudeEvent)
      → let r = observe_all suppress es [] in
        (starts r.0 ≡ ends r.0 + visible r.1) × (length r.1 ≤ max_tools)
  tools_balanced es =
      let h = observe_all-IsBalanced es [] tt (omega arith) in
      let b = h.balance in (omega (arith, b), h.bounded)
