-- ===== src/Patterns.antt =====
-- The regular expressions that guard identifiers: pkg/adapters/agentdelegation/broker.go and
-- bound_tools.go, pkg/adapters/skillpackages/packages.go. Each is a walk over the code points.
pub mod Laws
use openlinker_agent_node.Base.{
  ℕ, zero, suc, ◌+◌, String, Bool, true, false, ◌&&◌, ◌||◌, List, [], ◌∷◌, Option, none, some, leb,
  ◌==◌, if◌then◌else◌, codes, is_some,
}

-- [0-9a-f]
abbrev pub is_hex : ℕ → Bool
is_hex c = (leb b'0' c && leb c b'9') || (leb b'a' c && leb c b'f')

-- [0-9a-f]{n}, and what follows it
abbrev pub hex_run : ℕ → List ℕ → Option (List ℕ)
hex_run zero cs = some cs
hex_run (suc n) [] = none
hex_run (suc n) (c ∷ cs) = let rest = hex_run n cs in if is_hex c then rest else none

-- a dash, and what follows it
abbrev pub dash : List ℕ → Option (List ℕ)
dash [] = none
dash (c ∷ cs) = if c == b'-' then some cs else none

-- The next part of a pattern, on what the part before it has left.
infixl 5 ◌>>=◌
abbrev pub ◌>>=◌ : {A B : Type 0} → Option A → (A → Option B) → Option B
left >>= part = elim left [ none ↦ none | some rest ↦ part rest ]

-- `$`
abbrev pub at_end : List ℕ → Option (Unit {0})
at_end [] = some tt
at_end (_ ∷ _) = none

-- ^[0-9a-f]{8}-[0-9a-f]{4}-[0-9a-f]{4}-[0-9a-f]{4}-[0-9a-f]{12}$
unfoldable pub uuid_codes : List ℕ → Option (Unit {0})
uuid_codes cs = do
  a ← hex_run 8 cs
  b ← dash a
  c ← hex_run 4 b
  d ← dash c
  e ← hex_run 4 d
  f ← dash e
  g ← hex_run 4 f
  h ← dash g
  i ← hex_run 12 h
  at_end i

-- uuidPattern.MatchString, packageIDPattern.MatchString
unfoldable pub is_uuid : String → Bool
unfolding uuid_codes
is_uuid s = is_some (uuid_codes (codes s))

-- ^[a-f0-9]{64}$
unfoldable pub is_digest : String → Bool
is_digest s = is_some (do rest ← hex_run 64 (codes s); at_end rest)

abbrev literal : List ℕ → List ℕ → Option (List ℕ)
literal [] cs = some cs
literal (p ∷ ps) [] = none
literal (p ∷ ps) (c ∷ cs) = let rest = literal ps cs in if c == p then rest else none

-- ^mcp_[a-f0-9]{32}$
unfoldable pub is_bound_name : String → Bool
is_bound_name s =
    is_some (do rest ← literal (codes "mcp_") (codes s); after ← hex_run 32 rest; at_end after)
