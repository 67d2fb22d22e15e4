-- ===== src/Streams/Lines.antt =====
-- pkg/adapters/providerstream/codex.go: the observer of JSON lines.
pub mod Chunks
use openlinker_agent_node.Base.{
  ℕ, Bool, true, false, List, [], ◌∷◌, ◌++◌, Option, none, some, ◌==◌, if◌then◌else◌,
}

-- the complete lines and what follows the last newline
pub record Cut : Type 0 where
  pub lines : List (List ℕ)
  pub rest : List ℕ

-- one more byte in front: its line is the first one, or the rest where there is none
abbrev pub onto : ℕ → List (List ℕ) → List ℕ → Cut
onto c [] rest = record { lines = []; rest = c ∷ rest }
onto c (l ∷ ls) rest = record { lines = (c ∷ l) ∷ ls; rest = rest }

unfoldable pub cut : List ℕ → Cut
cut [] = record { lines = []; rest = [] }
cut (c ∷ cs) =
    let r = cut cs in if c == 10 then record r { lines = [] ∷ r.lines } else onto c r.lines r.rest

-- `trim` is bytes.TrimSpace, `decode` json.Unmarshal into a map and `progress` the product's
-- normalization of an event.
module _ {Event Payload : Type 0} (trim : List ℕ → List ℕ) (decode : List ℕ → Option Event)
    (progress : Event → List Payload) where
  abbrev pub decoded : Option Event → List Payload
  decoded none = []
  decoded (some event) = progress event

  abbrev pub trimmed_line : List ℕ → List Payload
  trimmed_line [] = []
  trimmed_line (c ∷ cs) = if c == 123 then decoded (decode (c ∷ cs)) else []

  -- observeLine, for an observer that has an emit function: what it emits
  unfoldable pub observe_line : List ℕ → List Payload
  observe_line line = trimmed_line (trim line)

  unfoldable pub observe_lines : List (List ℕ) → List Payload
  observe_lines [] = []
  observe_lines (l ∷ ls) = observe_line l ++ observe_lines ls

  pub record Observer : Type 0 where
    pub pending : List ℕ
    pub emitted : List Payload

  -- drainLines(false): every complete line is observed, in order
  unfoldable pub drain : Observer → Observer
  drain o =
      let r = cut o.pending in
      record { pending = r.rest; emitted = o.emitted ++ observe_lines r.lines }

  unfoldable pub write_bytes : List ℕ → Observer → Observer
  write_bytes [] o = o
  write_bytes (c ∷ cs) o = drain (record o { pending = o.pending ++ c ∷ cs })

  -- what drainLines(true) does after the last newline
  abbrev pub last_line : List ℕ → Observer → Observer
  last_line [] o = o
  last_line (c ∷ cs) o = record { pending = []; emitted = o.emitted ++ observe_line (c ∷ cs) }

  unfoldable pub flush_bytes : Observer → Observer
  flush_bytes o = let d = drain o in last_line d.pending d

  unfoldable pub write_all : List (List ℕ) → Observer → Observer
  write_all [] o = o
  write_all (v ∷ vs) o = write_all vs (write_bytes v o)
