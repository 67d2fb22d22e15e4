-- ===== src/Streams/Output.antt =====
-- pkg/adapters/provideroutput/output.go.
pub mod Laws
use openlinker_agent_node.Base.{
  ℕ, ◌+◌, ◌-◌, ◌*◌, Bool, true, false, not, ◌||◌, List, [], ◌∷◌, ◌++◌, Option, none, some, leb, ltb,
  ◌==◌, if◌then◌else◌, length, take, drop,
}

abbrev pub max_diagnostic_bytes : ℕ
max_diagnostic_bytes = 64 * 1024

abbrev pub max_bytes : ℕ
max_bytes = 4 * 1024 * 1024

-- Tail.Write, at a limit
unfoldable pub tail_write : (limit : ℕ) → List ℕ → List ℕ → List ℕ
tail_write limit kept value =
    let n = length value in
    if leb limit n
    then drop (n - limit) value
    else (let excess = length kept + n - limit in
        if ltb 0 excess then drop excess kept ++ value else kept ++ value)

-- LimitedBuffer; `canceled` says that its cancel function was called
pub record LimitedBuffer : Type 0 where
  pub buf : List ℕ
  pub exceeded : Bool
  pub canceled : Bool

abbrev pub empty_buffer : LimitedBuffer
empty_buffer = record { buf = []; exceeded = false; canceled = false }

-- LimitedBuffer.Write, at a limit, and whether it returned no error
unfoldable pub limited_write : (limit : ℕ) → List ℕ → LimitedBuffer → LimitedBuffer × Bool
limited_write limit value b =
    let remaining = limit - length b.buf in
    let kept =
      if ltb 0 remaining
      then (if leb (length value) remaining then b.buf ++ value else b.buf ++ take remaining value)
      else b.buf in
    if ltb remaining (length value)
    then (record { buf = kept; exceeded = true; canceled = true }, false)
    else (record b { buf = kept }, true)

-- The buffers of a run of writes.
unfoldable pub tail_all : (limit : ℕ) → List ℕ → List (List ℕ) → List ℕ
tail_all limit kept [] = kept
tail_all limit kept (v ∷ vs) = tail_all limit (tail_write limit kept v) vs

unfoldable pub limited_all : (limit : ℕ) → LimitedBuffer → List (List ℕ) → LimitedBuffer
limited_all limit b [] = b
limited_all limit b (v ∷ vs) = limited_all limit (limited_write limit v b).0 vs
