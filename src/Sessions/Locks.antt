-- ===== src/Sessions/Locks.antt =====
-- The locks of sessions: Lock of pkg/adapters/providersession/store.go, as the atomic steps of its
-- callers. `sessionLocks` guards the first and the last of them.
mod Threads
pub mod Invariant
pub mod Exclusion
mod Tests
use openlinker_agent_node.Base.{
  ℕ, ◌+◌, ◌-◌, ◌<◌, String, ◌≡◌, Bool, true, false, List, [], Option, none, some, if◌then◌else◌,
  ◌==◌,
}
use openlinker_agent_node.Base.Assoc.{lookup, put, delete}
use openlinker_agent_node.Sessions.Locks.Threads.{assign}

-- Where a caller is: before `entry.mu.Lock()` returns, with the lock, or after `entry.mu.Unlock()`
-- in the function that Lock returned.
pub data Stage : Type 0 where
  waiting : Stage
  holding : Stage
  leaving : Stage

pub data Caller : Type 0 where
  outside : Caller
  inside : Stage → String → ℕ → Caller  -- its key and its entry

-- `sessionLocks`, where an entry is the number of its allocation, and the callers
pub record Locks : Type 0 where
  pub entries : List (String × ℕ)
  pub refs : ℕ → ℕ
  pub held : ℕ → Bool
  pub made : ℕ
  pub callers : ℕ → Caller

abbrev pub no_locks : Locks
no_locks = record {
  entries = [];
  refs = λ _. 0;
  held = λ _. false;
  made = 0;
  callers = λ _. Caller.outside;
}

-- From `sessionLocks.Lock()` to `entry.refs++`, where the map has no entry: a new one.
unfoldable pub register_new : ℕ → String → Locks → Locks
register_new i key l = record {
  entries = put key l.made l.entries;
  refs = assign l.refs l.made 1;
  held = assign l.held l.made false;
  made = l.made + 1;
  callers = assign l.callers i (Caller.inside Stage.waiting key l.made);
}

-- likewise where it has one
unfoldable pub register_old : ℕ → String → ℕ → Locks → Locks
register_old i key e l = record l {
  refs = assign l.refs e (l.refs e + 1);
  callers = assign l.callers i (Caller.inside Stage.waiting key e);
}

unfoldable pub register : ℕ → String → Locks → Locks
unfolding register_new register_old
register i key l = elim (lookup key l.entries) [
  | none ↦ register_new i key l
  | some e ↦ register_old i key e l
]

-- `entry.mu.Lock()` returns
unfoldable pub acquire : ℕ → String → ℕ → Locks → Locks
acquire i key e l = record l {
  held = assign l.held e true;
  callers = assign l.callers i (Caller.inside Stage.holding key e);
}

-- `entry.mu.Unlock()`
unfoldable pub unlock : ℕ → String → ℕ → Locks → Locks
unlock i key e l = record l {
  held = assign l.held e false;
  callers = assign l.callers i (Caller.inside Stage.leaving key e);
}

-- from `entry.refs--` on
unfoldable pub release : ℕ → String → ℕ → Locks → Locks
release i key e l = record l {
  entries = if l.refs e - 1 == 0 then delete key l.entries else l.entries;
  refs = assign l.refs e (l.refs e - 1);
  callers = assign l.callers i Caller.outside;
}

-- A step of one of `n` callers.
pub data LockStep (n : ℕ) (l : Locks) : Locks → Type 0 where
  enters :
      (i : ℕ) (key : String)
      → i < n
      → l.callers i ≡ Caller.outside
      → LockStep n l (register i key l)
  acquires :
      (i : ℕ) (key : String) (e : ℕ)
      → i < n
      → l.callers i ≡ Caller.inside Stage.waiting key e
      → l.held e ≡ false
      → LockStep n l (acquire i key e l)
  unlocks :
      (i : ℕ) (key : String) (e : ℕ)
      → i < n
      → l.callers i ≡ Caller.inside Stage.holding key e
      → LockStep n l (unlock i key e l)
  releases :
      (i : ℕ) (key : String) (e : ℕ)
      → i < n
      → l.callers i ≡ Caller.inside Stage.leaving key e
      → LockStep n l (release i key e l)

pub data Reach (n : ℕ) : Locks → Type 0 where
  start : Reach n no_locks
  next : {l m : Locks} → Reach n l → LockStep n l m → Reach n m
