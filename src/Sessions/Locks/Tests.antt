-- ===== src/Sessions/Locks/Tests.antt =====
-- The locks at concrete interleavings: two callers with one key.
use openlinker_agent_node.Base.{ℕ, ◌<◌, ◌≡◌, ◌≢◌, refl, ◌⊎◌, none, some, arith}
use openlinker_agent_node.Base.Assoc.{lookup, put, delete}
use openlinker_agent_node.Sessions.Locks.{
  Stage, Caller, Locks, no_locks, register, acquire, unlock, release, LockStep, Reach,
}
use openlinker_agent_node.Sessions.Locks.Exclusion.{lock_excludes, lock_progress, entry_lives}

-- The first caller has the lock, the second waits.
abbrev contended : Locks
unfolding lookup put register acquire
contended = register 1 "k" (acquire 0 "k" 0 (register 0 "k" no_locks))

contended-Reach : Reach 2 contended
unfolding lookup put register acquire
contended-Reach =
    Reach.next
      (Reach.next (Reach.next Reach.start (LockStep.enters 0 "k" (omega arith) refl))
        (LockStep.acquires 0 "k" 0 (omega arith) refl refl))
      (LockStep.enters 1 "k" (omega arith) refl)

lock_excludes_example : ◌≡◌ {A = ℕ} 0 0
unfolding contended
lock_excludes_example =
    lock_excludes 2 contended 0 0 "k" 0 0 contended-Reach (omega arith) (omega arith) refl refl

lock_progress_example :
    (LockStep 2 contended (acquire 1 "k" 0 contended)
      × ((acquire 1 "k" 0 contended).callers 1 ≡ Caller.inside Stage.holding "k" 0))
    ⊎ ((j : ℕ) × (j < 2) × (contended.callers j ≡ Caller.inside Stage.holding "k" 0))
unfolding contended
lock_progress_example = lock_progress 2 contended 1 "k" 0 contended-Reach (omega arith) refl

entry_lives_example :
    (lookup "k" contended.entries ≡ none)
      × ((i : ℕ) (st : Stage) (e : ℕ) → i < 2 → contended.callers i ≢ Caller.inside st "k" e)
    ⊎ ((i : ℕ) × (st : Stage) × (e : ℕ) × (i < 2)
        × (contended.callers i ≡ Caller.inside st "k" e)
        × (lookup "k" contended.entries ≡ some e))
entry_lives_example = entry_lives 2 contended "k" contended-Reach

-- The last of them leaves no entry behind.
emptied :
    lookup "k"
      (release 1 "k" 0
        (unlock 1 "k" 0 (acquire 1 "k" 0 (release 0 "k" 0 (unlock 0 "k" 0 contended))))).entries
    ≡ none
unfolding lookup put register acquire unlock release delete
emptied = refl
