-- ===== src/Sessions/Locks/Exclusion.antt =====
-- One caller of pkg/adapters/providersession/store.go's Lock at a time for a key, none that waits
-- without cause, and no entry that stays behind.
use openlinker_agent_node.Base.{
  ℕ, zero, suc, ◌<◌, String, ◌≡◌, ◌≢◌, refl, sym, ap, ◌∙◌, ◌⊎◌, inl, inr, none, some, Bool-cases,
  Option-cases, arith, some_inj,
}
use openlinker_agent_node.Base.Assoc.{lookup}
use openlinker_agent_node.Sessions.Locks.{Stage, Caller, Locks, no_locks, acquire, LockStep, Reach}
use openlinker_agent_node.Sessions.Locks.Threads.{total, le-total_two, total-find}
use openlinker_agent_node.Sessions.Locks.Invariant.{
  uses, holds, IsSafe, uses-inside, holds-inside, LockStep-IsSafe,
}

total-outside : (w : Caller → ℕ) (n : ℕ) → w Caller.outside ≡ 0 → total w no_locks.callers n ≡ 0
unfolding total
total-outside w zero h = refl
total-outside w (suc n) h = omega (arith, h, total-outside w n h)

Reach-IsSafe : (n : ℕ) (l : Locks) → Reach n l → IsSafe n l
unfolding lookup
Reach-IsSafe n _ Reach.start = record {
  mapped = λ i st key e k p. absurd cc;
  counted = λ e. sym (total-outside (uses e) n refl);
  locked = λ e. total-outside (holds e) n refl;
  fresh = λ key e q. absurd cc;
  used = λ key e q. absurd cc;
  own = λ a b e q r. absurd cc;
}
Reach-IsSafe n m (Reach.next {l} r s) = LockStep-IsSafe n l m (Reach-IsSafe n l r) s

-- In every state that the callers reach in any interleaving, two that hold the lock of the same
-- key are the same caller.
pub lock_excludes :
    (n : ℕ) (l : Locks) (i j : ℕ) (key : String) (e f : ℕ)
    → Reach n l
    → i < n
    → j < n
    → l.callers i ≡ Caller.inside Stage.holding key e
    → l.callers j ≡ Caller.inside Stage.holding key f
    → i ≡ j
lock_excludes n l i j key e f r k b p q =
    let h = Reach-IsSafe n l r in
    let mine = h.mapped i Stage.holding key e k p in
    let theirs = h.mapped j Stage.holding key f b q in
    let same : e ≡ f = some_inj (sym mine ∙ theirs) in
    let u = ap (holds e) p in
    let v = ap (holds e) q in
    let two = le-total_two (holds e) l.callers i j n k b in
    ground (arith, h.locked e, two, u, v, same)

-- In every state that the callers reach, one that waits for the lock of a key can take it, and has
-- it after that step, or some caller holds the lock of that very key: other keys never block it.
pub lock_progress :
    (n : ℕ) (l : Locks) (i : ℕ) (key : String) (e : ℕ)
    → Reach n l
    → i < n
    → l.callers i ≡ Caller.inside Stage.waiting key e
    → (LockStep n l (acquire i key e l)
        × ((acquire i key e l).callers i ≡ Caller.inside Stage.holding key e))
      ⊎ ((j : ℕ) × (j < n) × (l.callers j ≡ Caller.inside Stage.holding key e))
unfolding acquire
lock_progress n l i key e r k p =
    let h = Reach-IsSafe n l r in
    elim (Bool-cases (l.held e)) [
      | inl taken ↦ elim (total-find (holds e) l.callers n) [
        | inl z ↦ let t = h.locked e in absurd (ground (arith, t, z, taken))
        | inr (j, b, u) ↦
            let (other, q) = holds-inside e (l.callers j) u in
            let mine = h.mapped i Stage.waiting key e k p in
            let theirs = h.mapped j Stage.holding other e b q in
            let same = h.own other key e theirs mine in
            inr (j, b, q ∙ ap (λ s. Caller.inside Stage.holding s e) same)
      ]
      | inr free ↦ inl (LockStep.acquires i key e k p free, ground arith)
    ]

-- In every state that the callers reach, the map has an entry for a key exactly where some caller
-- is between its registration for that key and its release.
pub entry_lives :
    (n : ℕ) (l : Locks) (key : String)
    → Reach n l
    → (lookup key l.entries ≡ none)
        × ((i : ℕ) (st : Stage) (e : ℕ) → i < n → l.callers i ≢ Caller.inside st key e)
      ⊎ ((i : ℕ) × (st : Stage) × (e : ℕ) × (i < n)
          × (l.callers i ≡ Caller.inside st key e)
          × (lookup key l.entries ≡ some e))
entry_lives n l key r =
    let h = Reach-IsSafe n l r in
    elim (Option-cases (lookup key l.entries)) [
      | inl missing ↦ inl (missing, λ i st e k p. let m = h.mapped i st key e k p in cc)
      | inr (e, there) ↦ elim (total-find (uses e) l.callers n) [
        | inl z ↦
            let u = h.used key e there in let c = h.counted e in absurd (omega (arith, u, c, z))
        | inr (j, b, u) ↦
            let (st, other, q) = uses-inside e (l.callers j) u in
            let theirs = h.mapped j st other e b q in
            let same = h.own other key e theirs there in
            inr (j, st, e, b, q ∙ ap (λ s. Caller.inside st s e) same, there)
      ]
    ]
