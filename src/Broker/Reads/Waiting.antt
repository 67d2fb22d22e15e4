-- ===== src/Broker/Reads/Waiting.antt =====
-- A read of a delegated Run ends, and what it does to the ledger.
use Prim.Native.Nat.{min}
use openlinker_agent_node.Base.{
  ℕ, zero, suc, ◌+◌, ◌-◌, ◌*◌, ◌≤◌, String, ◌≡◌, refl, Bool, true, false, Option, none, some,
  is_some, arith, Option-cases, inl, inr, ◌⊎◌,
}
use openlinker_agent_node.Base.Result.{Result, ok, err}
use openlinker_agent_node.Broker.{DelegatedRun, Failure, Reading, Broker, Outside}
use openlinker_agent_node.Broker.Reads.{second, marked, read_loop, wait_time, read_delegated}

pub reply_cases :
    (r : Result Failure (Option DelegatedRun))
    → ((e : Failure) × (r ≡ err e)) ⊎ (r ≡ ok none) ⊎ ((run : DelegatedRun) × (r ≡ ok (some run)))
reply_cases (err e) = inl (e, refl)
reply_cases (ok none) = inr (inl refl)
reply_cases (ok (some run)) = inr (inr (run, refl))

-- A clock that no read turns back, and a timer that runs for its time unless the context ends.
pub record IsClock {W : Type 0} (out : Outside W) : Type 0 where
  pub read_later : (id : String) (w : W) → out.now w ≤ out.now (out.read_run id w).1
  pub sleeps :
      (d : ℕ) (w : W)
      → out.canceled (out.sleep d w) ≡ false
      → out.now w + d ≤ out.now (out.sleep d w)

module _ {W : Type 0} (out : Outside W) (clock : IsClock out) (id : String) (deadline : ℕ) where
  -- the time that is left falls by a second in a round that goes on
  less_time :
      (k : ℕ) (w : W)
      → deadline - out.now w ≤ suc k * second
      → let w1 = (out.read_run id w).1 in
        let w2 = out.sleep (min second (deadline - out.now w1)) w1 in
        out.canceled w2 ≡ false → deadline - out.now w2 ≤ k * second
  less_time k w h c =
      let w1 = (out.read_run id w).1 in
      omega (arith, clock.read_later id w, clock.sleeps (min second (deadline - out.now w1)) w1 c)

  read_loop-ends :
      (k : ℕ) (last : Option DelegatedRun) (b : Broker) (w : W)
      → deadline - out.now w ≤ k * second
      → is_some (read_loop out id deadline (suc k) last b w) ≡ true
  unfolding read_loop
  read_loop-ends zero last b w h = ground (arith, clock.read_later id w)
  read_loop-ends (suc k) last b w h =
      let w1 = (out.read_run id w).1 in
      let w2 = out.sleep (min second (deadline - out.now w1)) w1 in
      elim (reply_cases (out.read_run id w).0) [
        | inl (e, q) ↦ rw (q, read_loop)
        | inr (inl q) ↦ rw (q, read_loop)
        | inr (inr (run, q)) ↦
            ground (arith, q, less_time k w h, read_loop-ends k (some run) (marked id run b) w2)
      ]

wait_time-le :
    (waiting : Bool) (q : Reading) {d : ℕ} → wait_time waiting q ≡ some d → d ≤ 30 * second
unfolding wait_time
wait_time-le waiting q h = ground arith

-- Every read ends within 31 rounds: no run of the clock and no answer of Core keeps it going.
pub read_delegated-ends :
    {W : Type 0} (out : Outside W)
    → IsClock out
    → (waiting : Bool) (q : Reading) (b : Broker) (w : W)
    → is_some (read_delegated out waiting q b w) ≡ true
unfolding read_delegated
read_delegated-ends out clock waiting q b w = elim (Option-cases (wait_time waiting q)) [
  | inl e ↦ rw (e, read_delegated)
  | inr (d, e) ↦
      rw (e, read_delegated)
        (read_loop-ends out clock q.child_run_id (out.now w + d) 30 none b w
          (omega (arith, wait_time-le waiting q e)))
]
