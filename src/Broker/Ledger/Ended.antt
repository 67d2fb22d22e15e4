-- ===== src/Broker/Ledger/Ended.antt =====
-- The loop over the requests in pkg/adapters/agentdelegation/broker.go goes on only past a Run that
-- has ended.
use openlinker_agent_node.Base.{
  String, ◌≡◌, ◌≢◌, refl, Option, true, List, [], ◌∷◌, none, some, ◌⊎◌, arith, eq_iff, str_eq, some,
  subst, Bool-cases, inl, inr,
}
use openlinker_agent_node.Base.Result.{Result, ok, err, Result-cases}
use openlinker_agent_node.Broker.{RunStatus, DelegatedRun, Failure, Request, Outside}
use openlinker_agent_node.Broker.Ledger.{status_terminal, settle_answer, settle_one, settle}

-- what a Run can end as
abbrev pub HasEnded : RunStatus → Type 0
HasEnded s =
    (s ≡ RunStatus.success)
    ⊎ (s ≡ RunStatus.failed)
    ⊎ (s ≡ RunStatus.canceled)
    ⊎ (s ≡ RunStatus.timeout)

-- Each request was known to have ended, or Core says so when it is asked for the Run, one request
-- after the other.
pub data AllEnded {W : Type 0} (out : Outside W) : List (String × Request) → W → Type 0 where
  no_more : {w : W} → AllEnded out [] w
  known :
      {k : String} {r : Request} {m : List (String × Request)} {w : W}
      → r.terminal ≡ true
      → AllEnded out m w
      → AllEnded out ((k, r) ∷ m) w
  asked :
      {k : String} {r : Request} {m : List (String × Request)} {w : W} (run : DelegatedRun)
      → r.run_id ≢ ""
      → (out.read_run r.run_id w).0 ≡ ok (some run)
      → HasEnded run.status
      → AllEnded out m (out.read_run r.run_id w).1
      → AllEnded out ((k, r) ∷ m) w

terminal_run-ended : (s : RunStatus) → status_terminal s ≡ true → HasEnded s
terminal_run-ended RunStatus.success h = inl refl
terminal_run-ended RunStatus.failed h = inr (inl refl)
terminal_run-ended RunStatus.canceled h = inr (inr (inl refl))
terminal_run-ended RunStatus.timeout h = inr (inr (inr refl))
terminal_run-ended RunStatus.running h = absurd cc
terminal_run-ended (RunStatus.other s) h = absurd cc

module _ {W : Type 0} (out : Outside W) (u : Failure) (f : String → Failure) where
  -- what the settling of one request has found
  abbrev Found : Request → W → Type 0
  Found r w =
      ((r.terminal ≡ true) × ((settle_one out u f r w).1 ≡ w))
      ⊎ ((run : DelegatedRun) × (r.run_id ≢ "")
          × ((out.read_run r.run_id w).0 ≡ ok (some run))
          × HasEnded run.status
          × ((settle_one out u f r w).1 ≡ (out.read_run r.run_id w).1))

  settle_answer-ended :
      (r r' : Request) (a : Result Failure (Option DelegatedRun))
      → settle_answer out u f r a ≡ ok r'
      → (run : DelegatedRun) × (a ≡ ok (some run)) × HasEnded run.status
  unfolding settle_answer
  settle_answer-ended r r' (err e) h = absurd cc
  settle_answer-ended r r' (ok none) h = absurd cc
  settle_answer-ended r r' (ok (some run)) h = elim (Bool-cases (status_terminal run.status)) [
    | inl ended ↦ (run, refl, terminal_run-ended run.status ended)
    | inr live ↦ absurd (cc (rw live at h))
  ]

  settle_one-known :
      (r : Request) (w : W) {r' : Request} → (settle_one out u f r w).0 ≡ ok r' → Found r w
  unfolding settle_one
  settle_one-known r w {r'} h = elim (Bool-cases r.terminal) [
    | inl done ↦ inl (done, ground (arith, done))
    | inr live ↦ elim (Bool-cases (str_eq r.run_id "")) [
      | inl empty ↦ absurd (ground (arith, live, empty, h))
      | inr named ↦
          let a : settle_answer out u f r (out.read_run r.run_id w).0 ≡ ok r' =
            ground (arith, live, named, h) in
          let (run, answer, ended) = settle_answer-ended r r' (out.read_run r.run_id w).0 a in
          inr (
            run,
            (λ e. ground (arith, named, eq_iff r.run_id "", e)),
            answer,
            ended,
            ground (arith, live, named),
          )
    ]
  ]

  -- A loop that ends without an error has found that every request has ended.
  pub settle-AllEnded :
      (m : List (String × Request)) (w : W) → (settle out u f m w).0 ≡ ok tt → AllEnded out m w
  unfolding settle
  settle-AllEnded [] w h = AllEnded.no_more
  settle-AllEnded ((k, r) ∷ m) w h = elim (Result-cases (settle_one out u f r w).0) [
    | inr (e, failed) ↦ absurd (cc (rw (failed, settle) at h))
    | inl (r', fine) ↦
        let k = settle-AllEnded m (settle_one out u f r w).1 (rw (fine, settle) at h) in
        elim (settle_one-known r w fine) [
          | inl (done, same) ↦ AllEnded.known done (subst (λ (v : W). AllEnded out m v) same k)
          | inr (run, named, answer, ended, same) ↦
              AllEnded.asked run named answer ended (subst (λ (v : W). AllEnded out m v) same k)
        ]
  ]
