-- ===== src/CodexTurn/Identity.antt =====
-- Which thread a turn runs on.
use Prim.Native.String.{String, len}
use openlinker_agent_node.Base.{
  ◌≡◌, ◌≢◌, ◌≤◌, true, false, inl, inr, ◌⊎◌, Bool-cases, str_eq, eq_iff, arith, trim_space,
}
use openlinker_agent_node.Base.Result.{
  Result, ok, err, IsEnsured, >>=-IsEnsured, IsEnsured-ok, ok-IsEnsured, refuse-ok,
}
use openlinker_agent_node.CodexTurn.Open.{
  Replies, CallError, resumed, called, bad_id, open_thread, open_turn,
}

-- a thread that was asked for, or any if none was
abbrev IsAsked : (session_id : String) → String → Type 0
IsAsked session_id thread = (session_id ≡ "") ⊎ (thread ≡ session_id)

resumed-IsAsked :
    (session_id : String) (r : Result CallError String)
    → IsEnsured (IsAsked session_id) (resumed session_id r)
resumed-IsAsked session_id (err e) = tt
resumed-IsAsked session_id (ok thread) = elim (Bool-cases (str_eq thread session_id)) [
  | inl same ↦ rw same (inr ((eq_iff thread session_id).0 same))
  | inr other ↦ rw other tt
]

open_thread-IsAsked :
    (r : Replies) (session_id : String) → IsEnsured (IsAsked session_id) (open_thread r session_id)
unfolding open_thread
open_thread-IsAsked r session_id = elim (Bool-cases (str_eq session_id "")) [
  | inl fresh ↦ rw fresh (
      IsEnsured-ok (IsAsked session_id) (called r.start)
        (λ t e. inl ((eq_iff session_id "").0 fresh)))
  | inr known ↦ rw known (resumed-IsAsked session_id (r.resume session_id))
]

not_blank : (id : String) → bad_id id ≡ false → trim_space id ≢ ""
not_blank id h e =
    let there : str_eq (trim_space id) "" ≡ true = (eq_iff (trim_space id) "").1 e in
    let bad : bad_id id ≡ true = ground (arith, there) in absurd cc

bad_id-len : (id : String) → bad_id id ≡ false → (len id ≤ 256) × (trim_space id ≢ "")
bad_id-len id h = (ground (arith, h), not_blank id h)

-- A turn that opens runs on the session that was to be resumed, or on a new thread where none was;
-- the IDs of the thread and of the turn are not blank and at most 256 bytes long.
pub opened_turn :
    (r : Replies) (session_id thread turn : String)
    → open_turn r session_id ≡ ok (thread, turn)
    → ((session_id ≡ "") ⊎ (thread ≡ session_id))
      × (len thread ≤ 256)
      × (len turn ≤ 256)
      × (trim_space thread ≢ "")
      × (trim_space turn ≢ "")
unfolding open_turn
opened_turn r session_id thread turn h =
    let P : String × String → Type 0 = λ x.
      IsAsked session_id (x.0)
      × (len (x.0) ≤ 256)
      × (len (x.1) ≤ 256)
      × (trim_space (x.0) ≢ "")
      × (trim_space (x.1) ≢ "") in
    ok-IsEnsured P (open_turn r session_id) (thread, turn)
      (>>=-IsEnsured P _ _ (λ t e1. >>=-IsEnsured P _ _ (λ u e2. >>=-IsEnsured P _ _ (λ v e3.
        >>=-IsEnsured P _ _ (λ w e4.
          (let a = bad_id-len t (refuse-ok _ _ u e2) in
            let b = bad_id-len v (refuse-ok _ _ w e4) in
            (
              ok-IsEnsured (IsAsked session_id) _ t (open_thread-IsAsked r session_id) e1,
              a.0,
              b.0,
              a.1,
              b.1,
            )))))))
      h
