-- ===== src/Helper/Sessions.antt =====
-- Which sessions of internal/agentnode/helper_server.go are open, by the history of the server.
use openlinker_agent_node.Base.{
  String, ◌≡◌, ◌≢◌, inl, inr, List, [], ◌∷◌, some, some_inj, Bool-cases, str_eq, eq_iff, arith,
  subst,
}
use openlinker_agent_node.Base.Assoc.{lookup, lookup-put, lookup-delete}
use openlinker_agent_node.Helper.{
  HelperSession, HelperServer, started, create_session, close_session, stop,
}

-- What happens to the sessions of a server.
pub data Action : Type 0 where
  creates : String → HelperSession → Action
  closes : String → Action
  stops : Action

unfoldable pub act : Action → HelperServer → HelperServer
unfolding create_session close_session stop
act (Action.creates token session) s = create_session token session s
act (Action.closes token) s = close_session token s
act Action.stops s = stop s

-- The latest action stands first.
unfoldable pub after : List Action → HelperServer
unfolding act
after [] = started
after (a ∷ earlier) = act a (after earlier)

-- The specification: the session was created with that token, and since then neither was another
-- with the same token, nor was it closed, nor the server stopped.
pub data IsOpen (token : String) (session : HelperSession) : List Action → Type 0 where
  opened : {earlier : List Action} → IsOpen token session (Action.creates token session ∷ earlier)
  beside :
      {earlier : List Action} (other : String) (s : HelperSession)
      → other ≢ token
      → IsOpen token session earlier
      → IsOpen token session (Action.creates other s ∷ earlier)
  others_close :
      {earlier : List Action} (other : String)
      → other ≢ token
      → IsOpen token session earlier
      → IsOpen token session (Action.closes other ∷ earlier)

pub open-lookup :
    (token : String) (session : HelperSession) (past : List Action)
    → IsOpen token session past
    → lookup token (after past).sessions ≡ some session
unfolding after act create_session close_session
open-lookup token session _ (IsOpen.opened {earlier}) =
    let p = lookup-put token token session (after earlier).sessions in
    ground (arith, p, eq_iff token token)
open-lookup token session _ (IsOpen.beside {earlier} other s apart h) =
    let p = lookup-put other token s (after earlier).sessions in
    ground (arith, p, eq_iff other token, open-lookup token session earlier h, apart)
open-lookup token session _ (IsOpen.others_close {earlier} other apart h) =
    let p = lookup-delete other token (after earlier).sessions in
    ground (arith, p, eq_iff other token, open-lookup token session earlier h, apart)

pub lookup-IsOpen :
    (token : String) (session : HelperSession) (past : List Action)
    → lookup token (after past).sessions ≡ some session
    → IsOpen token session past
unfolding after act create_session close_session stop lookup
lookup-IsOpen token session [] h = absurd cc
lookup-IsOpen token session (Action.stops ∷ earlier) h = absurd cc
lookup-IsOpen token session (Action.closes other ∷ earlier) h =
    let p = lookup-delete other token (after earlier).sessions in
    elim (Bool-cases (str_eq other token)) [
      | inl same ↦ absurd (ground (arith, p, same, h))
      | inr apart ↦
          let d : other ≢ token = ground (arith, apart, eq_iff other token) in
          let k : lookup token (after earlier).sessions ≡ some session =
            ground (arith, p, apart, h) in
          IsOpen.others_close other d (lookup-IsOpen token session earlier k)
    ]
lookup-IsOpen token session (Action.creates other s ∷ earlier) h =
    let p = lookup-put other token s (after earlier).sessions in
    elim (Bool-cases (str_eq other token)) [
      | inl same ↦
          let tokens = (eq_iff other token).0 same in
          let sessions : s ≡ session = some_inj (ground (arith, p, same, h)) in
          let both : Action.creates token session ≡ Action.creates other s = cc in
          subst (λ (a : Action). IsOpen token session (a ∷ earlier)) both IsOpen.opened
      | inr apart ↦
          let d : other ≢ token = ground (arith, apart, eq_iff other token) in
          let k : lookup token (after earlier).sessions ≡ some session =
            ground (arith, p, apart, h) in
          IsOpen.beside other s d (lookup-IsOpen token session earlier k)
    ]
