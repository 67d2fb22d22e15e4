-- ===== src/Broker/Ledger/Count.antt =====
-- How many requests are open, and what the loop over the requests and markTerminal do to them.
use openlinker_agent_node.Base.{
  ℕ, ◌+◌, ◌≤◌, String, ◌≡◌, refl, true, false, List, [], ◌∷◌, none, some, ◌⊎◌, if◌then◌else◌, arith,
  length, All, eq_iff, str_eq, some, subst, Bool-cases, some_inj, inl, inr,
}
use openlinker_agent_node.Base.Assoc.{lookup, put, delete}
use openlinker_agent_node.Base.Result.{Result, ok, err}
use openlinker_agent_node.Patterns.{is_uuid}
use openlinker_agent_node.Broker.{Failure, Request, Outside}
use openlinker_agent_node.Broker.Ledger.{mark_terminal, settle_one, settle}

abbrev pub open_one : Request → ℕ
open_one r = if r.terminal then 0 else 1

abbrev pub open_count : List (String × Request) → ℕ
open_count [] = 0
open_count ((k, r) ∷ m) = open_one r + open_count m

-- An unresolved creation, or a Run with the ID that Core gave it.
abbrev pub IsShaped : Request → Type 0
IsShaped r = ((r.run_id ≡ "") × (r.terminal ≡ false)) ⊎ (is_uuid r.run_id ≡ true)

abbrev pub Shaped : List (String × Request) → Type 0
Shaped m = All (λ (e : String × Request). IsShaped e.1) m

abbrev OkShaped : Result Failure Request → Type 0
OkShaped (ok r) = IsShaped r
OkShaped (err e) = Unit

module _ {W : Type 0} (out : Outside W) (u : Failure) (f : String → Failure) where
  settle_one-open :
      (r : Request) (w : W) {r' : Request} → (settle_one out u f r w).0 ≡ ok r' → r'.terminal ≡ true
  unfolding settle_one
  settle_one-open r w h = ground arith

  settle_one-IsShaped : (r : Request) (w : W) → IsShaped r → OkShaped (settle_one out u f r w).0
  unfolding settle_one
  settle_one-IsShaped r w s = ground (arith, eq_iff r.run_id "")

  -- A loop that ends without an error leaves no request open.
  pub settle-ok :
      (m : List (String × Request)) (w : W)
      → (settle out u f m w).0 ≡ ok tt
      → open_count (settle out u f m w).1 ≡ 0
  unfolding settle
  settle-ok [] w h = refl
  settle-ok ((k, r) ∷ m) w h =
      ground (arith, settle_one-open r w, settle-ok m (settle_one out u f r w).1)

  pub settle-open-le :
      (m : List (String × Request)) (w : W) → open_count (settle out u f m w).1 ≤ open_count m
  unfolding settle
  settle-open-le [] w = omega arith
  settle-open-le ((k, r) ∷ m) w =
      ground (arith, settle_one-open r w, settle-open-le m (settle_one out u f r w).1)

  pub length-settle :
      (m : List (String × Request)) (w : W) → length (settle out u f m w).1 ≡ length m
  unfolding settle
  length-settle [] w = refl
  length-settle ((k, r) ∷ m) w = ground (arith, length-settle m (settle_one out u f r w).1)

  pub settle-Shaped :
      (m : List (String × Request)) (w : W) → Shaped m → Shaped (settle out u f m w).1
  unfolding settle
  settle-Shaped [] w s = tt
  settle-Shaped ((k, r) ∷ m) w (s, t) =
      ground (arith, settle_one-IsShaped r w s, settle-Shaped m (settle_one out u f r w).1 t)

  pub settle-lookup-none :
      (j : String) (m : List (String × Request)) (w : W)
      → lookup j m ≡ none
      → lookup j (settle out u f m w).1 ≡ none
  unfolding settle lookup
  settle-lookup-none j [] w h = refl
  settle-lookup-none j ((k, r) ∷ m) w h =
      ground (arith, settle-lookup-none j m (settle_one out u f r w).1)

module _ (k : String) (r : Request) where
  pub open-put_new :
      (m : List (String × Request))
      → lookup k m ≡ none
      → open_count (put k r m) ≡ open_count m + open_one r
  unfolding lookup put
  open-put_new [] h = omega arith
  open-put_new ((j, q) ∷ m) h = ground (arith, open-put_new m)

  -- in place of an entry that was open
  pub open-put_old :
      (m : List (String × Request)) (old : Request)
      → lookup k m ≡ some old
      → old.terminal ≡ false
      → open_count (put k r m) ≤ open_count m
  unfolding lookup put
  open-put_old [] old h t = cc
  open-put_old ((j, q) ∷ m) old h t = ground (arith, open-put_old m old)

  pub put-Shaped : (m : List (String × Request)) → Shaped m → IsShaped r → Shaped (put k r m)
  unfolding put
  put-Shaped [] s h = (h, tt)
  put-Shaped ((j, q) ∷ m) (p, s) h = ground (arith, put-Shaped m s h)

pub open-delete-le :
    (k : String) (m : List (String × Request)) → open_count (delete k m) ≤ open_count m
unfolding delete
open-delete-le k [] = omega arith
open-delete-le k ((j, q) ∷ m) = ground (arith, open-delete-le k m)

pub delete-Shaped : (k : String) (m : List (String × Request)) → Shaped m → Shaped (delete k m)
unfolding delete
delete-Shaped k [] s = tt
delete-Shaped k ((j, q) ∷ m) (p, s) = ground (arith, delete-Shaped k m s)

pub lookup-IsShaped :
    (k : String) (m : List (String × Request)) (r : Request)
    → Shaped m
    → lookup k m ≡ some r
    → IsShaped r
unfolding lookup
lookup-IsShaped k [] r s h = cc
lookup-IsShaped k ((j, q) ∷ m) r (p, s) h = elim (Bool-cases (str_eq j k)) [
  | inl e ↦ subst IsShaped (some_inj (rw e at h)) p
  | inr e ↦ lookup-IsShaped k m r s (rw e at h)
]

-- markTerminal closes requests and opens none.
pub open-mark_terminal-le :
    (id : String) (m : List (String × Request)) → open_count (mark_terminal id m) ≤ open_count m
unfolding mark_terminal
open-mark_terminal-le id [] = omega arith
open-mark_terminal-le id ((j, q) ∷ m) = ground (arith, open-mark_terminal-le id m)

pub length-mark_terminal :
    (id : String) (m : List (String × Request)) → length (mark_terminal id m) ≡ length m
unfolding mark_terminal
length-mark_terminal id [] = refl
length-mark_terminal id ((j, q) ∷ m) = omega (arith, length-mark_terminal id m)

pub mark_terminal-Shaped :
    (id : String) (m : List (String × Request))
    → is_uuid id ≡ true
    → Shaped m
    → Shaped (mark_terminal id m)
unfolding mark_terminal
mark_terminal-Shaped id [] u s = tt
mark_terminal-Shaped id ((j, q) ∷ m) u (p, s) =
    ground (arith, mark_terminal-Shaped id m u s, eq_iff q.run_id id)

open-pos :
    (k : String) (m : List (String × Request)) (p : Request)
    → lookup k m ≡ some p
    → p.terminal ≡ false
    → 1 ≤ open_count m
unfolding lookup
open-pos k [] p h live = cc
open-pos k ((j, r) ∷ m) p h live = ground (arith, open-pos k m p)

module _ {W : Type 0} (out : Outside W) (u : Failure) (f : String → Failure) where
  -- The loop stops at an unresolved request, before it reads anything, if no other is open.
  pub settle-unresolved :
      (k : String) (m : List (String × Request)) (p : Request) (w : W)
      → lookup k m ≡ some p
      → p.terminal ≡ false
      → p.run_id ≡ ""
      → open_count m ≤ 1
      → settle out u f m w ≡ (err u, m, w)
  unfolding settle settle_one lookup
  settle-unresolved k [] p w found live empty one = cc
  settle-unresolved k ((j, r) ∷ m) p w found live empty one =
      ground (arith, eq_iff r.run_id "", eq_iff j k, open-pos k m p, settle-unresolved k m p w)
