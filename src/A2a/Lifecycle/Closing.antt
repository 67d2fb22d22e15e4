-- ===== src/A2a/Lifecycle/Closing.antt =====
-- Every proxy that the server accepted is closed once, and never while it is in use.
use openlinker_agent_node.Base.{
  ℕ, ◌+◌, ◌<◌, String, ◌≡◌, Bool, List, [], ◌∷◌, Option, none, some, ◌==◌, if◌then◌else◌, is_some,
  arith,
}
use openlinker_agent_node.A2a.Lifecycle.{
  Server, Failure, Listening, refused, other_address, tcp_address, set_proxy, fail_start,
  start_with, start, stop_generation,
}

abbrev pub occurs : ℕ → List ℕ → ℕ
occurs p [] = 0
occurs p (q ∷ qs) = (if p == q then 1 else 0) + occurs p qs

abbrev pub held : ℕ → Option ℕ → ℕ
held p none = 0
held p (some q) = if p == q then 1 else 0

-- What the node, the operator and the end of a lifetime do with the server. A proxy's address
-- test is that of the start.
pub data Operation : Type 0 where
  accept : ℕ → Operation
  begin : (String → Bool) → Listening → Operation
  end : Option ℕ → Operation

abbrev pub apply : Operation → Server → Option Failure × Server
apply (accept p) s = set_proxy (some p) s
apply (begin loopback_ip l) s = start loopback_ip l s
apply (end expected) s = (none, stop_generation expected s)

abbrev pub run : List Operation → Server → Server
run [] s = s
run (o ∷ os) s = run os (apply o s).1

-- How often `p` is accepted in a run.
abbrev pub accepted : ℕ → List Operation → Server → ℕ
accepted p [] s = 0
accepted p (accept q ∷ os) s =
    (if is_some (set_proxy (some q) s).0 then 0 else held p (some q))
    + accepted p os (set_proxy (some q) s).1
accepted p (o ∷ os) s = accepted p os (apply o s).1

-- How often the server has become responsible for `p`: it holds it, or has closed it.
abbrev pub duty : ℕ → Server → ℕ
duty p s = held p s.proxy + occurs p s.closed

start-duty :
    (loopback_ip : String → Bool) (l : Listening) (s : Server) (p : ℕ)
    → duty p (start loopback_ip l s).1 ≡ duty p s
unfolding start start_with fail_start
start-duty loopback_ip refused s p = ground arith
start-duty loopback_ip other_address s p = ground arith
start-duty loopback_ip tcp_address s p = ground arith

stop-duty :
    (expected : Option ℕ) (s : Server) (p : ℕ) → duty p (stop_generation expected s) ≡ duty p s
unfolding stop_generation
stop-duty expected s p = ground arith

set_proxy-duty :
    (q : ℕ) (s : Server) (p : ℕ)
    → duty p (set_proxy (some q) s).1
      ≡ (if is_some (set_proxy (some q) s).0 then 0 else held p (some q)) + duty p s
unfolding set_proxy
set_proxy-duty q s p = ground arith

run-duty :
    (os : List Operation) (s : Server) (p : ℕ) → duty p (run os s) ≡ accepted p os s + duty p s
run-duty [] s p = omega arith
run-duty (accept q ∷ os) s p =
    omega (arith, set_proxy-duty q s p, run-duty os (set_proxy (some q) s).1 p)
run-duty (begin f l ∷ os) s p = omega (arith, start-duty f l s p, run-duty os (start f l s).1 p)
run-duty (end e ∷ os) s p = omega (arith, stop-duty e s p, run-duty os (stop_generation e s) p)

-- A server that was configured and has done nothing.
abbrev pub IsNew : Server → Type 0
IsNew s = (s.server ≡ none) × (s.proxy ≡ none) × (s.closed ≡ [])

-- After any run that ends with Stop, each proxy has been closed exactly as often as the server
-- accepted it, whether its starts succeeded, failed or were refused: none leaks, and none is
-- closed twice.
pub stopped_closes_all :
    (os : List Operation) (s : Server) (p : ℕ)
    → IsNew s
    → occurs p (stop_generation none (run os s)).closed ≡ accepted p os s
unfolding stop_generation
stopped_closes_all os s p new = ground (arith, run-duty os s p)

abbrev Later : ℕ → Option ℕ → Type 0
Later g none = Unit
Later g (some h) = g < h

-- Every server since `g` is of a later generation.
abbrev After : ℕ → Server → Type 0
After g s = (g < s.generation) × Later g s.server

apply-After : (g : ℕ) (o : Operation) (s : Server) → After g s → After g (apply o s).1
unfolding start start_with fail_start set_proxy stop_generation
apply-After g (accept p) s a = ground arith
apply-After g (begin f refused) s a = ground arith
apply-After g (begin f other_address) s a = ground arith
apply-After g (begin f tcp_address) s a = ground arith
apply-After g (end e) s a = ground arith

run-After : (g : ℕ) (os : List Operation) (s : Server) → After g s → After g (run os s)
run-After g [] s a = a
run-After g (o ∷ os) s a = run-After g os (apply o s).1 (apply-After g o s a)

ended : (g : ℕ) (s : Server) → After g s → stop_generation (some g) s ≡ s
unfolding stop_generation
ended g s a = ground arith

-- The end of an old server's lifetime does nothing to the servers that were started after that
-- one was stopped, in whatever order these were started and stopped.
pub stale_end_ignored :
    (g : ℕ) (os : List Operation) (s : Server)
    → s.server ≡ some g
    → g < s.generation
    → let later = run os (stop_generation none s) in stop_generation (some g) later ≡ later
unfolding stop_generation
stale_end_ignored g os s running old =
    ended g (run os (stop_generation none s))
      (run-After g os (stop_generation none s) (ground arith))
