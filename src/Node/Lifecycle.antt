-- ===== src/Node/Lifecycle.antt =====
-- Start and stopAdapters of internal/agentnode/node.go. What a Start meets is the list
-- of what its calls return; what it does to the parts of the node is a list of steps.
use openlinker_agent_node.Base.{
  ◌||◌, is_some, ◌≡◌, refl, ◌∙◌, Bool, true, false, not, ◌&&◌, List, [], ◌∷◌, ◌++◌, Option, none,
  some, if◌then◌else◌, arith,
}

pub data NodeError : Type 0 where
  no_adapter : NodeError
  already_started : NodeError
  preflight_failed : NodeError
  worker_refused : NodeError
  helper_start_failed : NodeError
  proxy_failed : NodeError
  proxy_refused : NodeError
  listener_start_failed : NodeError
  worker_failed : NodeError
  helper_stop_failed : NodeError
  listener_stop_failed : NodeError

-- What happens to the helper, the public listener, its proxy and the worker.
pub data NodeStep : Type 0 where
  lifetime_ends : NodeStep
  helper_starts : NodeStep
  helper_stops : NodeStep
  proxy_made : NodeStep
  proxy_set : NodeStep
  proxy_closed : NodeStep
  listener_starts : NodeStep
  listener_stops : NodeStep
  worker_runs : NodeStep

-- the calls of a Start, each by whether it returns no error
pub record Calls : Type 0 where
  pub preflight : Bool  -- true also for an adapter that has none
  pub new_worker : Bool
  pub helper_start : Bool
  pub new_proxy : Bool
  pub set_proxy : Bool
  pub listener_start : Bool
  pub worker_start : Bool
  pub helper_stop : Bool
  pub listener_stop : Bool

-- Node, with the parts that are configured
pub record Node : Type 0 where
  pub has_adapter : Bool
  pub has_helper : Bool
  pub has_listener : Bool
  pub started : Bool

abbrev pub Trace : Type 0
Trace = Option NodeError × List NodeStep

abbrev first_error : Option NodeError → Option NodeError → Option NodeError
first_error (some e) later = some e
first_error none later = later

abbrev error_unless : Bool → NodeError → Option NodeError
error_unless true e = none
error_unless false e = some e

-- stopAdapters
unfoldable pub stop_adapters : Node → Calls → Trace
stop_adapters n c =
    let helper =
      if n.has_helper then error_unless c.helper_stop NodeError.helper_stop_failed else none in
    let listener =
      if n.has_listener
      then error_unless c.listener_stop NodeError.listener_stop_failed
      else none in
    (
      first_error helper listener,
      lifetime_ends
          ∷ ((if n.has_helper then helper_stops ∷ [] else [])
              ++ (if n.has_listener then listener_stops ∷ [] else [])),
    )

-- a call with its step, and what follows unless it fails
unfoldable pub attempt : Bool → NodeStep → NodeError → Trace → Trace
attempt fine s e rest = if fine then (rest.0, s ∷ rest.1) else (some e, s ∷ [])

unfoldable pub run_worker : Calls → Trace
run_worker c = (error_unless c.worker_start NodeError.worker_failed, worker_runs ∷ [])

-- The proxy and the listener. A proxy that the listener does not take is closed; a listener whose
-- Start fails is stopped with the others.
unfoldable pub start_listener : Calls → Trace
unfolding attempt run_worker
start_listener c =
    if not c.new_proxy
    then (some NodeError.proxy_failed, [])
    else if not c.set_proxy
    then (some NodeError.proxy_refused, proxy_made ∷ proxy_closed ∷ [])
    else (let rest =
          attempt c.listener_start listener_starts NodeError.listener_start_failed (run_worker c) in
        (rest.0, proxy_made ∷ proxy_set ∷ rest.1))

unfoldable pub after_helper : Node → Calls → Trace
unfolding start_listener run_worker
after_helper n c = if n.has_listener then start_listener c else run_worker c

-- Start between its guards and its deferred function
unfoldable pub start_parts : Node → Calls → Trace
unfolding attempt after_helper
start_parts n c =
    if not c.preflight
    then (some NodeError.preflight_failed, [])
    else if not c.new_worker
    then (some NodeError.worker_refused, [])
    else if n.has_helper
    then attempt c.helper_start helper_starts NodeError.helper_start_failed (after_helper n c)
    else after_helper n c

-- Start: its error, its steps, and the node after it
unfoldable pub start_node : Node → Calls → Trace × Node
unfolding start_parts stop_adapters
start_node n c =
    if not n.has_adapter
    then ((some NodeError.no_adapter, []), n)
    else if n.started
    then ((some NodeError.already_started, []), n)
    else (let parts = start_parts n c in
        let stopping = stop_adapters n c in
        ((first_error parts.0 stopping.0, parts.1 ++ stopping.1), record n { started = false }))

-- What is in use after the steps: the helper, the listener, a proxy that nobody closes.
pub record InUse : Type 0 where
  pub helper : Bool
  pub listener : Bool
  pub loose_proxy : Bool
  pub lifetime : Bool

abbrev use_step : NodeStep → InUse → InUse
use_step lifetime_ends u = record u { lifetime = false }
use_step helper_starts u = record u { helper = true }
use_step helper_stops u = record u { helper = false }
use_step proxy_made u = record u { loose_proxy = true }
use_step proxy_set u = record u { loose_proxy = false; listener = true }
use_step proxy_closed u = record u { loose_proxy = false }
use_step listener_starts u = record u { listener = true }
use_step listener_stops u = record u { listener = false }
use_step worker_runs u = u

abbrev pub use_steps : List NodeStep → InUse → InUse
use_steps [] u = u
use_steps (s ∷ rest) u = use_steps rest (use_step s u)

abbrev pub fresh : InUse
fresh = record { helper = false; listener = false; loose_proxy = false; lifetime = true }

abbrev pub released : InUse
released = record { helper = false; listener = false; loose_proxy = false; lifetime = false }

use_steps-append :
    (first later : List NodeStep) (u : InUse)
    → use_steps (first ++ later) u ≡ use_steps later (use_steps first u)
use_steps-append [] later u = refl
use_steps-append (s ∷ first) later u = use_steps-append first later (use_step s u)

-- What can be in use before the stops: the configured parts, and no loose proxy.
IsTidy : Node → InUse → Type 0
IsTidy n u =
    (u.loose_proxy ≡ false)
    × (n.has_helper ≡ false → u.helper ≡ false)
    × (n.has_listener ≡ false → u.listener ≡ false)

start_parts-IsTidy : (n : Node) (c : Calls) → IsTidy n (use_steps (start_parts n c).1 fresh)
unfolding IsTidy start_parts attempt after_helper start_listener run_worker
start_parts-IsTidy n c = (ground arith, ground arith, ground arith)

stop_adapters-released :
    (n : Node) (c : Calls) (u : InUse) → IsTidy n u → use_steps (stop_adapters n c).1 u ≡ released
unfolding IsTidy stop_adapters
stop_adapters-released n c u (p, h, l) = ground (arith, p, h, l)

-- every call of a configured part returns no error
abbrev pub parts_fine : Node → Calls → Bool
parts_fine n c =
    c.preflight
    && c.new_worker
    && (not n.has_helper || c.helper_start)
    && (not n.has_listener || (c.new_proxy && c.set_proxy && c.listener_start))
    && c.worker_start

abbrev pub stops_fine : Node → Calls → Bool
stops_fine n c = (not n.has_helper || c.helper_stop) && (not n.has_listener || c.listener_stop)

is_some-start_parts : (n : Node) (c : Calls) → is_some (start_parts n c).0 ≡ not (parts_fine n c)
unfolding start_parts attempt after_helper start_listener run_worker
is_some-start_parts n c = ground arith

is_some-stop_adapters :
    (n : Node) (c : Calls) → is_some (stop_adapters n c).0 ≡ not (stops_fine n c)
unfolding stop_adapters
is_some-stop_adapters n c = ground arith

not-and : (a b : Bool) → (not a || not b) ≡ not (a && b)
not-and a b = ground arith

is_some-first_error :
    (e later : Option NodeError) → is_some (first_error e later) ≡ (is_some e || is_some later)
is_some-first_error none later = refl
is_some-first_error (some e) later = refl

-- Whatever fails, a Start that passes its guards leaves nothing in use: the lifetime is over, the
-- helper and the listener are stopped, every proxy is closed or left to the listener that is
-- stopped, and the node can be started again. It returns an error exactly if some call of a
-- configured part fails, the stops included.
pub start_releases :
    (n : Node) (c : Calls)
    → n.has_adapter ≡ true
    → n.started ≡ false
    → let o = start_node n c in
      (use_steps o.0.1 fresh ≡ released)
      × (o.1.started ≡ false)
      × (is_some o.0.0 ≡ not (parts_fine n c && stops_fine n c))
unfolding start_node
start_releases n c a s =
    let tidy = start_parts-IsTidy n c in
    let steps = use_steps-append (start_parts n c).1 (stop_adapters n c).1 fresh in
    let done = stop_adapters-released n c (use_steps (start_parts n c).1 fresh) tidy in
    let joined = is_some-first_error (start_parts n c).0 (stop_adapters n c).0 in
    let parts = is_some-start_parts n c in
    let stops = is_some-stop_adapters n c in
    rw (a, s)
      (steps ∙ done, refl, joined ∙ rw (parts, stops) (not-and (parts_fine n c) (stops_fine n c)))
