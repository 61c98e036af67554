-- ===== src/Gateway/Router/Health.antt =====
-- Which routes `candidates` of router.py finds available, and when a circuit is open.
use my_ai_agent_fullstack_tr.Base.{
  Bool, Bool-cases, List, Option, [], arith, contains, inl, inr, length, list_eq, nat_eq, none,
  option_eq, pair_eq, refl, some, suc, true, zero, ℕ, ◌%◌, ◌&&◌, ◌/=◌, ◌==◌, ◌||◌, ◌∷◌, ◌≡◌,
}
use my_ai_agent_fullstack_tr.Domain.Models.{Text}
use my_ai_agent_fullstack_tr.Gateway.{
  CircuitBreakerConfig, GatewayConfig, ProtocolName, RouteTarget, protocol_name_eq, route_target_eq,
}
use my_ai_agent_fullstack_tr.Gateway.Router.{
  CircuitState, Circuits, closed_circuit, cooled_down, get_elem?, healthy, is_available, is_enabled,
  lead, matching, others, primary_at, repeat, reset, weighted,
}
use my_ai_agent_fullstack_tr.Storage.Table.{lookup, lookup-put}

-- The circuit lets the provider be called at the instant.
unfoldable pub is_ready : CircuitBreakerConfig → ℕ → Circuits → Text → Bool
is_ready breaker now circuits provider = cooled_down breaker now (lookup provider circuits)

-- A reset changes no answer at its instant.
reset-is_ready :
    (breaker : CircuitBreakerConfig) (now : ℕ) (p q : Text) (o : Option CircuitState)
    (circuits : Circuits)
    → lookup p circuits ≡ o
    → is_ready breaker now (reset breaker now p o circuits) q ≡ is_ready breaker now circuits q
unfolding is_ready
reset-is_ready breaker now p q none circuits h = refl
reset-is_ready breaker now p q (some c) circuits h =
    ground (arith, h, lookup-put p q closed_circuit circuits)

is_available-is_ready :
    (breaker : CircuitBreakerConfig) (now : ℕ) (p : Text) (circuits : Circuits)
    → let (free, circuits') = is_available breaker now p circuits in
      (free ≡ is_ready breaker now circuits p)
      × ((q : Text) → is_ready breaker now circuits' q ≡ is_ready breaker now circuits q)
unfolding is_available is_ready
is_available-is_ready breaker now p circuits =
    (refl, λ q. reset-is_ready breaker now p q (lookup p circuits) circuits refl)

pub healthy-contains :
    (config : GatewayConfig) (now : ℕ) (routes : List RouteTarget) (circuits : Circuits)
    (r : RouteTarget)
    → contains r (healthy config now routes circuits).0 ≡ (
        contains r routes
        && is_enabled config r.provider
        && is_ready config.circuit_breaker now circuits r.provider)
unfolding healthy
healthy-contains config now [] circuits r = refl
healthy-contains config now (route ∷ routes) circuits r =
    let (free, c) = is_available config.circuit_breaker now route.provider circuits in
    let (e, same) = is_available-is_ready config.circuit_breaker now route.provider circuits in
    elim (Bool-cases (is_enabled config route.provider)) [
      | inl on ↦ ground (arith, on, e, same r.provider, healthy-contains config now routes c r)
      | inr off ↦ ground (arith, off, healthy-contains config now routes circuits r)
    ]

pub matching-contains :
    (protocol : ProtocolName) (routes : List RouteTarget) (r : RouteTarget)
    → contains r (matching protocol routes) ≡ (contains r routes && contains protocol r.protocols)
unfolding matching
matching-contains protocol [] r = refl
matching-contains protocol (route ∷ routes) r = ground (arith, matching-contains protocol routes r)

others-contains :
    (primary : RouteTarget) (routes : List RouteTarget) (r : RouteTarget)
    → contains r (others primary routes) ≡ (contains r routes && r /= primary)
unfolding others
others-contains primary [] r = refl
others-contains primary (route ∷ routes) r = ground (arith, others-contains primary routes r)

repeat-contains :
    (route : RouteTarget) (n : ℕ) (rest : List RouteTarget) (r : RouteTarget)
    → contains r (repeat route n rest) ≡ true
    → (r == route || contains r rest) ≡ true
unfolding repeat
repeat-contains route zero rest r h = ground (arith, h)
repeat-contains route (suc n) rest r h = ground (arith, h, repeat-contains route n rest r)

weighted-contains :
    (routes : List RouteTarget) (r : RouteTarget)
    → contains r (weighted routes) ≡ true
    → contains r routes ≡ true
unfolding weighted
weighted-contains [] r h = h
weighted-contains (route ∷ routes) r h =
    ground
      (arith, repeat-contains route route.weight (weighted routes) r h, weighted-contains routes r)

get_elem?-contains :
    (routes : List RouteTarget) (i : ℕ) (r : RouteTarget)
    → get_elem? routes i ≡ some r
    → contains r routes ≡ true
unfolding get_elem?
get_elem?-contains [] i r h = cc
get_elem?-contains (route ∷ routes) zero r h = ground (arith, h)
get_elem?-contains (route ∷ routes) (suc i) r h = ground (arith, get_elem?-contains routes i r h)

pub lead-contains :
    (n : ℕ) (available : List RouteTarget) (r : RouteTarget)
    → contains r (lead (primary_at n (weighted available)) available) ≡ contains r available
unfolding primary_at lead
lead-contains n available r = go (primary_at n (weighted available)) refl
  where
    go :
        (o : Option RouteTarget)
        → get_elem? (weighted available) (n % length (weighted available)) ≡ o
        → contains r (lead o available) ≡ contains r available
    go none h = refl
    go (some primary) h = ground (
      arith,
      others-contains primary available r,
      weighted-contains available primary (get_elem?-contains (weighted available) _ primary h),
    )
