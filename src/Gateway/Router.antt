-- ===== src/Gateway/Router.antt =====
-- `class ModelRouter` of week01_llm-gateway/app/services/router.py: the circuits of the providers, and
-- the candidates for a call. The readings of the clock in one call are taken to be the same instant.
pub mod Health
pub mod Breaker
pub mod Choice
pub mod Rotation
use my_ai_agent_fullstack_tr.Base.{
  Bool, List, Option, [], contains, false, if◌then◌else◌, leb, length, list_eq, nat_eq, none,
  option_eq, or_else, pair_eq, some, suc, true, zero, ℕ, ◌%◌, ◌&&◌, ◌+◌, ◌-◌, ◌/=◌, ◌==◌, ◌∷◌,
}
use my_ai_agent_fullstack_tr.Domain.Models.{Text}
use my_ai_agent_fullstack_tr.Gateway.{
  CircuitBreakerConfig, GatewayConfig, ModelRouteConfig, ProtocolName, RouteStrategy, RouteTarget,
  protocol_name_eq, route_target_eq,
}
use my_ai_agent_fullstack_tr.Storage.Table.{Table, lookup, put}

-- `class CircuitState`
pub record CircuitState : Type 0 where
  pub failures : ℕ
  pub opened_at : Option ℕ

abbrev pub Circuits : Type 0
Circuits = Table Text CircuitState

-- The fields of `class ModelRouter`; a counter is the number that it gives next.
pub record ModelRouter : Type 0 where
  pub circuits : Circuits
  pub counters : Table Text ℕ

abbrev pub closed_circuit : CircuitState
closed_circuit = record { failures = 0; opened_at = none }

unfoldable pub record_success : Text → ModelRouter → ModelRouter
record_success provider router = record router {
  circuits = put provider closed_circuit router.circuits;
}

-- A circuit after one more failure.
abbrev pub failed_again : CircuitBreakerConfig → ℕ → CircuitState → CircuitState
failed_again breaker now c = record {
  failures = c.failures + 1;
  opened_at = if leb breaker.failure_threshold (c.failures + 1) then some now else c.opened_at;
}

unfoldable pub record_failure : CircuitBreakerConfig → ℕ → Text → ModelRouter → ModelRouter
record_failure breaker now provider router =
    let c = or_else (lookup provider router.circuits) closed_circuit in
    record router { circuits = put provider (failed_again breaker now c) router.circuits }

-- Whether the circuit, opened at an instant, has cooled down.
abbrev pub cooled_down : CircuitBreakerConfig → ℕ → Option CircuitState → Bool
cooled_down breaker now none = true
cooled_down breaker now (some c) = elim c.opened_at [
  | none ↦ true
  | some t ↦ leb breaker.cooldown_ms (now - t)
]

-- The reset of a circuit that has cooled down.
abbrev pub reset : CircuitBreakerConfig → ℕ → Text → Option CircuitState → Circuits → Circuits
reset breaker now provider none circuits = circuits
reset breaker now provider (some c) circuits = elim c.opened_at [
  | none ↦ circuits
  | some t ↦
      if leb breaker.cooldown_ms (now - t) then put provider closed_circuit circuits else circuits
]

-- `_is_available`
unfoldable pub is_available : CircuitBreakerConfig → ℕ → Text → Circuits → Bool × Circuits
is_available breaker now provider circuits =
    let c = lookup provider circuits in
    (cooled_down breaker now c, reset breaker now provider c circuits)

-- The routes for a protocol.
unfoldable pub matching : ProtocolName → List RouteTarget → List RouteTarget
matching protocol [] = []
matching protocol (r ∷ routes) =
    let rest = matching protocol routes in if contains protocol r.protocols then r ∷ rest else rest

-- The configuration knows the provider of every route (`validate_routes`).
abbrev pub is_enabled : GatewayConfig → Text → Bool
is_enabled config provider = or_else (lookup provider config.providers) false

-- The routes whose provider is enabled and available.
unfoldable pub healthy :
    GatewayConfig → ℕ → List RouteTarget → Circuits → List RouteTarget × Circuits
healthy config now [] circuits = ([], circuits)
healthy config now (r ∷ routes) circuits =
    let (free, c) = is_available config.circuit_breaker now r.provider circuits in
    let passed = is_enabled config r.provider in
    let (rest, c') = healthy config now routes (if passed then c else circuits) in
    (if passed && free then r ∷ rest else rest, c')

unfoldable pub repeat : RouteTarget → ℕ → List RouteTarget → List RouteTarget
repeat r zero rest = rest
repeat r (suc n) rest = r ∷ repeat r n rest

-- `[route for route in available for _ in range(route.weight)]`
unfoldable pub weighted : List RouteTarget → List RouteTarget
unfolding repeat
weighted [] = []
weighted (r ∷ routes) = repeat r r.weight (weighted routes)

unfoldable pub get_elem? : List RouteTarget → ℕ → Option RouteTarget
get_elem? [] i = none
get_elem? (r ∷ routes) zero = some r
get_elem? (r ∷ routes) (suc i) = get_elem? routes i

-- `[route for route in available if route != primary]`
unfoldable pub others : RouteTarget → List RouteTarget → List RouteTarget
others primary [] = []
others primary (r ∷ routes) =
    let rest = others primary routes in if r /= primary then r ∷ rest else rest

-- The primary route goes first. Every weight is at least 1, so there is one.
unfoldable pub lead : Option RouteTarget → List RouteTarget → List RouteTarget
unfolding others
lead none routes = routes
lead (some primary) routes = primary ∷ others primary routes

-- The primary route at a number of the counter.
unfoldable pub primary_at : ℕ → List RouteTarget → Option RouteTarget
unfolding get_elem?
primary_at n choices = get_elem? choices (n % length choices)

pub data RouteError : Type 0 where
  model_not_found protocol_not_supported no_healthy_route : RouteError

pub data Routing : Type 0 where
  routes : List RouteTarget → Routing
  refused : RouteError → Routing

-- The order of the available routes, by the strategy.
unfoldable pub arrange :
    RouteStrategy → Text → List RouteTarget → ModelRouter → Routing × ModelRouter
unfolding primary_at weighted lead
arrange RouteStrategy.priority model available router = (Routing.routes available, router)
arrange RouteStrategy.weighted_round_robin model available router =
    let n = or_else (lookup model router.counters) 0 in
    (
      Routing.routes (lead (primary_at n (weighted available)) available),
      record router { counters = put model (n + 1) router.counters },
    )

-- The candidates of a model that is configured.
unfoldable pub choose :
    GatewayConfig → ℕ → Text → ProtocolName → ModelRouteConfig → ModelRouter → Routing × ModelRouter
unfolding arrange
choose config now model protocol route_config router =
    let matches = matching protocol route_config.routes in
    let (available, circuits) = healthy config now matches router.circuits in
    let router' = record router { circuits = circuits } in
    if matches == []
    then (Routing.refused RouteError.protocol_not_supported, router)
    else if available == []
    then (Routing.refused RouteError.no_healthy_route, router')
    else arrange route_config.strategy model available router'

-- The branch on the configuration of the model.
unfoldable pub route_with :
    GatewayConfig
    → ℕ
    → Text
    → ProtocolName
    → ModelRouter
    → Option ModelRouteConfig
    → Routing × ModelRouter
unfolding choose
route_with config now model protocol router none =
    (Routing.refused RouteError.model_not_found, router)
route_with config now model protocol router (some rc) = choose config now model protocol rc router

-- `candidates`
unfoldable pub candidates :
    GatewayConfig → ℕ → Text → ProtocolName → ModelRouter → Routing × ModelRouter
unfolding route_with
candidates config now model protocol router =
    route_with config now model protocol router (lookup model config.models)
