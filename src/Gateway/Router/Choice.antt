-- ===== src/Gateway/Router/Choice.antt =====
-- What `candidates` of router.py answers.
use my_ai_agent_fullstack_tr.Base.{
  Bool, Bool-cases, List, Option, [], arith, contains, differs, false, inl, inr, list_eq, nat_eq,
  none, option_eq, or_else, pair_eq, refl, some, true, ℕ, ◌&&◌, ◌==◌, ◌∙◌, ◌≡◌, ◌≢◌,
}
use my_ai_agent_fullstack_tr.Domain.Models.{Text}
use my_ai_agent_fullstack_tr.Gateway.{
  GatewayConfig, ModelRouteConfig, ProtocolName, RouteStrategy, RouteTarget, protocol_name_eq,
  route_target_eq,
}
use my_ai_agent_fullstack_tr.Gateway.Router.{
  Circuits, ModelRouter, RouteError, Routing, arrange, candidates, choose, healthy, is_enabled,
  lead, matching, route_with,
}
use my_ai_agent_fullstack_tr.Gateway.Router.Health.{
  healthy-contains, is_ready, lead-contains, matching-contains,
}
use my_ai_agent_fullstack_tr.Storage.Table.{lookup}

-- A route that can serve the protocol now.
unfoldable pub serves : GatewayConfig → ℕ → ProtocolName → Circuits → RouteTarget → Bool
serves config now protocol circuits r =
    contains protocol r.protocols
    && is_enabled config r.provider
    && is_ready config.circuit_breaker now circuits r.provider

-- What an answer says of the configuration and of the circuits before the call.
unfoldable pub Explains : GatewayConfig → ℕ → Text → ProtocolName → Circuits → Routing → Type 0
Explains config now model protocol circuits (Routing.routes chosen) =
    (route_config : ModelRouteConfig) × (lookup model config.models ≡ some route_config)
    × (chosen ≢ [])
    × ((r : RouteTarget)
        → contains r chosen
          ≡ (contains r route_config.routes && serves config now protocol circuits r))
Explains config now model protocol circuits (Routing.refused RouteError.model_not_found) =
    lookup model config.models ≡ none
Explains config now model protocol circuits (Routing.refused RouteError.protocol_not_supported) =
    (route_config : ModelRouteConfig) × (lookup model config.models ≡ some route_config)
    × ((r : RouteTarget)
        → contains r route_config.routes ≡ true
        → contains protocol r.protocols ≡ false)
Explains config now model protocol circuits (Routing.refused RouteError.no_healthy_route) =
    (route_config : ModelRouteConfig) × (lookup model config.models ≡ some route_config)
    × ((r : RouteTarget)
        → contains r route_config.routes ≡ true
        → serves config now protocol circuits r ≡ false)

matching-healthy :
    (config : GatewayConfig) (now : ℕ) (protocol : ProtocolName) (all : List RouteTarget)
    (circuits : Circuits) (r : RouteTarget)
    → contains r (healthy config now (matching protocol all) circuits).0
      ≡ (contains r all && serves config now protocol circuits r)
unfolding serves
matching-healthy config now protocol all circuits r = ground (
  arith,
  healthy-contains config now (matching protocol all) circuits r,
  matching-contains protocol all r,
)

lead_some :
    (o : Option RouteTarget) (available : List RouteTarget) → available ≢ [] → lead o available ≢ []
unfolding lead
lead_some none available h = h
lead_some (some primary) available h = λ e. cc

arrange-Explains :
    (config : GatewayConfig) (now : ℕ) (model : Text) (protocol : ProtocolName)
    (circuits : Circuits) (route_config : ModelRouteConfig) (router : ModelRouter)
    (strategy : RouteStrategy)
    → lookup model config.models ≡ some route_config
    → let available = (healthy config now (matching protocol route_config.routes) circuits).0 in
      available ≢ []
      → Explains config now model protocol circuits (arrange strategy model available router).0
unfolding Explains arrange
arrange-Explains config now model protocol circuits rc router RouteStrategy.priority f h =
    (rc, f, h, matching-healthy config now protocol rc.routes circuits)
arrange-Explains config now m protocol circuits rc s RouteStrategy.weighted_round_robin f h = (
  rc,
  f,
  lead_some _ _ h,
  λ r.
      lead-contains (or_else (lookup m s.counters) 0) _ r
      ∙ matching-healthy config now protocol rc.routes circuits r,
)

contains_none : (l : List RouteTarget) → l ≡ [] → (r : RouteTarget) → contains r l ≡ false
contains_none l h r = ground (arith, h)

choose-Explains :
    (config : GatewayConfig) (now : ℕ) (model : Text) (protocol : ProtocolName)
    (rc : ModelRouteConfig) (router : ModelRouter)
    → lookup model config.models ≡ some rc
    → Explains config now model protocol router.circuits
        (choose config now model protocol rc router).0
unfolding choose Explains
choose-Explains config now model protocol rc router f =
    let matches = matching protocol rc.routes in
    let (available, circuits) = healthy config now matches router.circuits in
    elim (Bool-cases (matches == [])) [
      | inl e ↦ rw (e) (
        rc,
        f,
        λ r k. ground (
          arith,
          k,
          matching-contains protocol rc.routes r,
          contains_none matches (ground (arith, e)) r,
        ),
      )
      | inr e ↦ elim (Bool-cases (available == [])) [
        | inl none_left ↦
            rw (e, none_left)
              (
                rc,
                f,
                λ r k. ground (
                  arith,
                  k,
                  matching-healthy config now protocol rc.routes router.circuits r,
                  contains_none available (ground (arith, none_left)) r,
                ),
              )
        | inr left ↦
            rw (e, left)
              (arrange-Explains config now model protocol router.circuits rc
                (record router { circuits = circuits }) rc.strategy f (differs available [] left))
      ]
    ]

route_with-Explains :
    (config : GatewayConfig) (now : ℕ) (model : Text) (protocol : ProtocolName)
    (router : ModelRouter) (o : Option ModelRouteConfig)
    → lookup model config.models ≡ o
    → Explains config now model protocol router.circuits
        (route_with config now model protocol router o).0
unfolding route_with Explains
route_with-Explains config now model protocol router none h = h
route_with-Explains config now model protocol router (some rc) h =
    choose-Explains config now model protocol rc router h

-- What `candidates` answers: routes, of which there is one at least, and which are the routes of the
-- model that serve the protocol, of enabled providers whose circuit is closed or has cooled down; or
-- the error that says why there are none: the model is unknown, no route of it serves the protocol,
-- or none of those is available.
pub candidates-Explains :
    (config : GatewayConfig) (now : ℕ) (model : Text) (protocol : ProtocolName)
    (router : ModelRouter)
    → Explains config now model protocol router.circuits
        (candidates config now model protocol router).0
unfolding candidates
candidates-Explains config now model protocol router =
    route_with-Explains config now model protocol router (lookup model config.models) refl
