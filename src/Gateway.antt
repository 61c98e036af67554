-- ===== src/Gateway.antt =====
-- The gateway of week01_llm-gateway/app: its configuration (config.py) and its errors
-- (core/errors.py), as far as the limiter, the router and the calls read them. Instants and delays
-- are in milliseconds.
pub mod RateLimit
pub mod Router
pub mod Complete
pub mod Usage
pub mod Chunks
pub mod Stream
use my_ai_agent_fullstack_tr.Base.{
  Bool, Eq, List, list_eq, nat_eq, option_eq, pair_eq, ℕ, ℕ_discrete,
}
use my_ai_agent_fullstack_tr.Domain.Models.{Text}
use my_ai_agent_fullstack_tr.Storage.Table.{Table}

-- `class RateLimitConfig`
pub record RateLimitConfig : Type 0 where
  pub enabled : Bool
  pub requests_per_minute : ℕ
  pub burst : ℕ

-- `class CircuitBreakerConfig`
pub record CircuitBreakerConfig : Type 0 where
  pub failure_threshold : ℕ
  pub cooldown_ms : ℕ

-- `class RetryConfig`, without the delays and the statuses.
pub record RetryConfig : Type 0 where
  pub max_retries_per_request : ℕ
  pub max_retries_per_route : ℕ

-- The values of `ProtocolName`
pub data ProtocolName : Type 0 where
  chat responses messages : ProtocolName

unfoldable pub ProtocolName-discrete : Discrete ProtocolName
ProtocolName-discrete = hlevel

instance abbrev pub protocol_name_eq : Eq ProtocolName
protocol_name_eq = record { dec = ProtocolName-discrete }

-- `class RouteTarget`; its `api` has been parsed.
pub record RouteTarget : Type 0 where
  pub provider : Text
  pub model : Text
  pub weight : ℕ
  pub protocols : List ProtocolName

unfoldable pub RouteTarget-discrete : Discrete RouteTarget
RouteTarget-discrete = hlevel (ℕ_discrete)

instance abbrev pub route_target_eq : Eq RouteTarget
route_target_eq = record { dec = RouteTarget-discrete }

pub data RouteStrategy : Type 0 where
  priority weighted_round_robin : RouteStrategy

-- `class ModelRouteConfig`
pub record ModelRouteConfig : Type 0 where
  pub strategy : RouteStrategy
  pub routes : List RouteTarget

-- `class GatewayConfig`: the fields that the gateway's core reads, and of a provider whether it is
-- enabled.
pub record GatewayConfig : Type 0 where
  pub structured_output_retries : ℕ
  pub retry : RetryConfig
  pub circuit_breaker : CircuitBreakerConfig
  pub providers : Table Text Bool
  pub models : Table Text ModelRouteConfig
