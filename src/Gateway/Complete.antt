-- ===== src/Gateway/Complete.antt =====
-- `GatewayService.complete` of week01_llm-gateway/app/services/gateway.py: retries on a route, the
-- routes in their order, and the repair of structured output, all on one budget of attempts. Its usage
-- records, the prompts and the times are not modelled, and the adapter is taken to accept every
-- request and response.
pub mod Budget
pub mod Routes
pub mod Outcome
use my_ai_agent_fullstack_tr.Base.{
  Bool, List, Option, [], contains, false, if◌then◌else◌, leb, length, list_eq, ltb, nat_eq, none,
  not, option_eq, pair_eq, some, suc, true, zero, ℕ, ◌&&◌, ◌++◌, ◌+◌, ◌-◌, ◌||◌, ◌∷◌,
}
use my_ai_agent_fullstack_tr.Domain.Models.{Text}
use my_ai_agent_fullstack_tr.Gateway.{
  GatewayConfig, ProtocolName, RouteTarget, protocol_name_eq, route_target_eq,
}
use my_ai_agent_fullstack_tr.Gateway.Router.{
  ModelRouter, RouteError, Routing, candidates, record_failure, record_success,
}

-- `class RetryBudget`
pub record RetryBudget : Type 0 where
  pub max_retries : ℕ
  pub attempts : ℕ

unfoldable pub exhausted : RetryBudget → Bool
exhausted b = leb (b.max_retries + 1) b.attempts

unfoldable pub consume_attempt : RetryBudget → Bool × RetryBudget
unfolding exhausted
consume_attempt b =
    if exhausted b then (false, b) else (true, record b { attempts = b.attempts + 1 })

-- A message is its role and its content.
pub data Role : Type 0 where
  system user assistant : Role

-- `class UnifiedRequest`, as far as `complete` reads it: `response_format` is its schema.
pub record UnifiedRequest : Type 0 where
  pub model : Text
  pub messages : List (Role × Text)
  pub response_format : Option ℕ

-- `UpstreamError`, or the raw response. Other errors of httpx, which end a call by their exception, are
-- not modelled here.
pub data Reply : Type 0 where
  response : ℕ → Reply
  upstream_error : Bool → Reply

-- What `complete` calls: the upstream client, which answers each attempt in its own way, the adapter
-- of the protocol, the validation of structured output, and the clock at a call of `candidates` and
-- at a failure.
pub record Services : Type 0 where
  pub request_json : ℕ → RouteTarget → UnifiedRequest → Reply
  pub content_text : ℕ → Text
  pub is_valid_content : Text → ℕ → Bool
  pub repair_instruction : Text → ℕ → Text
  pub asked_at : ℕ → ℕ
  pub failed_at : ℕ → ℕ

-- `class CallMetrics`: the counters, and `attempted_routes` of its metadata.
pub record CallMetrics : Type 0 where
  pub retries : ℕ
  pub fallbacks : ℕ
  pub repair_retries : ℕ
  pub attempted_routes : List (Text × Text)

-- The local variables that change, and the router. `last_error` says whether there was one.
pub record CallState : Type 0 where
  pub retry_budget : RetryBudget
  pub metrics : CallMetrics
  pub last_error : Bool
  pub router : ModelRouter

-- `_record_attempted_route`
unfoldable pub record_attempted_route : RouteTarget → CallMetrics → CallMetrics
record_attempted_route target m =
    let entry : Text × Text = (target.provider, target.model) in
    if contains entry m.attempted_routes
    then m
    else record m { attempted_routes = m.attempted_routes ++ entry ∷ [] }

-- The state after an attempt that failed, and after one that succeeded.
abbrev pub after_failure : GatewayConfig → Services → RouteTarget → CallState → CallState
after_failure config services target s = record s {
  last_error = true;
  router =
      record_failure config.circuit_breaker (services.failed_at s.retry_budget.attempts)
        target.provider s.router;
}

abbrev after_success : ℕ → RouteTarget → CallState → CallState
after_success route_index target s = record s {
  router = record_success target.provider s.router;
  metrics = record s.metrics { fallbacks = s.metrics.fallbacks + route_index };
}

abbrev pub counting_retry : CallState → CallState
counting_retry s = record s { metrics = record s.metrics { retries = s.metrics.retries + 1 } }

-- A loop that may run out of fuel: `none` says that it did.
abbrev pub Loop : Type 0
Loop = Option (Option ℕ × CallState)

-- What follows an attempt: the response, a retry (`again`), or the end of the route.
unfoldable pub after_reply :
    GatewayConfig → Services → RouteTarget → ℕ → ℕ → CallState → Reply → Loop → Loop
after_reply config services target route_index tries s (Reply.response raw) again =
    some (some raw, after_success route_index target s)
after_reply config services target route_index tries s (Reply.upstream_error retryable) again =
    if retryable && ltb tries config.retry.max_retries_per_route && not (exhausted s.retry_budget)
    then again
    else some (none, after_failure config services target s)

-- `while True:` on one route, with `tries` retries made.
unfoldable pub try_route :
    ℕ → GatewayConfig → Services → UnifiedRequest → RouteTarget → ℕ → ℕ → CallState → Loop
unfolding consume_attempt after_reply
try_route zero config services request target route_index tries s = none
try_route (suc fuel) config services request target route_index tries s =
    let (granted, b) = consume_attempt s.retry_budget in
    let s1 = record s { retry_budget = b } in
    let again =
      try_route fuel config services request target route_index (tries + 1)
        (counting_retry (after_failure config services target s1)) in
    if not granted
    then some (none, s)
    else after_reply config services target route_index tries s1
        (services.request_json s.retry_budget.attempts target request) again

-- `for route_index, target in enumerate(candidates)`; `rest` is what the loop does with the next.
unfoldable pub after_route : Loop → (CallState → Loop) → Loop
after_route none rest = none
after_route (some (none, s)) rest = rest s
after_route (some (some raw, s)) rest = some (some raw, s)

unfoldable pub try_routes :
    ℕ → GatewayConfig → Services → UnifiedRequest → ℕ → List RouteTarget → CallState → Loop
unfolding try_route after_route
try_routes fuel config services request route_index [] s = some (none, s)
try_routes fuel config services request route_index (target ∷ targets) s =
    let s1 = record s { metrics = record_attempted_route target s.metrics } in
    if exhausted s.retry_budget
    then some (none, s)
    else after_route (try_route fuel config services request target route_index 0 s1)
        (λ s2. try_routes fuel config services request (route_index + 1) targets s2)

-- How a call ends: the response, an error of the router, `_final_error` (with the last error, or
-- without one), or a `StructuredOutputError`.
pub data Completion : Type 0 where
  completed : ℕ → Completion
  unroutable : RouteError → Completion
  upstream_failed : Bool → Completion
  invalid_output : Completion

-- `_request_with_repair`
unfoldable pub request_with_repair : Services → ℕ → ℕ → UnifiedRequest → UnifiedRequest
request_with_repair services raw schema request =
    let previous = services.content_text raw in
    record request {
      messages =
          request.messages
          ++ (Role.assistant, previous)
            ∷ (Role.user, services.repair_instruction previous schema)
            ∷ [];
    }

-- The metrics of a call whose routes all failed.
abbrev pub without_response : List RouteTarget → CallState → CallState
without_response targets s = record s {
  metrics = record s.metrics { fallbacks = s.metrics.fallbacks + (length targets - 1) };
}

-- The next round, after output that does not fit its schema.
abbrev pub repairing : CallState → CallState
repairing s = record s {
  last_error = false;
  metrics = record s.metrics { repair_retries = s.metrics.repair_retries + 1 };
}

-- What follows a response, by the schema of the request; `again` is the next round of the loop.
unfoldable pub after_response :
    GatewayConfig
    → Services
    → UnifiedRequest
    → ℕ
    → ℕ
    → CallState
    → (UnifiedRequest → CallState → Option (Completion × CallState))
    → Option ℕ
    → Option (Completion × CallState)
unfolding request_with_repair
after_response config services request structured_attempt raw s again none =
    some (Completion.completed raw, s)
after_response config services request structured_attempt raw s again (some schema) =
    if services.is_valid_content (services.content_text raw) schema
    then some (Completion.completed raw, s)
    else if leb config.structured_output_retries structured_attempt || exhausted s.retry_budget
    then some (Completion.invalid_output, s)
    else again (request_with_repair services raw schema request) (repairing s)

-- What follows the routes.
unfoldable pub after_routes :
    GatewayConfig
    → Services
    → UnifiedRequest
    → ℕ
    → List RouteTarget
    → Loop
    → (UnifiedRequest → CallState → Option (Completion × CallState))
    → Option (Completion × CallState)
unfolding after_response
after_routes config services request structured_attempt targets none again = none
after_routes config services request structured_attempt targets (some (none, s)) again =
    some (Completion.upstream_failed s.last_error, without_response targets s)
after_routes config services request structured_attempt targets (some (some raw, s)) again =
    after_response config services request structured_attempt raw s again request.response_format

-- What a round does with the answer of the router.
unfoldable pub after_candidates :
    ℕ
    → GatewayConfig
    → Services
    → UnifiedRequest
    → ℕ
    → CallState
    → Routing
    → (UnifiedRequest → CallState → Option (Completion × CallState))
    → Option (Completion × CallState)
unfolding try_routes after_routes
after_candidates fuel config services request structured_attempt s (Routing.refused e) again =
    some (Completion.unroutable e, s)
after_candidates fuel config services request structured_attempt s (Routing.routes targets) again =
    after_routes config services request structured_attempt targets
      (try_routes fuel config services request 0 targets s) again

-- The outer `while True:`
unfoldable pub rounds :
    ℕ
    → ℕ
    → GatewayConfig
    → Services
    → ProtocolName
    → UnifiedRequest
    → ℕ
    → CallState
    → Option (Completion × CallState)
unfolding after_candidates
rounds zero fuel config services protocol request structured_attempt s = none
rounds (suc n) fuel config services protocol request structured_attempt s =
    let (routing, router) =
      candidates config (services.asked_at structured_attempt) request.model protocol s.router in
    after_candidates fuel config services request structured_attempt (record s { router = router })
      routing (λ r s'. rounds n fuel config services protocol r (structured_attempt + 1) s')

-- `complete`
unfoldable pub complete :
    ℕ
    → ℕ
    → GatewayConfig
    → Services
    → ProtocolName
    → UnifiedRequest
    → ModelRouter
    → Option (Completion × CallState)
unfolding rounds
complete n fuel config services protocol request router =
    rounds n fuel config services protocol request 0 (record {
      retry_budget = record { max_retries = config.retry.max_retries_per_request; attempts = 0 };
      metrics = record { retries = 0; fallbacks = 0; repair_retries = 0; attempted_routes = [] };
      last_error = false;
      router = router;
    })
