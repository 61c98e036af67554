-- ===== src/Gateway/Stream.antt =====
-- `GatewayService.stream` of week01_llm-gateway/app/services/gateway.py: bytes are passed on as they
-- come, and lines are read from them for the usage. Retries and other routes are tried only before the
-- first byte. An exception that `generate` does not catch ends it without an error event. The adapter
-- is taken to accept every request; the cancellation of the task, the metadata of the usage and the
-- records of usage are not modelled.
pub mod Lines
pub mod Passing
pub mod Ending
pub mod Settled
pub mod Delivery
use my_ai_agent_fullstack_tr.Base.{
  Bool, List, Option, [], false, if◌then◌else◌, list_eq, ltb, nat_eq, none, not, option_eq, pair_eq,
  some, suc, true, zero, ℕ, ◌&&◌, ◌++◌, ◌+◌, ◌∷◌,
}
use my_ai_agent_fullstack_tr.Gateway.{GatewayConfig, RouteTarget, route_target_eq}
use my_ai_agent_fullstack_tr.Gateway.Chunks.{
  Opening, Output, Passage, StreamEnd, StreamServices, StreamState, StreamStatus, escape,
  finish_stream, flush_raises, pass_chunks,
}
use my_ai_agent_fullstack_tr.Gateway.Complete.{UnifiedRequest, consume_attempt, exhausted}
use my_ai_agent_fullstack_tr.Gateway.Router.{ModelRouter, record_failure}

abbrev pub fail_route : GatewayConfig → StreamServices → RouteTarget → StreamState → StreamState
fail_route config services target s = record s {
  router =
      record_failure config.circuit_breaker (services.failure_at s.retry_budget.attempts)
        target.provider s.router;
}

abbrev pub retry_stream : StreamState → StreamState
retry_stream s = record s { retries = s.retries + 1 }

-- The error as an event, and the end.
abbrev pub end_with_error : StreamState → StreamState
end_with_error s = record s {
  status = StreamStatus.error_status;
  output = s.output ++ Output.error_event ∷ Output.done_marker ∷ [];
}

-- Whether `generate` has returned, and its state; `none` when the fuel is used up.
abbrev pub Generation : Type 0
Generation = Option (Bool × StreamState)

-- A failure before the first byte: a retry (`again`), or the end of the route.
unfoldable pub retry_or_leave : GatewayConfig → ℕ → Bool → StreamState → Generation → Generation
retry_or_leave config tries retryable s again =
    if retryable && ltb tries config.retry.max_retries_per_route && not (exhausted s.retry_budget)
    then again
    else some (false, s)

-- A stream that broke off, by whether bytes have been emitted; `again` is a retry.
unfoldable pub after_break : GatewayConfig → ℕ → Bool → Bool → StreamState → Generation → Generation
unfolding retry_or_leave
after_break config tries retryable true s again = some (true, end_with_error s)
after_break config tries retryable false s again = retry_or_leave config tries retryable s again

-- The end of a stream whose chunks have been passed on.
unfoldable pub after_chunks :
    GatewayConfig
    → StreamServices
    → RouteTarget
    → ℕ
    → ℕ
    → StreamEnd
    → StreamState
    → (StreamState → Generation)
    → Generation
unfolding finish_stream after_break
after_chunks config services target attempt tries StreamEnd.complete_end s again =
    if flush_raises services s
    then some (true, escape s)
    else some (true, finish_stream services attempt target s)
after_chunks config services target attempt tries (StreamEnd.broken retryable) s again =
    let s' = fail_route config services target s in
    after_break config tries retryable s.emitted s' (again s')

-- What follows the loop over the chunks; `rest` follows its last one.
abbrev pub after_passage : Passage × StreamState → (StreamState → Generation) → Generation
after_passage (Passage.passed, s) rest = rest s
after_passage (Passage.gone, s) rest = some (true, s)
after_passage (Passage.raised, s) rest = some (true, s)

unfoldable pub after_opening :
    GatewayConfig
    → StreamServices
    → RouteTarget
    → ℕ
    → ℕ
    → Opening
    → StreamState
    → (StreamState → Generation)
    → Generation
unfolding pass_chunks after_chunks retry_or_leave
after_opening config services target attempt tries (Opening.open_error retryable) s again =
    let s' = fail_route config services target s in
    retry_or_leave config tries retryable s' (again s')
after_opening config services target attempt tries Opening.open_raises s again =
    some (true, escape s)
after_opening config services target attempt tries (Opening.opened chunks end) s again =
    after_passage (pass_chunks services attempt 0 chunks s)
      (λ s'. after_chunks config services target attempt tries end s' again)

-- `while True:` on one route.
unfoldable pub stream_route :
    ℕ → GatewayConfig → StreamServices → UnifiedRequest → RouteTarget → ℕ → StreamState → Generation
unfolding after_opening consume_attempt
stream_route zero config services request target tries s = none
stream_route (suc fuel) config services request target tries s =
    let (granted, b) = consume_attempt s.retry_budget in
    let attempt = s.retry_budget.attempts in
    if not granted
    then some (false, s)
    else after_opening config services target attempt tries
        (services.open_stream attempt target request) (record s { retry_budget = b })
        (λ s'. stream_route fuel config services request target (tries + 1) (retry_stream s'))

unfoldable pub after_stream_route : Generation → (StreamState → Generation) → Generation
after_stream_route none rest = none
after_stream_route (some (true, s)) rest = some (true, s)
after_stream_route (some (false, s)) rest = rest s

-- The loop over the routes, and the error when none is left.
unfoldable pub stream_routes :
    ℕ
    → GatewayConfig
    → StreamServices
    → UnifiedRequest
    → List RouteTarget
    → StreamState
    → Generation
unfolding stream_route after_stream_route
stream_routes fuel config services request [] s = some (true, end_with_error s)
stream_routes fuel config services request (target ∷ targets) s =
    if exhausted s.retry_budget
    then some (true, end_with_error s)
    else after_stream_route (stream_route fuel config services request target 0 s)
        (λ s'. stream_routes fuel config services request targets s')

abbrev pub stream_start : GatewayConfig → ModelRouter → StreamState
stream_start config router = record {
  retry_budget = record { max_retries = config.retry.max_retries_per_request; attempts = 0 };
  router = router;
  reading = record {
    tokens = record { input_tokens = 0; output_tokens = 0; cached_tokens = 0 };
    first_token_ms = none;
  };
  parse_buffer = [];
  emitted = false;
  retries = 0;
  status = StreamStatus.open_stream_status;
  output = [];
}

-- `generate`, on the candidates that `stream` has found.
unfoldable pub generate :
    ℕ
    → GatewayConfig
    → StreamServices
    → UnifiedRequest
    → List RouteTarget
    → ModelRouter
    → Generation
unfolding stream_routes
generate fuel config services request targets router =
    stream_routes fuel config services request targets (stream_start config router)
