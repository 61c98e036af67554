-- ===== src/Tests/Gateway.antt =====
-- The theorems on the gateway, applied: a limiter of 7 requests in a minute, and two providers.
use my_ai_agent_fullstack_tr.Base.{
  Bool, List, List-discrete, Option, Pair-discrete, [], arith, false, if◌then◌else◌, leb, length,
  list_eq, ltb, nat_eq, none, option_eq, pair_eq, refl, some, true, ℕ, ℕ_discrete, ◌*◌, ◌+◌, ◌-◌,
  ◌==◌, ◌∷◌, ◌≡◌, ◌≢◌, ◌≤◌,
}
use my_ai_agent_fullstack_tr.Domain.Models.{Text}
use my_ai_agent_fullstack_tr.Gateway.{
  GatewayConfig, ProtocolName, RateLimitConfig, RouteStrategy, RouteTarget, protocol_name_eq,
  route_target_eq,
}
use my_ai_agent_fullstack_tr.Gateway.Chunks.{
  Opening, Output, StreamEnd, StreamServices, StreamState, finish_stream, pass_chunk, pass_chunks,
}
use my_ai_agent_fullstack_tr.Gateway.Complete.{
  Reply, Role, Services, UnifiedRequest, complete, consume_attempt, exhausted,
}
use my_ai_agent_fullstack_tr.Gateway.Complete.Outcome.{Finished, complete-Finished}
use my_ai_agent_fullstack_tr.Gateway.RateLimit.{
  Admission, Buckets, admit, check, one_token, refilled, retry_after,
}
use my_ai_agent_fullstack_tr.Gateway.RateLimit.Window.{
  Arrival, Ascending, admissions, admissions_bound, admitted_after,
}
use my_ai_agent_fullstack_tr.Gateway.Router.{
  ModelRouter, candidates, is_available, record_failure, weighted,
}
use my_ai_agent_fullstack_tr.Gateway.Router.Breaker.{fail_at, fail_at-is_available}
use my_ai_agent_fullstack_tr.Gateway.Router.Choice.{Explains, candidates-Explains}
use my_ai_agent_fullstack_tr.Gateway.Router.Rotation.{count, first_tries, first_tries_fair}
use my_ai_agent_fullstack_tr.Gateway.Stream.{
  after_break, after_chunks, after_opening, after_stream_route, generate, retry_or_leave,
  stream_route, stream_routes, stream_start,
}
use my_ai_agent_fullstack_tr.Gateway.Stream.Ending.{Delivery}
use my_ai_agent_fullstack_tr.Gateway.Stream.Lines.{joined, note_whole, pass_chunks_whole, untimed}
use my_ai_agent_fullstack_tr.Storage.Table.{lookup, put}

abbrev slow_limit : RateLimitConfig
slow_limit = record { enabled = true; requests_per_minute = 7; burst = 2 }

abbrev alice : Text
alice = 65 ∷ []

abbrev gpt : Text
gpt = 71 ∷ []

abbrev ask_at : ℕ → Arrival
ask_at t = record { at = t; identity = alice; model = gpt }

abbrev three_requests : List Arrival
three_requests = ask_at 1000 ∷ ask_at 1500 ∷ ask_at 2000 ∷ []

admissions_bound_example :
    one_token * admissions slow_limit (alice, gpt) three_requests []
    ≤ one_token * 2 + 7 * (2000 - 1000)
admissions_bound_example =
    admissions_bound slow_limit (alice, gpt) three_requests 1000 2000 [] refl
      (Ascending.next (omega arith) (
        Ascending.next (omega arith) (Ascending.next (omega arith) (Ascending.done (omega arith)))))

-- Both tokens are gone.
abbrev drained : Buckets
drained = ((alice, gpt), record { level = 0; updated_at = 0 }) ∷ []

-- The limiter names 8 seconds.
wait_8 : check slow_limit 0 alice gpt drained ≡ (Admission.limited 8, drained)
unfolding check admit refilled retry_after lookup put ℕ_discrete List-discrete Pair-discrete
wait_8 = refl

-- But after 8 seconds it limits the request again.
too_early : (check slow_limit 8000 alice gpt drained).0 ≡ Admission.limited 1
unfolding check admit refilled retry_after lookup put ℕ_discrete List-discrete Pair-discrete
too_early = refl

admitted_after_example : (check slow_limit 9000 alice gpt drained).0 ≡ Admission.admitted
admitted_after_example =
    admitted_after slow_limit 0 9000 8 alice gpt drained drained refl (omega arith) (omega arith)
      wait_8 (omega arith)

abbrev provider_a : Text
provider_a = 97 ∷ []

abbrev provider_b : Text
provider_b = 98 ∷ []

abbrev route_a : RouteTarget
route_a = record {
  provider = provider_a;
  model = 1 ∷ [];
  weight = 2;
  protocols = ProtocolName.chat ∷ [];
}

abbrev route_b : RouteTarget
route_b = record {
  provider = provider_b;
  model = 2 ∷ [];
  weight = 1;
  protocols = ProtocolName.chat ∷ ProtocolName.messages ∷ [];
}

abbrev two_routes : GatewayConfig
two_routes = record {
  structured_output_retries = 1;
  retry = record { max_retries_per_request = 3; max_retries_per_route = 1 };
  circuit_breaker = record { failure_threshold = 2; cooldown_ms = 30000 };
  providers = (provider_a, true) ∷ (provider_b, true) ∷ [];
  models =
      (
        gpt,
        record { strategy = RouteStrategy.weighted_round_robin; routes = route_a ∷ route_b ∷ [] },
      )
      ∷ [];
}

abbrev fresh_router : ModelRouter
fresh_router = record { circuits = []; counters = [] }

candidates-Explains_example :
    Explains two_routes 5 gpt ProtocolName.chat []
      (candidates two_routes 5 gpt ProtocolName.chat fresh_router).0
candidates-Explains_example = candidates-Explains two_routes 5 gpt ProtocolName.chat fresh_router

fail_at-is_available_example :
    let opened =
      record_failure two_routes.circuit_breaker 400 provider_a
        (fail_at two_routes.circuit_breaker provider_a (300 ∷ []) fresh_router) in
    ((is_available two_routes.circuit_breaker 500 provider_a opened.circuits).0
      ≡ leb 30000 (500 - 400))
    × ((q : Text)
        → q ≢ provider_a
        → (is_available two_routes.circuit_breaker 500 q opened.circuits).0
          ≡ (is_available two_routes.circuit_breaker 500 q fresh_router.circuits).0)
fail_at-is_available_example =
    fail_at-is_available two_routes.circuit_breaker provider_a (300 ∷ []) 400 fresh_router
      (omega arith) 500

first_tries_fair_example :
    first_tries route_a
      (length (weighted (route_a ∷ route_b ∷ [])))
      gpt
      (route_a ∷ route_b ∷ [])
      fresh_router
    ≡ 2 * count route_a (route_a ∷ route_b ∷ [])
unfolding weighted
first_tries_fair_example =
    first_tries_fair route_a gpt (route_a ∷ route_b ∷ []) fresh_router (omega arith)

-- The first two attempts fail, the third answers.
abbrev flaky_upstream : Services
flaky_upstream = record {
  request_json = λ attempt target request.
      if ltb attempt 2 then Reply.upstream_error true else Reply.response 42;
  content_text = λ raw. raw ∷ [];
  is_valid_content = λ content schema. true;
  repair_instruction = λ content schema. content;
  asked_at = λ n. 0;
  failed_at = λ n. n;
}

abbrev question : UnifiedRequest
question = record { model = gpt; messages = (Role.user, 63 ∷ []) ∷ []; response_format = some 5 }

complete-Finished_example :
    Finished two_routes flaky_upstream
      (some 5)
      (complete 2 6 two_routes flaky_upstream ProtocolName.chat question fresh_router)
complete-Finished_example =
    complete-Finished two_routes flaky_upstream 2 6 ProtocolName.chat question fresh_router
      (omega arith) (omega arith)

-- The first stream breaks off before its first byte, the second one comes in two chunks.
abbrev two_streams : StreamServices
two_streams = record {
  parse_raises = λ line. false;
  open_stream = λ attempt target request.
      if attempt == 0
      then Opening.opened ([] ∷ []) (StreamEnd.broken true)
      else Opening.opened ((65 ∷ 10 ∷ 66 ∷ []) ∷ (67 ∷ []) ∷ []) StreamEnd.complete_end;
  is_disconnected = λ attempt i. false;
  parse_stream_line = λ line. some (record {
    is_text_delta = true;
    event_usage =
        some (record { input_tokens = length line; output_tokens = 2; cached_tokens = 0 });
  });
  is_blank = λ line. length line == 0;
  elapsed_ms = λ attempt i. i;
  flushed_ms = λ attempt. 9;
  failure_at = λ n. n;
}

abbrev two_chunks : List Text
two_chunks = (65 ∷ 10 ∷ 66 ∷ []) ∷ (67 ∷ []) ∷ []

after_two : StreamState
unfolding pass_chunks
after_two = (pass_chunks two_streams 1 0 two_chunks (stream_start two_routes fresh_router)).1

pass_chunks_whole_example :
    untimed two_streams.parse_stream_line (finish_stream two_streams 1 route_a after_two).reading
    ≡ note_whole two_streams
        (joined two_chunks)
        (untimed two_streams.parse_stream_line (stream_start two_routes fresh_router).reading)
unfolding after_two pass_chunks ℕ_discrete
pass_chunks_whole_example =
    pass_chunks_whole two_streams 1 route_a two_chunks (stream_start two_routes fresh_router)
      after_two refl refl

-- The second stream is delivered as it came.
generated_output : Option (Bool × StreamState) → List Output
generated_output none = []
generated_output (some (b, s)) = s.output

second_stream :
    generated_output
      (generate 6 two_routes two_streams question (route_a ∷ route_b ∷ []) fresh_router)
    ≡ Output.bytes (65 ∷ 10 ∷ 66 ∷ []) ∷ Output.bytes (67 ∷ []) ∷ []
unfolding generated_output generate stream_routes stream_route consume_attempt exhausted
    after_opening pass_chunks pass_chunk after_chunks after_break retry_or_leave finish_stream
    after_stream_route ℕ_discrete
second_stream = refl

-- A line that cannot be parsed ends the stream: its chunk is not passed on, and no error follows.
malformed_line :
    generated_output (
      generate 6 two_routes
        (record two_streams { parse_raises = λ line. true })
        question
        (route_a ∷ route_b ∷ [])
        fresh_router)
    ≡ []
unfolding generated_output generate stream_routes stream_route consume_attempt exhausted
    after_opening pass_chunks pass_chunk after_chunks after_break retry_or_leave finish_stream
    after_stream_route ℕ_discrete
malformed_line = refl
