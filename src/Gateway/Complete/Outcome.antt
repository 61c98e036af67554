-- ===== src/Gateway/Complete/Outcome.antt =====
-- A call of gateway.py ends, within its bounds, and what it completes with has been answered and fits.
use my_ai_agent_fullstack_tr.Base.{
  Bool-cases, List, Option, arith, inl, inr, leb, list_eq, nat_eq, none, option_eq, pair_eq, refl,
  some, subst, suc, true, zero, ℕ, ◌+◌, ◌<◌, ◌||◌, ◌∙◌, ◌≡◌, ◌≢◌, ◌≤◌,
}
use my_ai_agent_fullstack_tr.Gateway.{
  GatewayConfig, ProtocolName, RouteTarget, protocol_name_eq, route_target_eq,
}
use my_ai_agent_fullstack_tr.Gateway.Complete.{
  CallState, Completion, Loop, Services, UnifiedRequest, after_candidates, after_response,
  after_routes, complete, exhausted, repairing, request_with_repair, rounds, without_response,
}
use my_ai_agent_fullstack_tr.Gateway.Complete.Budget.{Answered, Ended, Progress}
use my_ai_agent_fullstack_tr.Gateway.Complete.Routes.{try_routes-Ended}
use my_ai_agent_fullstack_tr.Gateway.Router.{ModelRouter, Routing, candidates}

-- The call has ended, after a number of attempts and of repairs.
pub record Finished (config : GatewayConfig) (services : Services) (format : Option ℕ)
    (l : Option (Completion × CallState)) : Type 0 where
  pub completion : Completion
  pub after : CallState
  pub ended : l ≡ some (completion, after)
  pub few_attempts : after.retry_budget.attempts ≤ config.retry.max_retries_per_request + 1
  pub few_retries : after.metrics.retries ≤ after.retry_budget.attempts
  pub few_repairs : after.metrics.repair_retries ≤ config.structured_output_retries
  pub answered :
      (raw : ℕ)
      → completion ≡ Completion.completed raw
      → (request : UnifiedRequest) × (targets : List RouteTarget) × Answered services request
          targets raw after
  pub fits :
      (raw schema : ℕ)
      → completion ≡ Completion.completed raw
      → format ≡ some schema
      → services.is_valid_content (services.content_text raw) schema ≡ true

-- What a round starts from.
record Ready (config : GatewayConfig) (structured_attempt : ℕ) (s : CallState) : Type 0 where
  same_limit : s.retry_budget.max_retries ≡ config.retry.max_retries_per_request
  bounded : s.retry_budget.attempts ≤ config.retry.max_retries_per_request + 1
  retried : s.metrics.retries ≤ s.retry_budget.attempts
  repairs : s.metrics.repair_retries ≡ structured_attempt
  allowed : structured_attempt ≤ config.structured_output_retries

same_raw : (raw other : ℕ) → Completion.completed raw ≡ Completion.completed other → raw ≡ other
same_raw raw other e = ground (arith, e)

module _ (config : GatewayConfig) (services : Services) where
  -- A round that ends without a response.
  ends_without :
      (format : Option ℕ) (k : ℕ) (c : Completion) (s : CallState)
      → Ready config k s
      → ((raw : ℕ) → c ≢ Completion.completed raw)
      → Finished config services format (some (c, s))
  ends_without format k c s r other = record {
    completion = c;
    after = s;
    ended = refl;
    few_attempts = r.bounded;
    few_retries = r.retried;
    few_repairs = omega (arith, r.repairs, r.allowed);
    answered = λ raw e. absurd (other raw e);
    fits = λ raw schema e f. absurd (other raw e);
  }

  -- A round that ends with a response.
  ends_with_response :
      (format : Option ℕ) (request : UnifiedRequest) (targets : List RouteTarget) (k raw : ℕ)
      (s : CallState)
      → Ready config k s
      → Answered services request targets raw s
      → ((schema : ℕ)
          → format ≡ some schema
          → services.is_valid_content (services.content_text raw) schema ≡ true)
      → Finished config services format (some (Completion.completed raw, s))
  ends_with_response format request targets k raw s r a valid = record {
    completion = Completion.completed raw;
    after = s;
    ended = refl;
    few_attempts = r.bounded;
    few_retries = r.retried;
    few_repairs = omega (arith, r.repairs, r.allowed);
    answered = λ other e. (
      request,
      targets,
      subst (λ n. Answered services request targets n s) (same_raw raw other e) a,
    );
    fits = λ other schema e f.
        subst (λ n. services.is_valid_content (services.content_text n) schema ≡ true)
          (same_raw raw other e) (valid schema f);
  }

  Ready-Progress :
      (k : ℕ) (s s' : CallState)
      → Ready config k s
      → Progress config.retry.max_retries_per_request s s'
      → Ready config k s'
  Ready-Progress k s s' r p = record {
    same_limit = p.same_limit;
    bounded = p.bounded;
    retried = omega (arith, p.retried, r.retried);
    repairs = p.same_repairs ∙ r.repairs;
    allowed = r.allowed;
  }

  after_response-Finished :
      (request : UnifiedRequest) (k raw : ℕ) (targets : List RouteTarget) (s : CallState)
      (again : UnifiedRequest → CallState → Option (Completion × CallState)) (format : Option ℕ)
      → request.response_format ≡ format
      → Ready config k s
      → Answered services request targets raw s
      → ((r : UnifiedRequest) (s' : CallState)
          → r.response_format ≡ format
          → k < config.structured_output_retries
          → Ready config (k + 1) s'
          → Finished config services format (again r s'))
      → Finished config services format
          (after_response config services request k raw s again format)
  unfolding after_response request_with_repair
  after_response-Finished request k raw targets s again none f r a next =
      ends_with_response none request targets k raw s r a λ schema g. cc
  after_response-Finished request k raw targets s again (some schema) f r a next =
      elim (Bool-cases (services.is_valid_content (services.content_text raw) schema)) [
        | inl valid ↦ rw (valid) (
            ends_with_response (some schema) request targets k raw s r a λ other g.
              subst (λ n. services.is_valid_content (services.content_text raw) n ≡ true)
                (ground (arith, g)) valid)
        | inr invalid ↦
            elim (Bool-cases (leb config.structured_output_retries k || exhausted s.retry_budget)) [
              | inl no_more ↦
                  rw (invalid, no_more)
                    (ends_without (some schema) k Completion.invalid_output s r λ other same. cc)
              | inr more ↦
                  rw (invalid, more)
                    (next (request_with_repair services raw schema request) (repairing s) f
                      (ground (arith, more))
                      (record {
                        same_limit = r.same_limit;
                        bounded = r.bounded;
                        retried = r.retried;
                        repairs = omega (arith, r.repairs);
                        allowed = ground (arith, more);
                      }))
            ]
      ]

  -- What follows the routes of a round, if the next round ends.
  after_routes-Finished :
      (request : UnifiedRequest) (k : ℕ) (targets : List RouteTarget) (s : CallState) (l : Loop)
      (again : UnifiedRequest → CallState → Option (Completion × CallState))
      → Ready config k s
      → Ended services request targets config.retry.max_retries_per_request s l
      → ((r : UnifiedRequest) (s' : CallState)
          → r.response_format ≡ request.response_format
          → k < config.structured_output_retries
          → Ready config (k + 1) s'
          → Finished config services request.response_format (again r s'))
      → Finished config services request.response_format
          (after_routes config services request k targets l again)
  unfolding after_routes
  after_routes-Finished request k targets s l again r x next = rw (x.ended) (go x.response refl)
    where
      ready : Ready config k x.after
      ready = Ready-Progress k s x.after r x.progress

      go :
          (o : Option ℕ)
          → x.response ≡ o
          → Finished config services request.response_format
              (after_routes config services request k targets (some (x.response, x.after)) again)
      go none e = rw (e) (
          ends_without request.response_format k _ (without_response targets x.after)
            (record {
              same_limit = ready.same_limit;
              bounded = ready.bounded;
              retried = ready.retried;
              repairs = ready.repairs;
              allowed = ready.allowed;
            })
            λ raw same. cc)
      go (some raw) e = rw (e) (
          after_response-Finished request k raw targets x.after again request.response_format refl
            ready (x.answered raw e) next)

  after_candidates-Finished :
      (fuel : ℕ) (request : UnifiedRequest) (k : ℕ) (s : CallState) (routing : Routing)
      (again : UnifiedRequest → CallState → Option (Completion × CallState))
      → config.retry.max_retries_per_request + 1 < fuel
      → Ready config k s
      → ((r : UnifiedRequest) (s' : CallState)
          → r.response_format ≡ request.response_format
          → k < config.structured_output_retries
          → Ready config (k + 1) s'
          → Finished config services request.response_format (again r s'))
      → Finished config services request.response_format
          (after_candidates fuel config services request k s routing again)
  unfolding after_candidates
  after_candidates-Finished fuel request k s (Routing.refused e) again enough r next =
      ends_without request.response_format k (Completion.unroutable e) s r λ raw same. cc
  after_candidates-Finished fuel request k s (Routing.routes targets) again enough r next =
      after_routes-Finished request k targets s _ again r
        (try_routes-Ended config services request config.retry.max_retries_per_request fuel targets
          0 s r.same_limit r.bounded enough)
        next

  rounds-Finished :
      (n fuel : ℕ) (protocol : ProtocolName) (request : UnifiedRequest) (k : ℕ) (s : CallState)
      → config.structured_output_retries < n + k
      → config.retry.max_retries_per_request + 1 < fuel
      → Ready config k s
      → Finished config services request.response_format
          (rounds n fuel config services protocol request k s)
  unfolding rounds
  rounds-Finished zero fuel protocol request k s more enough r =
      absurd (omega (arith, more, r.allowed))
  rounds-Finished (suc n) fuel protocol request k s more enough r =
      let (routing, router) =
        candidates config (services.asked_at k) request.model protocol s.router in
      (after_candidates-Finished fuel request k (record s { router = router }) routing _ enough
        (record {
          same_limit = r.same_limit;
          bounded = r.bounded;
          retried = r.retried;
          repairs = r.repairs;
          allowed = r.allowed;
        })
        λ r' s' same few ready.
          subst
            (λ o. Finished config services o (rounds n fuel config services protocol r' (k + 1) s'))
            same (rounds-Finished n fuel protocol r' (k + 1) s' (omega (arith, more)) enough ready))

  -- A call ends, whatever the upstream answers: fuel for one round more than the repairs that are
  -- allowed, and for the attempts of a request and one, is enough. The upstream has been asked at most
  -- one time more than a request may retry, there were no more retries than attempts, and no more
  -- repairs than allowed. If the call completes, a route has answered its last attempt with what it
  -- returns, and that fits the schema, if the request has one.
  pub complete-Finished :
      (n fuel : ℕ) (protocol : ProtocolName) (request : UnifiedRequest) (router : ModelRouter)
      → config.structured_output_retries < n
      → config.retry.max_retries_per_request + 1 < fuel
      → Finished config services request.response_format
          (complete n fuel config services protocol request router)
  unfolding complete
  complete-Finished n fuel protocol request router more enough =
      rounds-Finished n fuel protocol request 0 _ (omega (arith, more)) enough (record {
        same_limit = refl;
        bounded = omega arith;
        retried = omega arith;
        repairs = refl;
        allowed = omega arith;
      })
