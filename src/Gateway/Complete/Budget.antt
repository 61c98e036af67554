-- ===== src/Gateway/Complete/Budget.antt =====
-- The attempts on one route of a call in gateway.py end, on the budget of the call.
use my_ai_agent_fullstack_tr.Base.{
  Bool-cases, List, Option, [], ap, arith, contains, false, inl, inr, list_eq, ltb, nat_eq, none,
  not, option_eq, pair_eq, refl, some, suc, true, zero, ℕ, ◌&&◌, ◌+◌, ◌<◌, ◌∙◌, ◌∷◌, ◌≡◌, ◌≤◌,
}
use my_ai_agent_fullstack_tr.Gateway.{GatewayConfig, RouteTarget, route_target_eq}
use my_ai_agent_fullstack_tr.Gateway.Complete.{
  CallState, Loop, Reply, RetryBudget, Services, UnifiedRequest, after_failure, after_reply,
  consume_attempt, counting_retry, exhausted, try_route,
}
use my_ai_agent_fullstack_tr.Gateway.Router.{record_failure, record_success}

-- The numbers of a call between two of its states.
pub record Progress (most : ℕ) (s s' : CallState) : Type 0 where
  pub same_limit : s'.retry_budget.max_retries ≡ most
  pub grows : s.retry_budget.attempts ≤ s'.retry_budget.attempts
  pub bounded : s'.retry_budget.attempts ≤ most + 1
  pub retried :
      s'.metrics.retries + s.retry_budget.attempts ≤ s.metrics.retries + s'.retry_budget.attempts
  pub same_repairs : s'.metrics.repair_retries ≡ s.metrics.repair_retries

-- The response is the answer of one of the routes to the last attempt.
pub record Answered (services : Services) (request : UnifiedRequest) (targets : List RouteTarget)
    (raw : ℕ) (s : CallState) : Type 0 where
  pub attempt : ℕ
  pub by_route : RouteTarget
  pub listed : contains by_route targets ≡ true
  pub replied : services.request_json attempt by_route request ≡ Reply.response raw
  pub is_last : attempt + 1 ≡ s.retry_budget.attempts

-- A loop that has ended.
pub record Ended (services : Services) (request : UnifiedRequest) (targets : List RouteTarget)
    (most : ℕ) (s : CallState) (l : Loop) : Type 0 where
  pub response : Option ℕ
  pub after : CallState
  pub ended : l ≡ some (response, after)
  pub progress : Progress most s after
  pub answered : (raw : ℕ) → response ≡ some raw → Answered services request targets raw after

pub consume_attempt-full : (b : RetryBudget) → exhausted b ≡ true → consume_attempt b ≡ (false, b)
unfolding consume_attempt
consume_attempt-full b h = rw (h) refl

pub consume_attempt-free :
    (b : RetryBudget)
    → exhausted b ≡ false
    → (b.attempts ≤ b.max_retries)
      × (consume_attempt b ≡ (true, record b { attempts = b.attempts + 1 }))
unfolding consume_attempt exhausted
consume_attempt-free b h = (ground (arith, h), rw (h) refl)

module _ (config : GatewayConfig) (services : Services) (request : UnifiedRequest) (m : ℕ) where
  after_reply-Ended :
      (target : RouteTarget) (i tries : ℕ) (s : CallState) (again : Loop) (reply : Reply)
      → s.retry_budget.max_retries ≡ m
      → s.retry_budget.attempts ≤ m
      → services.request_json s.retry_budget.attempts target request ≡ reply
      → let s1 = record s {
        retry_budget = record s.retry_budget { attempts = s.retry_budget.attempts + 1 };
      } in
        (exhausted s1.retry_budget ≡ false → Ended services request (target ∷ []) m s again)
        → Ended services request
            (target ∷ [])
            m
            s
            (after_reply config services target i tries s1 reply again)
  unfolding after_reply record_failure record_success
  after_reply-Ended target i tries s again (Reply.response raw) e left h k = record {
    response = some raw;
    after = _;
    ended = refl;
    progress = record {
      same_limit = e;
      grows = omega arith;
      bounded = omega (arith, left);
      retried = omega arith;
      same_repairs = refl;
    };
    answered = λ r same. record {
      attempt = s.retry_budget.attempts;
      by_route = target;
      listed = ground (arith);
      replied = h ∙ ap Reply.response (ground (arith, same));
      is_last = refl;
    };
  }
  after_reply-Ended target i tries s again (Reply.upstream_error retryable) e left h k =
      let s1 = record s {
        retry_budget = record s.retry_budget { attempts = s.retry_budget.attempts + 1 };
      } in
      elim (Bool-cases (
        retryable
        && ltb tries config.retry.max_retries_per_route
        && not (exhausted s1.retry_budget))) [
          | inl go_on ↦ rw (go_on) (k (ground (arith, go_on)))
          | inr halt ↦ rw (halt) (record {
            response = none;
            after = after_failure config services target s1;
            ended = refl;
            progress = record {
              same_limit = e;
              grows = omega arith;
              bounded = omega (arith, left);
              retried = omega arith;
              same_repairs = refl;
            };
            answered = λ r same. cc;
          })
        ]

  pub unchanged-Ended :
      (targets : List RouteTarget) (s : CallState)
      → s.retry_budget.max_retries ≡ m
      → s.retry_budget.attempts ≤ m + 1
      → Ended services request targets m s (some (none, s))
  unchanged-Ended targets s e few = record {
    response = none;
    after = s;
    ended = refl;
    progress = record {
      same_limit = e;
      grows = omega arith;
      bounded = few;
      retried = omega arith;
      same_repairs = refl;
    };
    answered = λ r same. cc;
  }

  -- An attempt that is tried again, in front of what follows.
  one_more :
      (target : RouteTarget) (s : CallState) (l : Loop)
      → let s1 = record s {
        retry_budget = record s.retry_budget { attempts = s.retry_budget.attempts + 1 };
      } in
        Ended services request
          (target ∷ [])
          m
          (counting_retry (after_failure config services target s1))
          l
        → Ended services request (target ∷ []) m s l
  unfolding record_failure
  one_more target s l x = record {
    response = x.response;
    after = x.after;
    ended = x.ended;
    progress = record {
      same_limit = x.progress.same_limit;
      grows = omega (arith, x.progress.grows);
      bounded = x.progress.bounded;
      retried = omega (arith, x.progress.retried);
      same_repairs = x.progress.same_repairs;
    };
    answered = x.answered;
  }

  pub try_route-Ended :
      (fuel : ℕ) (target : RouteTarget) (i tries : ℕ) (s : CallState)
      → s.retry_budget.max_retries ≡ m
      → s.retry_budget.attempts ≤ m + 1
      → m + 1 < fuel + s.retry_budget.attempts
      → Ended services request
          (target ∷ [])
          m
          s
          (try_route fuel config services request target i tries s)
  unfolding try_route
  try_route-Ended zero target i tries s e few enough = absurd (omega (arith, few, enough))
  try_route-Ended (suc fuel) target i tries s e few enough =
      elim (Bool-cases (exhausted s.retry_budget)) [
        | inl full ↦
            rw (consume_attempt-full s.retry_budget full) (unchanged-Ended (target ∷ []) s e few)
        | inr free ↦
            let (left, taken) = consume_attempt-free s.retry_budget free in
            let s1 = record s {
              retry_budget = record s.retry_budget { attempts = s.retry_budget.attempts + 1 };
            } in
            rw (taken) (
              after_reply-Ended target i tries s _
                (services.request_json s.retry_budget.attempts target request) e
                (omega (arith, left, e)) refl
                λ more. one_more target s _ (
                  try_route-Ended fuel target i (tries + 1)
                    (counting_retry (after_failure config services target s1)) e
                    (omega (arith, left, e)) (omega (arith, enough))))
      ]
