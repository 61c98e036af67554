-- ===== src/Gateway/Complete/Routes.antt =====
-- The routes of a call in gateway.py, one after the other, end on the budget of its attempts.
use my_ai_agent_fullstack_tr.Base.{
  Bool-cases, List, Option, [], arith, inl, inr, none, refl, some, ℕ, ◌+◌, ◌<◌, ◌∙◌, ◌∷◌, ◌≡◌, ◌≤◌,
}
use my_ai_agent_fullstack_tr.Gateway.{GatewayConfig, RouteTarget}
use my_ai_agent_fullstack_tr.Gateway.Complete.{
  CallMetrics, CallState, Loop, Services, UnifiedRequest, after_route, exhausted,
  record_attempted_route, try_routes,
}
use my_ai_agent_fullstack_tr.Gateway.Complete.Budget.{
  Answered, Ended, Progress, try_route-Ended, unchanged-Ended,
}

Progress-trans :
    (m : ℕ) (s s' s'' : CallState) → Progress m s s' → Progress m s' s'' → Progress m s s''
Progress-trans m s s' s'' p q = record {
  same_limit = q.same_limit;
  grows = omega (arith, p.grows, q.grows);
  bounded = q.bounded;
  retried = omega (arith, p.retried, q.retried);
  same_repairs = q.same_repairs ∙ p.same_repairs;
}

record_attempted_route-counters :
    (target : RouteTarget) (c : CallMetrics)
    → ((record_attempted_route target c).retries ≡ c.retries)
      × ((record_attempted_route target c).repair_retries ≡ c.repair_retries)
unfolding record_attempted_route
record_attempted_route-counters target c = (ground (arith), ground (arith))

module _ (config : GatewayConfig) (services : Services) (request : UnifiedRequest) (m : ℕ) where
  -- The route is noted first.
  noted :
      (target : RouteTarget) (s : CallState) (l : Loop)
      → Ended services request
          (target ∷ [])
          m
          (record s { metrics = record_attempted_route target s.metrics })
          l
      → Ended services request (target ∷ []) m s l
  noted target s l x =
      let (same, repairs) = record_attempted_route-counters target s.metrics in
      record {
        response = x.response;
        after = x.after;
        ended = x.ended;
        progress = record {
          same_limit = x.progress.same_limit;
          grows = x.progress.grows;
          bounded = x.progress.bounded;
          retried = omega (arith, x.progress.retried, same);
          same_repairs = x.progress.same_repairs ∙ repairs;
        };
        answered = x.answered;
      }

  widen :
      (target : RouteTarget) (targets : List RouteTarget) (raw : ℕ) (s : CallState)
      → Answered services request (target ∷ []) raw s
      → Answered services request (target ∷ targets) raw s
  widen target targets raw s a = record {
    attempt = a.attempt;
    by_route = a.by_route;
    listed = ground (arith, a.listed);
    replied = a.replied;
    is_last = a.is_last;
  }

  widen_rest :
      (target : RouteTarget) (targets : List RouteTarget) (raw : ℕ) (s : CallState)
      → Answered services request targets raw s
      → Answered services request (target ∷ targets) raw s
  widen_rest target targets raw s a = record {
    attempt = a.attempt;
    by_route = a.by_route;
    listed = ground (arith, a.listed);
    replied = a.replied;
    is_last = a.is_last;
  }

  after_route-Ended :
      (target : RouteTarget) (targets : List RouteTarget) (s : CallState) (rest : CallState → Loop)
      (l : Loop)
      → Ended services request (target ∷ []) m s l
      → ((s' : CallState) → Progress m s s' → Ended services request targets m s' (rest s'))
      → Ended services request (target ∷ targets) m s (after_route l rest)
  unfolding after_route
  after_route-Ended target targets s rest l x k = go x.response refl
    where
      go :
          (o : Option ℕ)
          → x.response ≡ o
          → Ended services request (target ∷ targets) m s (after_route l rest)
      go none e =
          let y = k x.after x.progress in
          record {
            response = y.response;
            after = y.after;
            ended = rw (x.ended, e) y.ended;
            progress = Progress-trans m s x.after y.after x.progress y.progress;
            answered = λ r same. widen_rest target targets r y.after (y.answered r same);
          }
      go (some raw) e = record {
        response = some raw;
        after = x.after;
        ended = rw (x.ended, e) refl;
        progress = x.progress;
        answered = λ r same. widen target targets r x.after (x.answered r (e ∙ same));
      }

  pub try_routes-Ended :
      (fuel : ℕ) (targets : List RouteTarget) (i : ℕ) (s : CallState)
      → s.retry_budget.max_retries ≡ m
      → s.retry_budget.attempts ≤ m + 1
      → m + 1 < fuel
      → Ended services request targets m s (try_routes fuel config services request i targets s)
  unfolding try_routes
  try_routes-Ended fuel [] i s e few enough = unchanged-Ended config services request m [] s e few
  try_routes-Ended fuel (target ∷ targets) i s e few enough =
      elim (Bool-cases (exhausted s.retry_budget)) [
        | inl full ↦
            rw (full) (unchanged-Ended config services request m (target ∷ targets) s e few)
        | inr free ↦ rw (free) (
            after_route-Ended target targets s _ _
              (noted target s _ (
                try_route-Ended config services request m fuel target i 0
                  (record s { metrics = record_attempted_route target s.metrics }) e few
                  (omega (arith, enough))))
              λ s' p. try_routes-Ended fuel targets (i + 1) s' p.same_limit p.bounded enough)
      ]
