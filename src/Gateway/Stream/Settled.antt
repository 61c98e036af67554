-- ===== src/Gateway/Stream/Settled.antt =====
-- One attempt of `stream` in gateway.py: the stream has been delivered, or goes on in silence.
use my_ai_agent_fullstack_tr.Base.{
  Bool, Bool-cases, List, [], ap, append-nil, arith, false, inl, inr, list_eq, ltb, nat_eq, not,
  option_eq, pair_eq, refl, some, subst, sym, true, ℕ, ◌&&◌, ◌++◌, ◌+◌, ◌∙◌, ◌∷◌, ◌≡◌, ◌≤◌,
}
use my_ai_agent_fullstack_tr.Domain.Models.{Text}
use my_ai_agent_fullstack_tr.Gateway.{GatewayConfig, RouteTarget, route_target_eq}
use my_ai_agent_fullstack_tr.Gateway.Chunks.{
  Opening, Output, Passage, StreamEnd, StreamServices, StreamState, StreamStatus, escape,
  finish_stream, flush_raises, pass_chunks,
}
use my_ai_agent_fullstack_tr.Gateway.Complete.{UnifiedRequest, exhausted}
use my_ai_agent_fullstack_tr.Gateway.Router.{record_failure, record_success}
use my_ai_agent_fullstack_tr.Gateway.Stream.{
  Generation, after_break, after_chunks, after_opening, after_passage, end_with_error, fail_route,
  retry_or_leave,
}
use my_ai_agent_fullstack_tr.Gateway.Stream.Ending.{Delivery, IsSilent, Returned, Settled}
use my_ai_agent_fullstack_tr.Gateway.Stream.Passing.{
  Interrupted, Passed, no_output, pass_chunks-Passed, sent,
}

module _ (config : GatewayConfig) (services : StreamServices) (request : UnifiedRequest)
    (m : ℕ) where
  fail_route-IsSilent :
      (target : RouteTarget) (s : StreamState)
      → IsSilent m s
      → IsSilent m (fail_route config services target s)
  unfolding record_failure
  fail_route-IsSilent target s q = record {
    quiet = q.quiet;
    unsent = q.unsent;
    same_limit = q.same_limit;
    bounded = q.bounded;
  }

  fail_route-budget :
      (target : RouteTarget) (s : StreamState)
      → (fail_route config services target s).retry_budget ≡ s.retry_budget
  fail_route-budget target s = refl

  -- The client has gone.
  delivered_part :
      (attempt : ℕ) (target : RouteTarget) (part rest : List Text) (end : StreamEnd)
      (s s' : StreamState)
      → services.open_stream attempt target request ≡ Opening.opened (part ++ rest) end
      → IsSilent m s
      → Passed part s s'
      → s'.status ≡ StreamStatus.cancelled
      → Delivery services request s'.status s'.output
  delivered_part attempt target part rest end s s' o q p status =
      let e : s'.output ≡ sent part = p.sends ∙ ap (λ l. l ++ sent part) q.quiet in
      rw (e, status) (Delivery.cut attempt target part rest end o)

  retry_or_leave-Settled :
      (tries : ℕ) (retryable : Bool) (s : StreamState) (again : Generation)
      → IsSilent m s
      → Settled services request m again
      → Settled services request m (retry_or_leave config tries retryable s again)
  unfolding retry_or_leave Settled
  retry_or_leave-Settled tries retryable s again q next =
      elim (Bool-cases (
        retryable
        && ltb tries config.retry.max_retries_per_route
        && not (exhausted s.retry_budget))) [
          | inl e ↦ rw (e) next
          | inr e ↦ rw (e) (inr (record { after = s; left = refl; silent = q }))
        ]

  after_break-Settled :
      (target : RouteTarget) (attempt tries : ℕ) (chunks : List Text) (retryable b : Bool)
      (s s' : StreamState) (again : Generation)
      → services.open_stream attempt target request
        ≡ Opening.opened chunks (StreamEnd.broken retryable)
      → IsSilent m s
      → Passed chunks s s'
      → s'.emitted ≡ b
      → (IsSilent m (fail_route config services target s')
          → (fail_route config services target s').retry_budget ≡ s.retry_budget
          → Settled services request m again)
      → Settled services request m
          (after_break config tries retryable b (fail_route config services target s') again)
  unfolding after_break Settled
  after_break-Settled target attempt tries chunks retryable true s s' again o q p e next =
      inl (record {
        after = end_with_error (fail_route config services target s');
        returned = refl;
        delivery =
            subst (Delivery services request StreamStatus.error_status)
              (ap (λ l. l ++ Output.error_event ∷ Output.done_marker ∷ [])
                (sym (p.sends ∙ ap (λ l. l ++ sent chunks) q.quiet)))
              (Delivery.broken_off attempt target chunks retryable o
                λ none_sent. ground (arith, p.emits, q.unsent, e, none_sent));
        few_attempts = subst (λ b. b.attempts ≤ m + 1) (sym p.same_budget) q.bounded;
      })
  after_break-Settled target attempt tries chunks retryable false s s' again o q p e next =
      let nothing : sent chunks ≡ [] =
        no_output (sent chunks) (ground (arith, p.emits, q.unsent, e)) in
      let silent : IsSilent m s' = record {
        quiet = p.sends ∙ ap (λ l. l ++ sent chunks) q.quiet ∙ nothing;
        unsent = e;
        same_limit = ap (λ b. b.max_retries) p.same_budget ∙ q.same_limit;
        bounded = subst (λ b. b.attempts ≤ m + 1) (sym p.same_budget) q.bounded;
      } in
      let silent' = fail_route-IsSilent target s' silent in
      retry_or_leave-Settled tries retryable (fail_route config services target s') again silent'
        (next silent' (fail_route-budget target s' ∙ p.same_budget))

  -- A stream that has ended.
  after_chunks-Settled :
      (target : RouteTarget) (attempt tries : ℕ) (chunks : List Text) (end : StreamEnd)
      (s s' : StreamState) (again : StreamState → Generation)
      → services.open_stream attempt target request ≡ Opening.opened chunks end
      → IsSilent m s
      → Passed chunks s s'
      → ((s'' : StreamState)
          → IsSilent m s''
          → s''.retry_budget ≡ s.retry_budget
          → Settled services request m (again s''))
      → Settled services request m (after_chunks config services target attempt tries end s' again)
  unfolding after_chunks Settled finish_stream record_success
  after_chunks-Settled target attempt tries chunks StreamEnd.complete_end s s' again o q p next =
      let e = sym (p.sends ∙ ap (λ l. l ++ sent chunks) q.quiet) in
      let few = subst (λ b. b.attempts ≤ m + 1) (sym p.same_budget) q.bounded in
      elim (Bool-cases (flush_raises services s')) [
        | inl r ↦ rw (r) (
            inl (record {
              after = escape s';
              returned = refl;
              delivery = subst (Delivery services request StreamStatus.escaped) e (
                  Delivery.interrupted attempt target chunks [] StreamEnd.complete_end
                    s'.parse_buffer
                    (o
                      ∙ ap (λ l. Opening.opened l StreamEnd.complete_end) (sym (append-nil chunks)))
                    (ground (arith, r)));
              few_attempts = few;
            }))
        | inr r ↦ rw (r) (
            inl (record {
              after = finish_stream services attempt target s';
              returned = refl;
              delivery =
                  subst (Delivery services request StreamStatus.success) e
                    (Delivery.whole attempt target chunks o);
              few_attempts = few;
            }))
      ]
  after_chunks-Settled target attempt tries chunks (StreamEnd.broken retryable) s s' again o q p
        next =
      after_break-Settled target attempt tries chunks retryable s'.emitted s s' _ o q p refl
        (next (fail_route config services target s'))

  stopped_by_client :
      (attempt : ℕ) (target : RouteTarget) (chunks : List Text) (end : StreamEnd)
      (s s' : StreamState)
      → services.open_stream attempt target request ≡ Opening.opened chunks end
      → IsSilent m s
      → (part : List Text) × (rest : List Text) × (chunks ≡ part ++ rest)
        × Passed part s s'
        × (s'.status ≡ StreamStatus.cancelled)
      → Returned services request m (some (true, s'))
  stopped_by_client attempt target chunks end s s' o q (part, rest, parts, p, status) = record {
    after = s';
    returned = refl;
    delivery =
        delivered_part attempt target part rest end s s' (o ∙ ap (λ l. Opening.opened l end) parts)
          q p status;
    few_attempts = subst (λ b. b.attempts ≤ m + 1) (sym p.same_budget) q.bounded;
  }

  stopped_by_line :
      (attempt : ℕ) (target : RouteTarget) (chunks : List Text) (end : StreamEnd)
      (s s' : StreamState)
      → services.open_stream attempt target request ≡ Opening.opened chunks end
      → IsSilent m s
      → Interrupted services chunks s s'
      → Returned services request m (some (true, s'))
  stopped_by_line attempt target chunks end s s' o q p =
      let e : s'.output ≡ sent p.part = p.sends ∙ ap (λ l. l ++ sent p.part) q.quiet in
      record {
        after = s';
        returned = refl;
        delivery =
            rw (e, p.status)
              (Delivery.interrupted attempt target p.part p.rest end p.line
                (o ∙ ap (λ l. Opening.opened l end) p.parts) p.raises);
        few_attempts = subst (λ b. b.attempts ≤ m + 1) (sym p.same_budget) q.bounded;
      }

  after_passage-Settled :
      (passage : Passage × StreamState) (rest : StreamState → Generation)
      → (passage.0 ≡ Passage.passed → Settled services request m (rest passage.1))
      → (passage.0 ≡ Passage.gone → Returned services request m (some (true, passage.1)))
      → (passage.0 ≡ Passage.raised → Returned services request m (some (true, passage.1)))
      → Settled services request m (after_passage passage rest)
  unfolding Settled
  after_passage-Settled (Passage.passed, s) rest all client line = all refl
  after_passage-Settled (Passage.gone, s) rest all client line = inl (client refl)
  after_passage-Settled (Passage.raised, s) rest all client line = inl (line refl)

  pub after_opening-Settled :
      (target : RouteTarget) (attempt tries : ℕ) (o : Opening) (s : StreamState)
      (again : StreamState → Generation)
      → services.open_stream attempt target request ≡ o
      → IsSilent m s
      → ((s'' : StreamState)
          → IsSilent m s''
          → s''.retry_budget ≡ s.retry_budget
          → Settled services request m (again s''))
      → Settled services request m (after_opening config services target attempt tries o s again)
  unfolding after_opening Settled
  after_opening-Settled target attempt tries (Opening.open_error retryable) s again o q next =
      let s' = fail_route config services target s in
      let silent' = fail_route-IsSilent target s q in
      retry_or_leave-Settled tries retryable s' (again s') silent'
        (next s' silent' (fail_route-budget target s))
  after_opening-Settled target attempt tries Opening.open_raises s again o q next = inl (record {
    after = escape s;
    returned = refl;
    delivery =
        subst (Delivery services request StreamStatus.escaped) (sym q.quiet)
          (Delivery.unopened attempt target o);
    few_attempts = q.bounded;
  })
  after_opening-Settled target attempt tries (Opening.opened chunks end) s again o q next =
      let (all, broken, some_left) = pass_chunks-Passed services attempt 0 chunks s in
      let s' = (pass_chunks services attempt 0 chunks s).1 in
      after_passage-Settled (pass_chunks services attempt 0 chunks s) _
        (λ e. after_chunks-Settled target attempt tries chunks end s s' again o q (all e) next)
        (λ e. stopped_by_client attempt target chunks end s s' o q (some_left e))
        (λ e. stopped_by_line attempt target chunks end s s' o q (broken e))
