-- ===== src/Gateway/Router/Breaker.antt =====
-- The circuit breaker of router.py: failures in a row open the circuit of their provider.
use my_ai_agent_fullstack_tr.Base.{
  List, [], ap, arith, leb, length, list_eq, nat_eq, option_eq, or_else, pair_eq, refl, ℕ, ◌+◌, ◌-◌,
  ◌∙◌, ◌∷◌, ◌≡◌, ◌≢◌, ◌≤◌,
}
use my_ai_agent_fullstack_tr.Domain.Models.{Text}
use my_ai_agent_fullstack_tr.Gateway.{CircuitBreakerConfig}
use my_ai_agent_fullstack_tr.Gateway.Router.{
  ModelRouter, closed_circuit, cooled_down, failed_again, is_available, record_failure,
}
use my_ai_agent_fullstack_tr.Storage.Table.{lookup, lookup-put, lookup-put_self}

-- The failures of a provider at these instants.
unfoldable pub fail_at : CircuitBreakerConfig → Text → List ℕ → ModelRouter → ModelRouter
fail_at breaker provider [] router = router
fail_at breaker provider (t ∷ times) router =
    fail_at breaker provider times (record_failure breaker t provider router)

-- The failures that the circuit has counted.
counted : Text → ModelRouter → ℕ
counted provider router = (or_else (lookup provider router.circuits) closed_circuit).failures

record_failure-counted :
    (breaker : CircuitBreakerConfig) (now : ℕ) (provider : Text) (router : ModelRouter)
    → counted provider (record_failure breaker now provider router) ≡ counted provider router + 1
unfolding counted record_failure
record_failure-counted breaker now provider router =
    let c = or_else (lookup provider router.circuits) closed_circuit in
    ground (arith, lookup-put_self provider (failed_again breaker now c) router.circuits)

fail_at-counted :
    (breaker : CircuitBreakerConfig) (provider : Text) (times : List ℕ) (router : ModelRouter)
    → counted provider (fail_at breaker provider times router)
      ≡ counted provider router + length times
unfolding fail_at
fail_at-counted breaker provider [] router = omega arith
fail_at-counted breaker provider (t ∷ times) router = omega (
  arith,
  fail_at-counted breaker provider times (record_failure breaker t provider router),
  record_failure-counted breaker t provider router,
)

record_failure-others :
    (breaker : CircuitBreakerConfig) (now : ℕ) (provider q : Text) (router : ModelRouter)
    → q ≢ provider
    → lookup q (record_failure breaker now provider router).circuits ≡ lookup q router.circuits
unfolding record_failure
record_failure-others breaker now provider q router other =
    let c = or_else (lookup provider router.circuits) closed_circuit in
    ground (arith, other, lookup-put provider q (failed_again breaker now c) router.circuits)

fail_at-others :
    (breaker : CircuitBreakerConfig) (provider q : Text) (times : List ℕ) (router : ModelRouter)
    → q ≢ provider
    → lookup q (fail_at breaker provider times router).circuits ≡ lookup q router.circuits
unfolding fail_at
fail_at-others breaker provider q [] router other = refl
fail_at-others breaker provider q (t ∷ times) router other =
    fail_at-others breaker provider q times _ other
    ∙ record_failure-others breaker t provider q router other

-- Once a provider has failed in a row as often as the threshold says, the last time at an instant, it
-- is available again exactly from its cooldown on; and no failure of it changes whether another
-- provider is available.
pub fail_at-is_available :
    (breaker : CircuitBreakerConfig) (provider : Text) (times : List ℕ) (last : ℕ)
    (router : ModelRouter)
    → breaker.failure_threshold ≤ length times + 1
    → (now : ℕ)
    → let failed = record_failure breaker last provider (fail_at breaker provider times router) in
      ((is_available breaker now provider failed.circuits).0 ≡ leb breaker.cooldown_ms (now - last))
      × ((q : Text)
          → q ≢ provider
          → (is_available breaker now q failed.circuits).0
            ≡ (is_available breaker now q router.circuits).0)
unfolding is_available record_failure counted
fail_at-is_available breaker provider times last router enough now =
    let before = fail_at breaker provider times router in
    let c = or_else (lookup provider before.circuits) closed_circuit in
    let n = fail_at-counted breaker provider times router in
    (
      ground (
        arith,
        n,
        enough,
        lookup-put_self provider (failed_again breaker last c) before.circuits,
      ),
      λ q other. ap (cooled_down breaker now) (
          record_failure-others breaker last provider q before other
          ∙ fail_at-others breaker provider q times router other),
    )
