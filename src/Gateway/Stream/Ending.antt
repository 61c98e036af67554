-- ===== src/Gateway/Stream/Ending.antt =====
-- How `generate` of gateway.py may end, and what the client has received then.
use my_ai_agent_fullstack_tr.Base.{
  Bool, List, [], false, list_eq, nat_eq, option_eq, pair_eq, some, true, ℕ, ◌++◌, ◌+◌, ◌∷◌, ◌≡◌,
  ◌≢◌, ◌≤◌, ◌⊎◌,
}
use my_ai_agent_fullstack_tr.Domain.Models.{Text}
use my_ai_agent_fullstack_tr.Gateway.{RouteTarget, route_target_eq}
use my_ai_agent_fullstack_tr.Gateway.Chunks.{
  Opening, Output, StreamEnd, StreamServices, StreamState, StreamStatus,
}
use my_ai_agent_fullstack_tr.Gateway.Complete.{UnifiedRequest}
use my_ai_agent_fullstack_tr.Gateway.Stream.{Generation}
use my_ai_agent_fullstack_tr.Gateway.Stream.Passing.{sent}

-- What the output is, by how the stream has ended.
pub data Delivery (services : StreamServices) (request : UnifiedRequest)
    : StreamStatus → List Output → Type 0 where
  whole :
      (attempt : ℕ) (target : RouteTarget) (chunks : List Text)
      → services.open_stream attempt target request ≡ Opening.opened chunks StreamEnd.complete_end
      → Delivery services request StreamStatus.success (sent chunks)
  cut :
      (attempt : ℕ) (target : RouteTarget) (part rest : List Text) (end : StreamEnd)
      → services.open_stream attempt target request ≡ Opening.opened (part ++ rest) end
      → Delivery services request StreamStatus.cancelled (sent part)
  broken_off :
      (attempt : ℕ) (target : RouteTarget) (chunks : List Text) (retryable : Bool)
      → services.open_stream attempt target request
        ≡ Opening.opened chunks (StreamEnd.broken retryable)
      → sent chunks ≢ []
      → Delivery services request StreamStatus.error_status
          (sent chunks ++ Output.error_event ∷ Output.done_marker ∷ [])
  interrupted :
      (attempt : ℕ) (target : RouteTarget) (part rest : List Text) (end : StreamEnd) (line : Text)
      → services.open_stream attempt target request ≡ Opening.opened (part ++ rest) end
      → services.parse_raises line ≡ true
      → Delivery services request StreamStatus.escaped (sent part)
  unopened :
      (attempt : ℕ) (target : RouteTarget)
      → services.open_stream attempt target request ≡ Opening.open_raises
      → Delivery services request StreamStatus.escaped []
  failed :
      Delivery services request StreamStatus.error_status
        (Output.error_event ∷ Output.done_marker ∷ [])

-- Nothing has been sent yet.
pub record IsSilent (most : ℕ) (s : StreamState) : Type 0 where
  pub quiet : s.output ≡ []
  pub unsent : s.emitted ≡ false
  pub same_limit : s.retry_budget.max_retries ≡ most
  pub bounded : s.retry_budget.attempts ≤ most + 1

-- `generate` has returned, or goes on in silence.
pub record Returned (services : StreamServices) (request : UnifiedRequest) (most : ℕ)
    (g : Generation) : Type 0 where
  pub after : StreamState
  pub returned : g ≡ some (true, after)
  pub delivery : Delivery services request after.status after.output
  pub few_attempts : after.retry_budget.attempts ≤ most + 1

pub record GoesOn (most : ℕ) (g : Generation) : Type 0 where
  pub after : StreamState
  pub left : g ≡ some (false, after)
  pub silent : IsSilent most after

-- A generation that has returned, or that goes on.
unfoldable pub Settled : StreamServices → UnifiedRequest → ℕ → Generation → Type 0
Settled services request m g = Returned services request m g ⊎ GoesOn m g
