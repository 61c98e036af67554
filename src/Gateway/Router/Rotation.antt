-- ===== src/Gateway/Router/Rotation.antt =====
-- The rotation of the primary route of router.py, by weight.
use native.Mathlib.Nat.{mul-add, add-mod_right, mod-eq_of_lt, mod-lt}
use my_ai_agent_fullstack_tr.Base.{
  Bool, Bool-cases, List, [], ap, arith, false, if◌then◌else◌, inl, inr, length, list_eq, nat_eq,
  option_eq, or_else, pair_eq, refl, some, suc, zero, ℕ, ◌%◌, ◌*◌, ◌+◌, ◌<◌, ◌==◌, ◌∙◌, ◌∷◌, ◌≡◌,
  ◌≤◌,
}
use my_ai_agent_fullstack_tr.Domain.Models.{Text}
use my_ai_agent_fullstack_tr.Gateway.{RouteStrategy, RouteTarget, route_target_eq}
use my_ai_agent_fullstack_tr.Gateway.Router.{
  ModelRouter, Routing, arrange, get_elem?, lead, primary_at, repeat, weighted,
}
use my_ai_agent_fullstack_tr.Storage.Table.{lookup, lookup-put_self}

-- 1 if the route is the primary one at this number of the counter.
unfoldable hit : RouteTarget → List RouteTarget → ℕ → ℕ
hit r choices n = if primary_at n choices == some r then 1 else 0

-- How often it is at `n` numbers in a row.
unfoldable turns : RouteTarget → ℕ → ℕ → List RouteTarget → ℕ
turns r start zero choices = 0
turns r start (suc n) choices = hit r choices start + turns r (start + 1) n choices

-- How often a route is in the list.
unfoldable pub count : RouteTarget → List RouteTarget → ℕ
count r [] = 0
count r (c ∷ choices) = (if c == r then 1 else 0) + count r choices

turns-last :
    (r : RouteTarget) (start n : ℕ) (choices : List RouteTarget)
    → turns r start (suc n) choices ≡ turns r start n choices + hit r choices (start + n)
unfolding turns
turns-last r start zero choices =
    let e : hit r choices (start + 0) ≡ hit r choices start = ap (hit r choices) (omega arith) in
    omega (arith, e)
turns-last r start (suc n) choices =
    let e : hit r choices (start + 1 + n) ≡ hit r choices (start + suc n) =
      ap (hit r choices) (omega arith) in
    omega (arith, e, turns-last r (start + 1) n choices)

-- A full round later, the same route is the primary one.
hit_again :
    (r : RouteTarget) (choices : List RouteTarget) (n : ℕ)
    → hit r choices (n + length choices) ≡ hit r choices n
unfolding hit primary_at
hit_again r choices n =
    ap (λ i. if get_elem? choices i == some r then 1 else 0) (add-mod_right n (length choices))

turns_shift :
    (r : RouteTarget) (start : ℕ) (choices : List RouteTarget)
    → turns r (start + 1) (length choices) choices ≡ turns r start (length choices) choices
unfolding turns
turns_shift r start choices =
    omega (arith, turns-last r start (length choices) choices, hit_again r choices start)

turns_start :
    (r : RouteTarget) (start : ℕ) (choices : List RouteTarget)
    → turns r start (length choices) choices ≡ turns r 0 (length choices) choices
turns_start r zero choices = refl
turns_start r (suc start) choices =
    ap (λ k. turns r k (length choices) choices) (omega arith)
    ∙ turns_shift r start choices
    ∙ turns_start r start choices

-- The turns within the list itself.
picks : RouteTarget → ℕ → ℕ → List RouteTarget → ℕ
picks r start zero choices = 0
picks r start (suc n) choices =
    (if get_elem? choices start == some r then 1 else 0) + picks r (start + 1) n choices

picks-turns :
    (r : RouteTarget) (start n : ℕ) (choices : List RouteTarget)
    → start + n ≤ length choices
    → turns r start n choices ≡ picks r start n choices
unfolding turns picks hit primary_at
picks-turns r start zero choices h = refl
picks-turns r start (suc n) choices h =
    let same : start % length choices ≡ start = mod-eq_of_lt (omega (arith, h)) in
    let chosen : ℕ → ℕ = λ i. if get_elem? choices i == some r then 1 else 0 in
    omega (arith, ap chosen same, picks-turns r (start + 1) n choices (omega (arith, h)))

picks_tail :
    (r c : RouteTarget) (start n : ℕ) (choices : List RouteTarget)
    → picks r (suc start) n (c ∷ choices) ≡ picks r start n choices
unfolding picks get_elem?
picks_tail r c start zero choices = refl
picks_tail r c start (suc n) choices =
    let next : picks r (suc start + 1) n (c ∷ choices) ≡ picks r (suc (start + 1)) n (c ∷ choices) =
      ap (λ k. picks r k n (c ∷ choices)) (omega arith) in
    omega (arith, next, picks_tail r c (start + 1) n choices)

picks-count :
    (r : RouteTarget) (choices : List RouteTarget)
    → picks r 0 (length choices) choices ≡ count r choices
unfolding picks get_elem? count
picks-count r [] = refl
picks-count r (c ∷ choices) =
    let e : picks r 1 (length choices) (c ∷ choices) ≡ picks r 0 (length choices) choices =
      picks_tail r c 0 (length choices) choices in
    ground (arith, e, picks-count r choices)

repeat-count :
    (r route : RouteTarget) (n : ℕ) (rest : List RouteTarget)
    → count r (repeat route n rest) ≡ (if route == r then n else 0) + count r rest
unfolding repeat count
repeat-count r route zero rest = ground (arith)
repeat-count r route (suc n) rest = ground (arith, repeat-count r route n rest)

weighted-count :
    (r : RouteTarget) (routes : List RouteTarget)
    → count r (weighted routes) ≡ r.weight * count r routes
unfolding weighted count
weighted-count r [] = omega arith
weighted-count r (route ∷ routes) =
    let rest = weighted-count r routes in
    let e = repeat-count r route route.weight (weighted routes) in
    elim (Bool-cases (route == r)) [
      | inl same ↦
          let w : route.weight ≡ r.weight = ground (arith, same) in
          rw (e, same) omega (arith, rest, w, mul-add r.weight 1 (count r routes))
      | inr other ↦ rw (e, other) omega (arith, rest)
    ]

get_elem?-some :
    (choices : List RouteTarget) (i : ℕ)
    → i < length choices
    → (c : RouteTarget) × (get_elem? choices i ≡ some c)
unfolding get_elem?
get_elem?-some [] i h = absurd (omega (arith, h))
get_elem?-some (c ∷ choices) zero h = (c, refl)
get_elem?-some (c ∷ choices) (suc i) h = get_elem?-some choices i (omega (arith, h))

-- Whether the route goes first.
unfoldable pub leads : RouteTarget → Routing → Bool
leads r (Routing.routes []) = false
leads r (Routing.routes (c ∷ routes)) = c == r
leads r (Routing.refused e) = false

-- How many of `n` calls in a row, with the same routes available, try the route first.
unfoldable pub first_tries : RouteTarget → ℕ → Text → List RouteTarget → ModelRouter → ℕ
first_tries r zero model available router = 0
first_tries r (suc n) model available router =
    let (routing, next) = arrange RouteStrategy.weighted_round_robin model available router in
    (if leads r routing then 1 else 0) + first_tries r n model available next

leads-hit :
    (r : RouteTarget) (model : Text) (available : List RouteTarget) (router : ModelRouter)
    → 0 < length (weighted available)
    → let (routing, next) = arrange RouteStrategy.weighted_round_robin model available router in
      (if leads r routing then 1 else 0)
      ≡ hit r (weighted available) (or_else (lookup model router.counters) 0)
unfolding arrange leads hit primary_at lead
leads-hit r model available router h =
    let n = or_else (lookup model router.counters) 0 in
    let (c, e) =
      get_elem?-some (weighted available) (n % length (weighted available)) (mod-lt n h) in
    rw (e) ground (arith)

next_counter :
    (model : Text) (available : List RouteTarget) (router : ModelRouter)
    → or_else
        (lookup model
          (arrange RouteStrategy.weighted_round_robin model available router).1.counters)
        0
      ≡ or_else (lookup model router.counters) 0 + 1
unfolding arrange
next_counter model available router =
    ap (λ o. or_else o 0) (lookup-put_self model _ router.counters)

first_tries-turns :
    (r : RouteTarget) (n start : ℕ) (model : Text) (available : List RouteTarget)
    (router : ModelRouter)
    → 0 < length (weighted available)
    → or_else (lookup model router.counters) 0 ≡ start
    → first_tries r n model available router ≡ turns r start n (weighted available)
unfolding first_tries turns
first_tries-turns r zero start model available router h e = refl
first_tries-turns r (suc n) start model available router h e =
    let next = (arrange RouteStrategy.weighted_round_robin model available router).1 in
    let first = leads-hit r model available router h ∙ ap (hit r (weighted available)) e in
    let rest =
      first_tries-turns r n (start + 1) model available next h
        (next_counter model available router ∙ ap (λ k. k + 1) e) in
    omega (arith, first, rest)

-- The rotation is fair: of as many calls in a row as the weights of the available routes add up to, a
-- route that is listed once is tried first as often as its weight says, wherever the counter stands.
pub first_tries_fair :
    (r : RouteTarget) (model : Text) (available : List RouteTarget) (router : ModelRouter)
    → 0 < length (weighted available)
    → first_tries r (length (weighted available)) model available router
      ≡ r.weight * count r available
first_tries_fair r model available router h =
    let choices = weighted available in
    let start = or_else (lookup model router.counters) 0 in
    first_tries-turns r (length choices) start model available router h refl
    ∙ turns_start r start choices
    ∙ picks-turns r 0 (length choices) choices (omega arith)
    ∙ picks-count r choices
    ∙ weighted-count r available
