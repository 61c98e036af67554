-- ===== src/Gateway/RateLimit/Window.antt =====
-- How many requests `check` of rate_limit.py admits in a window of time, and when it admits one again.
use native.Mathlib.Nat.{mul_assoc, mul_comm, mul-add, mul-le-mul_left, lt-mul-div-succ}
use my_ai_agent_fullstack_tr.Base.{
  Bool, List, Option, [], ap, arith, false, if◌then◌else◌, list_eq, ltb, nat_eq, none, option_eq,
  pair_eq, some, true, ℕ, ◌&&◌, ◌*◌, ◌+◌, ◌-◌, ◌/◌, ◌<◌, ◌==◌, ◌∙◌, ◌∷◌, ◌≡◌, ◌≤◌,
}
use my_ai_agent_fullstack_tr.Domain.Models.{Text}
use my_ai_agent_fullstack_tr.Gateway.{RateLimitConfig}
use my_ai_agent_fullstack_tr.Gateway.RateLimit.{
  Admission, Bucket, Buckets, admit, check, max, one_token, refilled, retry_after,
}
use my_ai_agent_fullstack_tr.Storage.Rows.{later}
use my_ai_agent_fullstack_tr.Storage.Table.{lookup, lookup-put, lookup-put_self, put}

-- A request at an instant, by an identity for a model.
pub record Arrival : Type 0 where
  pub at : ℕ
  pub identity : Text
  pub model : Text

-- The instants do not go back, and lie between these two.
pub data Ascending : ℕ → ℕ → List Arrival → Type 0 where
  done : {start end : ℕ} → start ≤ end → Ascending start end []
  next :
      {start end : ℕ} {q : Arrival} {requests : List Arrival}
      → start ≤ q.at
      → Ascending q.at end requests
      → Ascending start end (q ∷ requests)

abbrev is_admitted : Admission → Bool
is_admitted Admission.admitted = true
is_admitted (Admission.limited s) = false

-- How many of the requests under the key are admitted.
unfoldable pub admissions : RateLimitConfig → Text × Text → List Arrival → Buckets → ℕ
admissions config key [] buckets = 0
admissions config key (q ∷ requests) buckets =
    let (result, buckets') = check config q.at q.identity q.model buckets in
    (if (q.identity, q.model) == key && is_admitted result then 1 else 0)
    + admissions config key requests buckets'

elapsed :
    (earlier later updated : ℕ)
    → earlier ≤ later
    → later - updated ≤ (earlier - updated) + (later - earlier)
elapsed earlier later updated h = omega (arith, h)

-- What was refilled up to an instant, and what comes until the next.
refill_later :
    (rate earlier later updated : ℕ)
    → earlier ≤ later
    → rate * (later - updated) ≤ rate * (earlier - updated) + rate * (later - earlier)
refill_later rate earlier later updated h = omega (
  arith,
  mul-le-mul_left rate (elapsed earlier later updated h),
  mul-add rate (earlier - updated) (later - earlier),
)

refilled_later :
    (config : RateLimitConfig) (earlier now : ℕ) (b : Option Bucket)
    → earlier ≤ now
    → refilled config now b
      ≤ refilled config earlier b + config.requests_per_minute * (now - earlier)
unfolding refilled
refilled_later config earlier now none h = omega arith
refilled_later config earlier now (some b) h =
    ground (arith, refill_later config.requests_per_minute earlier now b.updated_at h)

-- A request that is made takes one token if it is admitted.
check-refilled :
    (config : RateLimitConfig) (q : Arrival) (key : Text × Text) (buckets : Buckets)
    → config.enabled ≡ true
    → let (result, buckets') = check config q.at q.identity q.model buckets in
      (if (q.identity, q.model) == key && is_admitted result then one_token else 0)
        + refilled config q.at (lookup key buckets')
      ≤ refilled config q.at (lookup key buckets)
unfolding check admit refilled
check-refilled config q key buckets on =
    let level = refilled config q.at (lookup (q.identity, q.model) buckets) in
    ground (
      arith,
      on,
      lookup-put (q.identity, q.model) key (record { level = level; updated_at = q.at }) buckets,
      lookup-put (q.identity, q.model) key (record { level = level - one_token; updated_at = q.at })
          buckets,
    )

Ascending-ordered :
    (start end : ℕ) (requests : List Arrival) → Ascending start end requests → start ≤ end
Ascending-ordered start end [] (done h) = h
Ascending-ordered start end (q ∷ requests) (next h a) =
    omega (arith, h, Ascending-ordered q.at end requests a)

refill_split :
    (rate start mid end : ℕ)
    → start ≤ mid
    → mid ≤ end
    → rate * (end - start) ≡ rate * (mid - start) + rate * (end - mid)
refill_split rate start mid end h k =
    ap (λ d. rate * d) (omega (arith, h, k)) ∙ mul-add rate (mid - start) (end - mid)

admissions-refilled :
    (config : RateLimitConfig) (key : Text × Text) (requests : List Arrival) (start end : ℕ)
    (buckets : Buckets)
    → config.enabled ≡ true
    → Ascending start end requests
    → one_token * admissions config key requests buckets
      ≤ refilled config start (lookup key buckets) + config.requests_per_minute * (end - start)
unfolding admissions
admissions-refilled config key [] start end buckets on a = omega arith
admissions-refilled config key (q ∷ requests) start end buckets on (next h a) =
    let (result, buckets') = check config q.at q.identity q.model buckets in
    ground (
      arith,
      admissions-refilled config key requests q.at end buckets' on a,
      check-refilled config q key buckets on,
      refilled_later config start q.at (lookup key buckets) h,
      refill_split config.requests_per_minute start q.at end h
          (Ascending-ordered q.at end requests a),
    )

refilled_bound :
    (config : RateLimitConfig) (now : ℕ) (b : Option Bucket)
    → refilled config now b ≤ one_token * config.burst
unfolding refilled
refilled_bound config now none = omega arith
refilled_bound config now (some b) = ground (arith)

-- In a window of time, whatever was before and whatever else is asked for, a limiter that is enabled
-- admits no more requests of one identity for one model than the burst and what is refilled in the
-- window: 60000 times their number is at most 60000 times the burst, and the rate in a minute times
-- the milliseconds of the window.
pub admissions_bound :
    (config : RateLimitConfig) (key : Text × Text) (requests : List Arrival) (start end : ℕ)
    (buckets : Buckets)
    → config.enabled ≡ true
    → Ascending start end requests
    → one_token * admissions config key requests buckets
      ≤ one_token * config.burst + config.requests_per_minute * (end - start)
admissions_bound config key requests start end buckets on a = omega (
  arith,
  admissions-refilled config key requests start end buckets on a,
  refilled_bound config start (lookup key buckets),
)

enough_refill :
    (rate level wait seconds : ℕ)
    → 1 ≤ rate
    → seconds ≡ max 1 ((one_token - level) / (rate * 1000))
    → (seconds + 1) * 1000 ≤ wait
    → one_token ≤ level + rate * wait
enough_refill rate level wait seconds pos s long =
    let q = (one_token - level) / (rate * 1000) in
    let above : one_token - level < (rate * 1000) * (q + 1) =
      lt-mul-div-succ (one_token - level) (omega (arith, pos)) in
    let more : (q + 1) * 1000 ≤ wait = ground (arith, s, long) in
    let reached : rate * ((q + 1) * 1000) ≤ rate * wait = mul-le-mul_left rate more in
    let regroup : rate * 1000 * (q + 1) ≡ rate * ((q + 1) * 1000) =
      mul_assoc rate 1000 (q + 1) ∙ ap (λ n. rate * n) (mul_comm 1000 (q + 1)) in
    omega (arith, above, reached, regroup)

-- The answer to a request that is limited names a time to wait: a second more than it later, the same
-- request is admitted, if no other was made under its key.
pub admitted_after :
    (config : RateLimitConfig) (now later_at seconds : ℕ) (identity model : Text)
    (buckets buckets' : Buckets)
    → config.enabled ≡ true
    → 1 ≤ config.requests_per_minute
    → 1 ≤ config.burst
    → check config now identity model buckets ≡ (Admission.limited seconds, buckets')
    → now + (seconds + 1) * 1000 ≤ later_at
    → (check config later_at identity model buckets').0 ≡ Admission.admitted
unfolding check admit refilled retry_after
admitted_after config now later_at seconds identity model buckets buckets' on rate burst h wait =
    let key : Text × Text = (identity, model) in
    let level = refilled config now (lookup key buckets) in
    let low : ltb level one_token ≡ true = ground (arith, on, h) in
    let s : seconds ≡ retry_after config level = ground (arith, on, h, low) in
    let b : Bucket = record { level = level; updated_at = now } in
    let after : buckets' ≡ put key b buckets = ground (arith, on, h, low) in
    let there : lookup key buckets' ≡ some b =
      ap (lookup key) after ∙ lookup-put_self key b buckets in
    let enough =
      enough_refill config.requests_per_minute level (later_at - now) seconds rate s
        (omega (arith, wait)) in
    ground (arith, on, there, enough, burst)
