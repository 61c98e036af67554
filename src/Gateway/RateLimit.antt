-- ===== src/Gateway/RateLimit.antt =====
-- `class InMemoryRateLimiter` of week01_llm-gateway/app/core/rate_limit.py. The tokens of a bucket are
-- floats there; here they are exact, counted in parts of 1/60000, of which `requests_per_minute` come
-- in each millisecond.
pub mod Window
use my_ai_agent_fullstack_tr.Base.{
  Option, if◌then◌else◌, leb, list_eq, ltb, nat_eq, none, option_eq, pair_eq, some, ℕ, ◌*◌, ◌+◌,
  ◌-◌, ◌/◌,
}
use my_ai_agent_fullstack_tr.Domain.Models.{Text}
use my_ai_agent_fullstack_tr.Gateway.{RateLimitConfig}
use my_ai_agent_fullstack_tr.Storage.Table.{Table, lookup, put}

-- `class Bucket`
pub record Bucket : Type 0 where
  pub level : ℕ
  pub updated_at : ℕ

abbrev pub Buckets : Type 0
Buckets = Table (Text × Text) Bucket

-- One token.
abbrev pub one_token : ℕ
one_token = 60000

abbrev capacity : RateLimitConfig → ℕ
capacity config = config.burst * 60000

abbrev pub min : ℕ → ℕ → ℕ
min a b = if leb a b then a else b

abbrev pub max : ℕ → ℕ → ℕ
max a b = if leb a b then b else a

-- The tokens after the refill; a bucket that is missing is a full one.
unfoldable pub refilled : RateLimitConfig → ℕ → Option Bucket → ℕ
refilled config now none = capacity config
refilled config now (some b) =
    min (capacity config) (b.level + config.requests_per_minute * (now - b.updated_at))

-- `None`, or the error with its `retry_after` in seconds.
pub data Admission : Type 0 where
  admitted : Admission
  limited : ℕ → Admission

-- `int((1 - bucket.tokens) / refill_per_second)`, and at least 1
unfoldable pub retry_after : RateLimitConfig → ℕ → ℕ
retry_after config level = max 1 ((one_token - level) / (config.requests_per_minute * 1000))

unfoldable pub admit : RateLimitConfig → ℕ → Text × Text → Buckets → Admission × Buckets
unfolding refilled retry_after
admit config now key buckets =
    let level = refilled config now (lookup key buckets) in
    if ltb level one_token
    then (
      Admission.limited (retry_after config level),
      put key (record { level = level; updated_at = now }) buckets,
    )
    else (
      Admission.admitted,
      put key (record { level = level - one_token; updated_at = now }) buckets,
    )

-- `check`
unfoldable pub check : RateLimitConfig → ℕ → Text → Text → Buckets → Admission × Buckets
unfolding admit
check config now identity model buckets =
    if config.enabled
    then admit config now (identity, model) buckets
    else (Admission.admitted, buckets)
