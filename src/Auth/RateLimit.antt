-- ===== src/Auth/RateLimit.antt =====
-- The sliding window of app/auth/rate_limit.py. Redis is a parameter: `SortedSets` names the commands
-- that the limiter sends, as steps of a store `Z`. Times are milliseconds. The metrics are left out.
pub mod Store
pub mod Window
pub mod Runs
pub mod Admission
use aiprivacy_gateway.Common.{
  ℕ, suc, ◌+◌, ◌-◌, ◌*◌, ◌/◌, max, Bool, true, false, List, [], ◌∷◌, ◌++◌, Text, codes, leb, ltb,
  Option, none, some, if◌then◌else◌, ℤ, pos, negsuc, ltb_ℤ, to_ℕ,
}
use aiprivacy_gateway.Domain.Errors.{Result, ok, err, value_error, rate_limit_exceeded}

pub record RateLimitRule : Type 0 where
  pub limit : ℕ
  pub window_seconds : ℕ

-- The constructor, with the checks of `__post_init__`.
unfoldable pub rate_limit_rule : ℤ → ℤ → Result RateLimitRule
rate_limit_rule limit window_seconds =
    if ltb_ℤ limit (pos 1)
    then err value_error
    else if ltb_ℤ window_seconds (pos 1)
    then err value_error
    else ok (record { limit = to_ℕ limit; window_seconds = to_ℕ window_seconds })

abbrev pub window_ms : RateLimitRule → ℕ
window_ms rule = rule.window_seconds * 1000

pub data BucketName : Type 0 where
  tenant api_key : BucketName

pub data Reason : Type 0 where
  within_limit limit_exceeded backend_unavailable not_configured : Reason

pub record RateLimitDecision : Type 0 where
  pub allowed : Bool
  pub bucket : BucketName
  pub limit : ℕ
  pub remaining : ℕ
  pub retry_after_seconds : ℕ
  pub reason : Reason

unfoldable pub enforce : RateLimitDecision → Result RateLimitDecision
enforce decision = if decision.allowed then ok decision else err rate_limit_exceeded

unfoldable pub backend_failure_decision : Bool → RateLimitDecision
backend_failure_decision fail_open = record {
  allowed = fail_open;
  bucket = tenant;
  limit = 0;
  remaining = 0;
  retry_after_seconds = 5;
  reason = backend_unavailable;
}

unfoldable pub not_configured_decision : RateLimitDecision
not_configured_decision = record {
  allowed = false;
  bucket = tenant;
  limit = 0;
  remaining = 0;
  retry_after_seconds = 5;
  reason = not_configured;
}

pub record Bucket : Type 0 where
  pub name : BucketName
  pub key : Text
  pub rule : RateLimitRule

-- Milliseconds rounded up to seconds. Only a positive number matters, as the result is at least 1.
unfoldable pub retry_after : Option ℕ → ℕ → RateLimitRule → ℕ
retry_after none now_ms rule = rule.window_seconds
retry_after (some oldest_ms) now_ms rule =
    max 1 ((oldest_ms + window_ms rule - now_ms + 999) / 1000)

-- A difference of two naturals.
abbrev pub minus : ℕ → ℕ → ℤ
minus m n = if ltb m n then negsuc (n - m - 1) else pos (m - n)

-- The commands: removal of the members with a score in a range, the number of members, the score of
-- the first member, a member with its score added, and the time to live of a key.
pub record SortedSets (Z : Type 0) : Type 0 where
  pub zremrangebyscore : Text → ℕ → ℤ → Z → Z
  pub zcard : Text → Z → ℕ
  pub zrange_first : Text → Z → Option ℕ
  pub zadd : Text → Text → ℕ → Z → Z
  pub pexpire : Text → ℕ → Z → Z

-- What the first loop of `_evaluate` leaves: the store, the counts, and the refusal.
pub record Reading (Z : Type 0) : Type 0 where
  pub store : Z
  pub counts : List ℕ
  pub denied : Option RateLimitDecision

abbrev pub slack : Bucket × ℕ → ℕ
slack p = p.0.rule.limit - p.1

-- `min(…, key=…)`: the first of the smallest.
unfoldable pub tightest : Bucket × ℕ → List (Bucket × ℕ) → Bucket × ℕ
tightest best [] = best
tightest best (p ∷ rest) = tightest (if ltb (slack p) (slack best) then p else best) rest

unfoldable pub zip_counts : List Bucket → List ℕ → List (Bucket × ℕ)
zip_counts (b ∷ buckets) (n ∷ counts) = (b, n) ∷ zip_counts buckets counts
zip_counts _ _ = []

abbrev pub admitted : Bucket × ℕ → RateLimitDecision
admitted (b, count) = record {
  allowed = true;
  bucket = b.name;
  limit = b.rule.limit;
  remaining = b.rule.limit - count - 1;
  retry_after_seconds = 0;
  reason = within_limit;
}

module _ {Z : Type 0} (redis : SortedSets Z) (now_ms : ℕ) where
  unfoldable pub prune : Bucket → Z → Z
  prune b z = redis.zremrangebyscore b.key 0 (minus now_ms (window_ms b.rule)) z

  -- The refusal by a bucket that is full.
  unfoldable pub refusal : Bucket → Z → Option RateLimitDecision
  unfolding retry_after
  refusal b z =
      if leb b.rule.limit (redis.zcard b.key z)
      then some (record {
        allowed = false;
        bucket = b.name;
        limit = b.rule.limit;
        remaining = 0;
        retry_after_seconds = retry_after (redis.zrange_first b.key z) now_ms b.rule;
        reason = limit_exceeded;
      })
      else none

  abbrev or_else : Option RateLimitDecision → Option RateLimitDecision → Option RateLimitDecision
  or_else (some d) later = some d
  or_else none later = later

  -- The first loop. The refusal of the first full bucket counts.
  unfoldable pub read_buckets : List Bucket → Z → Reading Z
  unfolding prune refusal
  read_buckets [] z = record { store = z; counts = []; denied = none }
  read_buckets (b ∷ buckets) z =
      let pruned = prune b z in
      let rest = read_buckets buckets pruned in
      record {
        store = rest.store;
        counts = redis.zcard b.key pruned ∷ rest.counts;
        denied = or_else (refusal b pruned) rest.denied;
      }

  -- The second loop: `member` is the name that `_new_member` made.
  unfoldable pub write_buckets : Text → List Bucket → Z → Z
  write_buckets member [] z = z
  write_buckets member (b ∷ buckets) z =
      write_buckets member buckets
        (redis.pexpire b.key (window_ms b.rule) (redis.zadd b.key member now_ms z))

  -- `_evaluate` on at least one bucket.
  unfoldable pub evaluate : Text → Bucket → List Bucket → Z → RateLimitDecision × Z
  unfolding read_buckets write_buckets tightest zip_counts
  evaluate member b buckets z =
      let reading = read_buckets (b ∷ buckets) z in
      elim reading.denied [
        | some decision ↦ (decision, reading.store)
        | none ↦ elim (zip_counts (b ∷ buckets) reading.counts) [
          | [] ↦ (admitted (b, 0), write_buckets member (b ∷ buckets) reading.store)
          | p ∷ pairs ↦
              (admitted (tightest p pairs), write_buckets member (b ∷ buckets) reading.store)
        ]
      ]

pub record Principal : Type 0 where
  pub tenant_id : ℕ
  pub api_key_id : ℕ

-- The limiter; `uuid_text` is the text of an identifier.
pub record RedisRateLimiter : Type 0 where
  pub tenant_rule : RateLimitRule
  pub api_key_rule : RateLimitRule
  pub prefix : Text
  pub fail_open : Bool
  pub uuid_text : ℕ → Text

unfoldable pub tenant_key : RedisRateLimiter → ℕ → Text
tenant_key limiter tenant_id = limiter.prefix ++ (codes ":tenant:" ++ limiter.uuid_text tenant_id)

unfoldable pub api_key_key : RedisRateLimiter → ℕ → Text
api_key_key limiter api_key_id = limiter.prefix ++ (codes ":key:" ++ limiter.uuid_text api_key_id)

abbrev pub api_key_bucket : RedisRateLimiter → Principal → Bucket
api_key_bucket limiter principal = record {
  name = api_key;
  key = api_key_key limiter principal.api_key_id;
  rule = limiter.api_key_rule;
}

abbrev pub tenant_bucket : RedisRateLimiter → Principal → Bucket
tenant_bucket limiter principal = record {
  name = tenant;
  key = tenant_key limiter principal.tenant_id;
  rule = limiter.tenant_rule;
}

-- `acquire`: one transaction, or the decision for a store that failed and stayed as it was.
unfoldable pub acquire :
    {Z : Type 0}
    → SortedSets Z
    → RedisRateLimiter
    → ℕ
    → Text
    → Principal
    → Bool
    → Z
    → RateLimitDecision × Z
unfolding evaluate backend_failure_decision
acquire redis limiter now_ms member principal failed z =
    if failed
    then (backend_failure_decision limiter.fail_open, z)
    else evaluate redis now_ms member (api_key_bucket limiter principal)
        (tenant_bucket limiter principal ∷ []) z
