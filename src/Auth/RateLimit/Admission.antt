-- ===== src/Auth/RateLimit/Admission.antt =====
-- When `acquire` (app/auth/rate_limit.py) admits a request.
use aiprivacy_gateway.Common.{
  ℕ, ◌<◌, ◌≡◌, refl, ap, true, false, not, ◌&&◌, List, [], ◌∷◌, Text, text_eq, length, keep, leb,
  none, pos, leb_ℤ, arith,
}
use aiprivacy_gateway.Auth.RateLimit.{
  window_ms, Bucket, minus, SortedSets, prune, refusal, read_buckets, evaluate, Principal,
  RedisRateLimiter, api_key_bucket, tenant_bucket, acquire,
}
use aiprivacy_gateway.Auth.RateLimit.Store.{Entry, size, IsSortedSets, is_live, leb_ℤ-minus}
use aiprivacy_gateway.Auth.RateLimit.Runs.{keys_differ, text_eq-differ}

-- What pruning leaves is what still counts.
length-prune :
    (width now : ℕ) (es : List Entry)
    → length (keep (λ (e : Entry). not (leb 0 e.1 && leb_ℤ (pos e.1) (minus now width))) es)
      ≡ size (is_live width now) es
length-prune width now [] = refl
length-prune width now (e ∷ es) =
    ground (arith, length-prune width now es, leb_ℤ-minus e.1 now width)

module _ {Z : Type 0} (redis : SortedSets Z) (laws : IsSortedSets redis) (now : ℕ) where
  -- Fewer entries count under the key of the bucket than its rule permits.
  abbrev pub HasRoom : Bucket → Z → Type 0
  HasRoom b z = size (is_live (window_ms b.rule) now) (laws.entries z b.key) < b.rule.limit

  refusal-HasRoom :
      (b : Bucket) (z : Z) → HasRoom b z → refusal redis now b (prune redis now b z) ≡ none
  unfolding refusal prune
  refusal-HasRoom b z room =
      let pruned = redis.zremrangebyscore b.key 0 (minus now (window_ms b.rule)) z in
      let counted : redis.zcard b.key pruned < b.rule.limit = omega (
        arith,
        room,
        laws.zcard_lem b.key pruned,
        ap (λ (es : List Entry). length es)
            (laws.entries-zremrangebyscore b.key 0 (minus now (window_ms b.rule)) z),
        length-prune (window_ms b.rule) now (laws.entries z b.key),
      ) in
      ground (arith, counted)

  prune-HasRoom :
      (a b : Bucket) (z : Z)
      → text_eq a.key b.key ≡ false
      → HasRoom b z
      → HasRoom b (prune redis now a z)
  unfolding prune
  prune-HasRoom a b z apart room =
      rw (laws.zremrangebyscore-other a.key b.key 0 (minus now (window_ms a.rule)) z apart) room

  read_buckets-HasRoom :
      (a b : Bucket) (z : Z)
      → text_eq a.key b.key ≡ false
      → HasRoom a z
      → HasRoom b z
      → (read_buckets redis now (a ∷ (b ∷ [])) z).denied ≡ none
  unfolding read_buckets
  read_buckets-HasRoom a b z apart room_a room_b =
      let first = refusal-HasRoom a z room_a in
      let second = refusal-HasRoom b (prune redis now a z) (prune-HasRoom a b z apart room_b) in
      rw (first, read_buckets, second) refl

  evaluate-HasRoom :
      (member : Text) (a b : Bucket) (z : Z)
      → text_eq a.key b.key ≡ false
      → HasRoom a z
      → HasRoom b z
      → (evaluate redis now member a (b ∷ []) z).0.allowed ≡ true
  unfolding evaluate
  evaluate-HasRoom member a b z apart room_a room_b =
      rw (read_buckets-HasRoom a b z apart room_a room_b, evaluate) refl

-- If the store works and fewer requests than the limit count at this time under the key of the
-- caller and under that of its tenant, then the request is admitted.
pub acquire-HasRoom :
    {Z : Type 0} (redis : SortedSets Z) (laws : IsSortedSets redis) (limiter : RedisRateLimiter)
    (now : ℕ) (member : Text) (p : Principal) (z : Z)
    → HasRoom redis laws now (api_key_bucket limiter p) z
    → HasRoom redis laws now (tenant_bucket limiter p) z
    → (acquire redis limiter now member p false z).0.allowed ≡ true
unfolding acquire
acquire-HasRoom redis laws limiter now member p z key_room tenant_room =
    evaluate-HasRoom redis laws now member (api_key_bucket limiter p) (tenant_bucket limiter p) z
      (text_eq-differ _ _ (keys_differ limiter p.api_key_id p.tenant_id)) key_room tenant_room
