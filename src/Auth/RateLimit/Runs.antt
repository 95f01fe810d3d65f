-- ===== src/Auth/RateLimit/Runs.antt =====
-- Runs of `acquire` (app/auth/rate_limit.py) and the number of requests that a window admits.
use aiprivacy_gateway.Common.{
  ℕ, ◌+◌, ◌≤◌, ◌≡◌, refl, sym, ap, ◌∙◌, ◌⊎◌, inl, inr, true, false, List, [], ◌∷◌, ◌++◌, Text,
  codes, text_eq, text_eq_iff, length, length-keep, any, All, drop, drop-append_left, Bool-cases,
  arith,
}
use aiprivacy_gateway.Auth.RateLimit.{
  RateLimitRule, window_ms, Bucket, SortedSets, Principal, RedisRateLimiter, tenant_key,
  api_key_key, api_key_bucket, tenant_bucket, acquire,
}
use aiprivacy_gateway.Auth.RateLimit.Store.{
  Entry, size, IsSortedSets, is_live, HasRule, stands_under,
}
use aiprivacy_gateway.Auth.RateLimit.Window.{admissions, IsBounded, noted, evaluate-IsBounded}

abbrev second_of : Text → ℕ
second_of (_ ∷ (c ∷ _)) = c
second_of _ = 0

-- The keys of an API key and of a tenant differ: after the prefix one reads ":k", the other ":t".
pub keys_differ :
    (limiter : RedisRateLimiter) (a t : ℕ) → api_key_key limiter a ≡ tenant_key limiter t → ⊥
unfolding api_key_key tenant_key
keys_differ limiter a t h =
    let tails : codes ":key:" ++ limiter.uuid_text a ≡ codes ":tenant:" ++ limiter.uuid_text t =
      sym (drop-append_left limiter.prefix _)
      ∙ ap (drop (length limiter.prefix)) h
      ∙ drop-append_left limiter.prefix _ in
    let letters : 107 ≡ 116 = ap second_of tails in absurd (omega (arith, letters))

pub text_eq-differ : (s t : Text) → (s ≡ t → ⊥) → text_eq s t ≡ false
text_eq-differ s t h = elim (Bool-cases (text_eq s t)) [
  | inl e ↦ absurd (h ((text_eq_iff s t).0 e))
  | inr e ↦ e
]

-- A key of the limiter, with the rule of its bucket.
abbrev pub IsOwn : RedisRateLimiter → Text → RateLimitRule → Type 0
IsOwn limiter k rule =
    ((t : ℕ) × (k ≡ tenant_key limiter t) × (rule ≡ limiter.tenant_rule))
    ⊎ ((a : ℕ) × (k ≡ api_key_key limiter a) × (rule ≡ limiter.api_key_rule))

own_rules :
    (limiter : RedisRateLimiter) (k : Text) (rule : RateLimitRule) (p : Principal)
    → IsOwn limiter k rule
    → HasRule k rule (api_key_bucket limiter p) × HasRule k rule (tenant_bucket limiter p)
own_rules limiter k rule p (inl (t, key, own)) = (
  λ h. absurd (
      keys_differ limiter p.api_key_id t
        ((text_eq_iff (api_key_key limiter p.api_key_id) k).0 h ∙ key)),
  λ h. sym own,
)
own_rules limiter k rule p (inr (a, key, own)) = (
  λ h. sym own,
  λ h. absurd (
      keys_differ limiter a p.tenant_id
        (sym key ∙ sym ((text_eq_iff (tenant_key limiter p.tenant_id) k).0 h))),
)

module _ {Z : Type 0} (redis : SortedSets Z) (laws : IsSortedSets redis)
    (limiter : RedisRateLimiter) (k : Text) (rule : RateLimitRule) where
  abbrev pub buckets_of : Principal → List Bucket
  buckets_of p = api_key_bucket limiter p ∷ (tenant_bucket limiter p ∷ [])

  -- The runs from a store without entries under the key: the time of the last step, the times of
  -- the requests that were admitted under the key, and the store.
  pub data Run : ℕ → List ℕ → Z → Type 0 where
    started : {z : Z} → laws.entries z k ≡ [] → Run 0 [] z
    -- A request whose new member is not yet in the set.
    acquired :
        {last : ℕ} {times : List ℕ} {z : Z} (now : ℕ) (member : Text) (p : Principal)
        → last ≤ now
        → any (λ (e : Entry). text_eq e.0 member) (laws.entries z k) ≡ false
        → Run last times z
        → Run now
            (noted redis laws k rule
              (acquire redis limiter now member p false z).0.allowed
              (any (stands_under k) (buckets_of p))
              now
              times)
            (acquire redis limiter now member p false z).1
    -- A request for which the store failed: what it is told does not depend on the set.
    failed :
        {last : ℕ} {times : List ℕ} {z : Z} (now : ℕ) (member : Text) (p : Principal)
        → last ≤ now
        → Run last times z
        → Run now times (acquire redis limiter now member p true z).1
    -- The time to live ran out: by then no entry counts any more.
    expired :
        {last : ℕ} {times : List ℕ} {z z' : Z} (now : ℕ)
        → last ≤ now
        → All (λ (e : Entry). e.1 + window_ms rule ≤ now) (laws.entries z k)
        → laws.entries z' k ≡ []
        → Run last times z
        → Run now times z'

  none_live :
      (now t : ℕ) (es : List Entry)
      → now ≤ t
      → All (λ (e : Entry). e.1 + window_ms rule ≤ now) es
      → size (is_live (window_ms rule) t) es ≡ 0
  none_live now t [] h a = refl
  none_live now t (e ∷ es) h a = ground (arith, h, a.0, none_live now t es h a.1)

  Run-IsBounded :
      IsOwn limiter k rule
      → {last : ℕ} {times : List ℕ} {z : Z} → Run last times z
      → IsBounded redis laws k rule last times z
  unfolding acquire
  Run-IsBounded own (started empty) = record {
    bounded = rw empty (omega arith);
    recorded = λ t h. rw empty (omega arith);
  }
  Run-IsBounded own (acquired {last = last} {times = times} {z = z} now member p later fresh run) =
      let (first, second) = own_rules limiter k rule p own in
      let apart = text_eq-differ _ _ (keys_differ limiter p.api_key_id p.tenant_id) in
      evaluate-IsBounded redis laws k rule now member (api_key_bucket limiter p)
        (tenant_bucket limiter p ∷ []) last times z later (first, (second, tt))
        ((apart, tt), (tt, tt)) fresh (Run-IsBounded own run)
  Run-IsBounded own (failed now member p later run) =
      let inv = Run-IsBounded own run in
      record { bounded = inv.bounded; recorded = λ t h. inv.recorded t (omega (arith, later, h)) }
  Run-IsBounded own (expired {z = z} now later gone empty run) =
      let inv = Run-IsBounded own run in
      record {
        bounded = rw empty (omega arith);
        recorded = λ t h. rw empty (
            omega (
              arith,
              none_live now t (laws.entries z k) h gone,
              inv.recorded t (omega (arith, later, h)),
            ));
      }

-- In every run from an empty set, under a key of the limiter, of requests in the order of time
-- with new member names, of failures of the store and of expiries: at no time from the last step
-- on do more admissions by the store count in the window of the rule than its limit.
pub window_bound :
    {Z : Type 0} (redis : SortedSets Z) (laws : IsSortedSets redis) (limiter : RedisRateLimiter)
    (k : Text) (rule : RateLimitRule) {last : ℕ} {times : List ℕ} {z : Z} (t : ℕ)
    → IsOwn limiter k rule
    → Run redis laws limiter k rule last times z
    → last ≤ t
    → admissions (window_ms rule) t times ≤ rule.limit
window_bound redis laws limiter k rule {z = z} t own run h =
    let inv = Run-IsBounded redis laws limiter k rule own run in
    omega (
      arith,
      inv.bounded,
      inv.recorded t h,
      length-keep (is_live (window_ms rule) t) (laws.entries z k),
    )
