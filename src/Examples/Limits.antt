-- ===== src/Examples/Limits.antt =====
-- The window of the rate limiter, at a store of lists and two requests.
use aiprivacy_gateway.Common.{
  ℕ, ◌≤◌, ◌≡◌, inl, refl, true, false, not, ◌&&◌, List, [], ◌∷◌, ◌++◌, ap, Text, codes, text_eq_iff,
  length, keep, leb, leb_ℤ, pos, Option, none, some, if◌then◌else◌, arith,
}
use aiprivacy_gateway.Common.{text_eq}
use aiprivacy_gateway.Auth.RateLimit.{
  RateLimitRule, SortedSets, Principal, RedisRateLimiter, tenant_key, api_key_bucket, tenant_bucket,
  acquire,
}
use aiprivacy_gateway.Auth.RateLimit.Admission.{HasRoom, acquire-HasRoom}
use aiprivacy_gateway.Auth.RateLimit.Store.{Entry, size, IsSortedSets}
use aiprivacy_gateway.Auth.RateLimit.Window.{admissions}
use aiprivacy_gateway.Auth.RateLimit.Runs.{Run, started, acquired, window_bound}

abbrev Sets : Type 0
Sets = Text → List Entry

abbrev update : Text → (List Entry → List Entry) → Sets → Sets
update k f z j = if text_eq j k then f (z j) else z j

abbrev first_score : List Entry → Option ℕ
first_score [] = none
first_score (e ∷ es) = some e.1

abbrev sets : SortedSets Sets
sets = record {
  zremrangebyscore =
      λ k low high z. update k (keep (λ (e : Entry). not (leb low e.1 && leb_ℤ (pos e.1) high))) z;
  zcard = λ k z. length (z k);
  zrange_first = λ k z. first_score (z k);
  zadd = λ k member score z. update k (λ es. (member, score) ∷ es) z;
  pexpire = λ k ttl z. z;
}

update-same : (k : Text) (f : List Entry → List Entry) (z : Sets) → update k f z k ≡ f (z k)
update-same k f z = rw ((text_eq_iff k k).1 refl) refl

update-other :
    (j k : Text) (f : List Entry → List Entry) (z : Sets)
    → text_eq j k ≡ false
    → update j f z k ≡ z k
update-other j k f z h = ground (arith, h, text_eq_iff k j, text_eq_iff j k)

sets-IsSortedSets : IsSortedSets sets
sets-IsSortedSets = record {
  entries = λ z. z;
  entries-zremrangebyscore = λ k low high z.
      update-same k (keep (λ (e : Entry). not (leb low e.1 && leb_ℤ (pos e.1) high))) z;
  zcard_lem = λ k z. refl;
  size-zadd =
      λ k member score z fresh p. ap (size p) (update-same k (λ es. (member, score) ∷ es) z);
  zremrangebyscore-other = λ j k low high z h.
      update-other j k (keep (λ (e : Entry). not (leb low e.1 && leb_ℤ (pos e.1) high))) z h;
  zadd-other = λ j k member score z h. update-other j k (λ es. (member, score) ∷ es) z h;
  entries-pexpire = λ j k ttl z. refl;
}

abbrev limiter : RedisRateLimiter
limiter = record {
  tenant_rule = record { limit = 1; window_seconds = 1 };
  api_key_rule = record { limit = 5; window_seconds = 1 };
  prefix = codes "p";
  fail_open = false;
  uuid_text = λ n. n ∷ [];
}

abbrev caller : Principal
caller = record { tenant_id = 2; api_key_id = 3 }

abbrev key : Text
key = codes "p:tenant:" ++ 2 ∷ []

abbrev empty_sets : Sets
empty_sets k = []

abbrev after_first : Sets
after_first = (acquire sets limiter 5000 (codes "a") caller false empty_sets).1

abbrev after_second : Sets
after_second = (acquire sets limiter 5500 (codes "b") caller false after_first).1

nothing_yet : IsSortedSets.entries sets-IsSortedSets empty_sets key ≡ []
unfolding sets-IsSortedSets
nothing_yet = refl

first_request :
    Run sets sets-IsSortedSets limiter key limiter.tenant_rule 5000 (5000 ∷ []) after_first
unfolding acquire sets-IsSortedSets text_eq aiprivacy_gateway.Auth.RateLimit.api_key_key tenant_key
first_request =
    acquired {last = 0} {times = []} {z = empty_sets} 5000 (codes "a") caller (omega arith) refl
      (started nothing_yet)

-- The second request comes half a second after the first, and is refused.
two_requests :
    Run sets sets-IsSortedSets limiter key limiter.tenant_rule 5500 (5000 ∷ []) after_second
unfolding acquire sets-IsSortedSets text_eq aiprivacy_gateway.Auth.RateLimit.api_key_key tenant_key
two_requests =
    acquired {last = 5000} {times = 5000 ∷ []} {z = after_first} 5500 (codes "b") caller
      (omega arith) refl first_request

own_key : key ≡ tenant_key limiter 2
unfolding tenant_key
own_key = refl

window_bound_example : admissions 1000 5600 (5000 ∷ []) ≤ 1
window_bound_example =
    window_bound sets sets-IsSortedSets limiter key limiter.tenant_rule 5600
      (inl (2, own_key, refl)) two_requests (omega arith)

key-HasRoom : HasRoom sets sets-IsSortedSets 5000 (api_key_bucket limiter caller) empty_sets
unfolding sets-IsSortedSets
key-HasRoom = omega arith

tenant-HasRoom : HasRoom sets sets-IsSortedSets 5000 (tenant_bucket limiter caller) empty_sets
unfolding sets-IsSortedSets
tenant-HasRoom = omega arith

acquire-HasRoom_example :
    (acquire sets limiter 5000 (codes "a") caller false empty_sets).0.allowed ≡ true
acquire-HasRoom_example =
    acquire-HasRoom sets sets-IsSortedSets limiter 5000 (codes "a") caller empty_sets key-HasRoom
      tenant-HasRoom
