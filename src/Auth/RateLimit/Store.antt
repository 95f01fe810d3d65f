-- ===== src/Auth/RateLimit/Store.antt =====
-- What app/auth/rate_limit.py relies on in Redis, and what its two loops do to a key.
use aiprivacy_gateway.Common.{
  ℕ, ◌+◌, ◌≤◌, ◌<◌, ◌≡◌, refl, sym, ap, ◌∙◌, inl, inr, Bool, true, false, not, ◌&&◌, List, [], ◌∷◌,
  Text, text_eq, text_eq_iff, length, length-keep, keep, any, All, AllPairs, subst, if◌then◌else◌,
  leb, ltb, none, ℤ, pos, leb_ℤ, Bool-cases, Option-cases, arith,
}
use aiprivacy_gateway.Auth.RateLimit.{
  RateLimitRule, window_ms, Bucket, minus, SortedSets, prune, refusal, read_buckets, write_buckets,
}

-- A member and its score.
abbrev pub Entry : Type 0
Entry = Text × ℕ

-- How many entries pass a test.
abbrev pub size : (Entry → Bool) → List Entry → ℕ
size p es = length (keep p es)

-- The documented behaviour of the commands, told by the entries under each key: the removal by
-- score, the count, the addition of a member that is not there, and the keys that a command leaves
-- alone.
pub record IsSortedSets {Z : Type 0} (redis : SortedSets Z) : Type 0 where
  pub entries : Z → Text → List Entry
  pub entries-zremrangebyscore :
      (k : Text) (low : ℕ) (high : ℤ) (z : Z)
      → entries (redis.zremrangebyscore k low high z) k
        ≡ keep (λ (e : Entry). not (leb low e.1 && leb_ℤ (pos e.1) high)) (entries z k)
  pub zcard_lem : (k : Text) (z : Z) → redis.zcard k z ≡ length (entries z k)
  pub size-zadd :
      (k member : Text) (score : ℕ) (z : Z)
      → any (λ (e : Entry). text_eq e.0 member) (entries z k) ≡ false
      → (p : Entry → Bool)
      → size p (entries (redis.zadd k member score z) k) ≡ size p ((member, score) ∷ entries z k)
  pub zremrangebyscore-other :
      (j k : Text) (low : ℕ) (high : ℤ) (z : Z)
      → text_eq j k ≡ false
      → entries (redis.zremrangebyscore j low high z) k ≡ entries z k
  pub zadd-other :
      (j k member : Text) (score : ℕ) (z : Z)
      → text_eq j k ≡ false
      → entries (redis.zadd j member score z) k ≡ entries z k
  pub entries-pexpire :
      (j k : Text) (ttl : ℕ) (z : Z) → entries (redis.pexpire j ttl z) k ≡ entries z k

-- An entry counts at time `t` in a window of `width`.
abbrev pub is_live : ℕ → ℕ → Entry → Bool
is_live width t e = ltb t (e.1 + width)

pub leb_ℤ-minus : (s now width : ℕ) → leb_ℤ (pos s) (minus now width) ≡ not (ltb now (s + width))
leb_ℤ-minus s now width = ground arith

-- Pruning at `now` removes nothing that counts at `now` or later.
size-prune :
    (width now t : ℕ) (es : List Entry)
    → now ≤ t
    → size
        (is_live width t)
        (keep (λ (e : Entry). not (leb 0 e.1 && leb_ℤ (pos e.1) (minus now width))) es)
      ≡ size (is_live width t) es
size-prune width now t [] h = refl
size-prune width now t (e ∷ es) h =
    ground (arith, size-prune width now t es h, leb_ℤ-minus e.1 now width, h)

any-keep :
    {A : Type 0} (p q : A → Bool) (xs : List A) → any p xs ≡ false → any p (keep q xs) ≡ false
any-keep p q [] h = refl
any-keep p q (x ∷ xs) h = ground (arith, any-keep p q xs, h)

-- A bucket that stands under the key has the rule.
abbrev pub HasRule : Text → RateLimitRule → Bucket → Type 0
HasRule k rule b = text_eq b.key k ≡ true → b.rule ≡ rule

abbrev pub stands_under : Text → Bucket → Bool
stands_under k b = text_eq b.key k

module _ {Z : Type 0} (redis : SortedSets Z) (laws : IsSortedSets redis) (k : Text)
    (rule : RateLimitRule) where
  -- The entries under the key get no more, and those that count from `now` on stay.
  pub record Shrinks (now : ℕ) (z z' : Z) : Type 0 where
    pub no_more : length (laws.entries z' k) ≤ length (laws.entries z k)
    pub same_live :
        (t : ℕ)
        → now ≤ t
        → size (is_live (window_ms rule) t) (laws.entries z' k)
          ≡ size (is_live (window_ms rule) t) (laws.entries z k)
    pub no_new :
        (member : Text)
        → any (λ (e : Entry). text_eq e.0 member) (laws.entries z k) ≡ false
        → any (λ (e : Entry). text_eq e.0 member) (laws.entries z' k) ≡ false

  Shrinks-refl : (now : ℕ) (z : Z) → Shrinks now z z
  Shrinks-refl now z = record { no_more = omega arith; same_live = λ t h. refl; no_new = λ m h. h }

  Shrinks-trans : (now : ℕ) (x y z : Z) → Shrinks now x y → Shrinks now y z → Shrinks now x z
  Shrinks-trans now x y z a b = record {
    no_more = omega (arith, a.no_more, b.no_more);
    same_live = λ t h. b.same_live t h ∙ a.same_live t h;
    no_new = λ m h. b.no_new m (a.no_new m h);
  }

  Shrinks-same : (now : ℕ) (z z' : Z) → laws.entries z' k ≡ laws.entries z k → Shrinks now z z'
  Shrinks-same now z z' h = record {
    no_more = rw h (omega arith);
    same_live = λ t l. rw h refl;
    no_new = λ m l. rw h l;
  }

  prune-Shrinks :
      (now : ℕ) (b : Bucket) (z : Z) → HasRule k rule b → Shrinks now z (prune redis now b z)
  unfolding prune
  prune-Shrinks now b z has = elim (Bool-cases (text_eq b.key k)) [
    | inr other ↦
        Shrinks-same now z _
          (laws.zremrangebyscore-other b.key k 0 (minus now (window_ms b.rule)) z other)
    | inl here ↦
        let same = (text_eq_iff b.key k).0 here in
        let pruned = laws.entries-zremrangebyscore k 0 (minus now (window_ms rule)) z in
        rw (same, has here)
          (record {
            no_more = rw pruned (length-keep _ (laws.entries z k));
            same_live = λ t h. rw pruned (size-prune (window_ms rule) now t (laws.entries z k) h);
            no_new = λ m h. rw pruned (any-keep _ _ (laws.entries z k) h);
          })
  ]

  -- The first loop shrinks the key.
  pub read_buckets-Shrinks :
      (now : ℕ) (bs : List Bucket) (z : Z)
      → All (HasRule k rule) bs
      → Shrinks now z (read_buckets redis now bs z).store
  unfolding read_buckets
  read_buckets-Shrinks now [] z has = Shrinks-refl now z
  read_buckets-Shrinks now (b ∷ bs) z has =
      Shrinks-trans now z (prune redis now b z) _ (prune-Shrinks now b z has.0)
        (read_buckets-Shrinks now bs (prune redis now b z) has.1)

  refusal-none :
      (now : ℕ) (b : Bucket) (z : Z)
      → refusal redis now b z ≡ none
      → redis.zcard b.key z < b.rule.limit
  unfolding refusal
  refusal-none now b z h = ground arith

  denied-none :
      (now : ℕ) (b : Bucket) (bs : List Bucket) (z : Z)
      → (read_buckets redis now (b ∷ bs) z).denied ≡ none
      → (refusal redis now b (prune redis now b z) ≡ none)
        × ((read_buckets redis now bs (prune redis now b z)).denied ≡ none)
  unfolding read_buckets
  denied-none now b bs z h = elim (Option-cases (refusal redis now b (prune redis now b z))) [
    | inl e ↦ let h' = rw (e, read_buckets) at h in (e, h')
    | inr (_, e) ↦ absurd (let h' = rw (e, read_buckets) at h in cc)
  ]

  -- If it refuses nothing, there is room under the key.
  pub read_buckets-room :
      (now : ℕ) (bs : List Bucket) (z : Z)
      → All (HasRule k rule) bs
      → (read_buckets redis now bs z).denied ≡ none
      → any (stands_under k) bs ≡ true
      → length (laws.entries (read_buckets redis now bs z).store k) < rule.limit
  unfolding read_buckets
  read_buckets-room now [] z has free some_bucket = cc
  read_buckets-room now (b ∷ bs) z has free some_bucket =
      let (room, later) = denied-none now b bs z free in
      elim (Bool-cases (text_eq b.key k)) [
        | inr other ↦
            read_buckets-room now bs (prune redis now b z) has.1 later
              (ground (arith, some_bucket, other))
        | inl here ↦
            let same = (text_eq_iff b.key k).0 here in
            let full : redis.zcard b.key (prune redis now b z) < b.rule.limit =
              refusal-none now b (prune redis now b z) room in
            let counted : redis.zcard k (prune redis now b z) < rule.limit =
              subst (λ key. redis.zcard key (prune redis now b z) < rule.limit) same
                (subst (λ (r : RateLimitRule). redis.zcard b.key (prune redis now b z) < r.limit)
                  (has.0 here) full) in
            let fewer = (read_buckets-Shrinks now bs (prune redis now b z) has.1).no_more in
            omega (arith, counted, laws.zcard_lem k (prune redis now b z), fewer)
      ]

  not_under :
      (bs : List Bucket)
      → All (λ (c : Bucket). text_eq k c.key ≡ false) bs
      → any (stands_under k) bs ≡ false
  not_under [] h = refl
  not_under (b ∷ bs) h =
      ground (arith, h.0, not_under bs h.1, text_eq_iff b.key k, text_eq_iff k b.key)

  write_buckets-other :
      (now : ℕ) (member : Text) (bs : List Bucket) (z : Z)
      → any (stands_under k) bs ≡ false
      → laws.entries (write_buckets redis now member bs z) k ≡ laws.entries z k
  unfolding write_buckets
  write_buckets-other now member [] z none_under = refl
  write_buckets-other now member (b ∷ bs) z none_under =
      write_buckets-other now member bs _ (ground (arith, none_under))
      ∙ laws.entries-pexpire b.key k (window_ms b.rule) (redis.zadd b.key member now z)
      ∙ laws.zadd-other b.key k member now z (ground (arith, none_under))

  -- What the second loop adds under the key: one entry if a bucket stands under it.
  pub write_buckets-size :
      (now : ℕ) (member : Text) (bs : List Bucket) (z : Z)
      → AllPairs (λ (a b : Bucket). text_eq a.key b.key ≡ false) bs
      → any (λ (e : Entry). text_eq e.0 member) (laws.entries z k) ≡ false
      → (p : Entry → Bool)
      → size p (laws.entries (write_buckets redis now member bs z) k) ≡ (
          if any (stands_under k) bs
          then size p ((member, now) ∷ laws.entries z k)
          else size p (laws.entries z k))
  unfolding write_buckets
  write_buckets-size now member [] z apart fresh p = refl
  write_buckets-size now member (b ∷ bs) z apart fresh p = elim (Bool-cases (text_eq b.key k)) [
    | inr other ↦
        let after = redis.pexpire b.key (window_ms b.rule) (redis.zadd b.key member now z) in
        let same : laws.entries after k ≡ laws.entries z k =
          laws.entries-pexpire b.key k (window_ms b.rule) (redis.zadd b.key member now z)
          ∙ laws.zadd-other b.key k member now z other in
        rw other (
          subst
            (λ es.
              size p (laws.entries (write_buckets redis now member bs after) k)
              ≡ (if any (stands_under k) bs then size p ((member, now) ∷ es) else size p es))
            same (write_buckets-size now member bs after apart.1 (rw same fresh) p))
    | inl here ↦
        let same = (text_eq_iff b.key k).0 here in
        let none_under =
          not_under bs
            (subst (λ key. All (λ (c : Bucket). text_eq key c.key ≡ false) bs) same apart.0) in
        let kept =
          write_buckets-other now member bs
            (redis.pexpire b.key (window_ms b.rule) (redis.zadd b.key member now z)) none_under
          ∙ laws.entries-pexpire b.key k (window_ms b.rule) (redis.zadd b.key member now z) in
        rw here (
          ap (size p) kept
          ∙ subst
              (λ key.
                size p (laws.entries (redis.zadd key member now z) k)
                ≡ size p ((member, now) ∷ laws.entries z k))
              (sym same) (laws.size-zadd k member now z fresh p))
  ]
