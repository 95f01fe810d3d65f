-- ===== src/Auth/RateLimit/Window.antt =====
-- Runs of `acquire` (app/auth/rate_limit.py) and the number of requests that a window admits.
use aiprivacy_gateway.Common.{
  ℕ, suc, ◌+◌, ◌≤◌, ◌<◌, ◌≡◌, refl, ap, ◌∙◌, ◌⊎◌, inl, inr, Bool, true, false, ◌&&◌, List, [], ◌∷◌,
  Text, text_eq, length, keep, any, All, AllPairs, leb, ltb, none, some, Bool-cases, Option-cases,
  if◌then◌else◌, arith,
}
use aiprivacy_gateway.Auth.RateLimit.{
  RateLimitRule, window_ms, RateLimitDecision, Bucket, SortedSets, Reading, prune, refusal,
  read_buckets, write_buckets, evaluate,
}
use aiprivacy_gateway.Auth.RateLimit.Store.{
  Entry, size, IsSortedSets, is_live, HasRule, stands_under, Shrinks, read_buckets-Shrinks,
  read_buckets-room, write_buckets-size,
}

-- How many of the times count at time `t` in a window.
abbrev pub admissions : ℕ → ℕ → List ℕ → ℕ
admissions width t times = length (keep (λ a. ltb t (a + width)) times)

size-all : (es : List Entry) → size (λ _. true) es ≡ length es
size-all [] = refl
size-all (e ∷ es) = ap suc (size-all es)

module _ {Z : Type 0} (redis : SortedSets Z) (now : ℕ) where
  refusal-allowed :
      (b : Bucket) (z : Z) (d : RateLimitDecision)
      → refusal redis now b z ≡ some d
      → d.allowed ≡ false
  unfolding refusal
  refusal-allowed b z d h = elim (Bool-cases (leb b.rule.limit (redis.zcard b.key z))) [
    | inr e ↦ absurd (let h' = rw e at h in cc)
    | inl e ↦ let h' = rw e at h in ground arith
  ]

  denied-allowed :
      (bs : List Bucket) (z : Z) (d : RateLimitDecision)
      → (read_buckets redis now bs z).denied ≡ some d
      → d.allowed ≡ false
  unfolding read_buckets
  denied-allowed [] z d h = absurd (cc)
  denied-allowed (b ∷ bs) z d h = elim (Option-cases (refusal redis now b (prune redis now b z))) [
    | inl e ↦ let h' = rw (e, read_buckets) at h in denied-allowed bs (prune redis now b z) d h'
    | inr (r, e) ↦
        let h' = rw (e, read_buckets) at h in
        let same : r ≡ d = cc in refusal-allowed b (prune redis now b z) d (e ∙ ap some same)
  ]

  -- Refused, with what the first loop leaves; or admitted, with what both loops leave.
  evaluate-cases :
      (member : Text) (b : Bucket) (bs : List Bucket) (z : Z)
      → let reading : Reading Z = read_buckets redis now (b ∷ bs) z in
        (((evaluate redis now member b bs z).0.allowed ≡ false)
          × ((evaluate redis now member b bs z).1 ≡ reading.store))
        ⊎ ((reading.denied ≡ none)
            × ((evaluate redis now member b bs z).0.allowed ≡ true)
            × ((evaluate redis now member b bs z).1
                ≡ write_buckets redis now member (b ∷ bs) reading.store))
  unfolding evaluate
  evaluate-cases member b bs z = elim (Option-cases (read_buckets redis now (b ∷ bs) z).denied) [
    | inr (d, e) ↦ inl (rw (e, evaluate) (denied-allowed (b ∷ bs) z d e), rw (e, evaluate) refl)
    | inl e ↦ inr (e, rw (e, evaluate) refl, rw (e, evaluate) refl)
  ]

module _ {Z : Type 0} (redis : SortedSets Z) (laws : IsSortedSets redis) (k : Text)
    (rule : RateLimitRule) where
  -- The key holds no more than the limit, and every admission that counts from `now` on.
  pub record IsBounded (now : ℕ) (times : List ℕ) (z : Z) : Type 0 where
    pub bounded : length (laws.entries z k) ≤ rule.limit
    pub recorded :
        (t : ℕ)
        → now ≤ t
        → admissions (window_ms rule) t times ≤ size (is_live (window_ms rule) t) (laws.entries z k)

  -- The admissions under the key after a decision at `now`.
  abbrev pub noted : Bool → Bool → ℕ → List ℕ → List ℕ
  noted allowed here now times = if allowed && here then now ∷ times else times

  Shrinks-IsBounded :
      (last now : ℕ) (times : List ℕ) (z z' : Z)
      → last ≤ now
      → Shrinks redis laws k rule now z z'
      → IsBounded last times z
      → IsBounded now times z'
  Shrinks-IsBounded last now times z z' later s inv = record {
    bounded = omega (arith, s.no_more, inv.bounded);
    recorded = λ t h. omega (arith, s.same_live t h, inv.recorded t (omega (arith, later, h)));
  }

  write_buckets-IsBounded :
      (now : ℕ) (member : Text) (bs : List Bucket) (times : List ℕ) (z : Z)
      → AllPairs (λ (x y : Bucket). text_eq x.key y.key ≡ false) bs
      → any (λ (e : Entry). text_eq e.0 member) (laws.entries z k) ≡ false
      → (any (stands_under k) bs ≡ true → length (laws.entries z k) < rule.limit)
      → IsBounded now times z
      → IsBounded now
          (noted true (any (stands_under k) bs) now times)
          (write_buckets redis now member bs z)
  write_buckets-IsBounded now member bs times z apart fresh room inv =
      let grown = write_buckets-size redis laws k rule now member bs z apart fresh in
      let after = laws.entries (write_buckets redis now member bs z) k in
      elim (Bool-cases (any (stands_under k) bs)) [
        | inr e ↦
            let grown' : (p : Entry → Bool) → size p after ≡ size p (laws.entries z k) =
              λ p. grown p ∙ rw e refl in
            rw e (record {
              bounded = omega (
                arith,
                size-all after,
                size-all (laws.entries z k),
                grown' (λ _. true),
                inv.bounded,
              );
              recorded =
                  λ t h. omega (arith, grown' (is_live (window_ms rule) t), inv.recorded t h);
            })
        | inl e ↦
            let grown' : (p : Entry → Bool)
                → size p after ≡ size p ((member, now) ∷ laws.entries z k) =
              λ p. grown p ∙ rw e refl in
            rw e (record {
              bounded =
                  omega (
                    arith,
                    size-all after,
                    size-all (laws.entries z k),
                    grown' (λ _. true),
                    room e,
                  );
              recorded =
                  λ t h. ground (arith, grown' (is_live (window_ms rule) t), inv.recorded t h);
            })
      ]

  pub evaluate-IsBounded :
      (now : ℕ) (member : Text) (b : Bucket) (bs : List Bucket) (last : ℕ) (times : List ℕ) (z : Z)
      → last ≤ now
      → All (HasRule k rule) (b ∷ bs)
      → AllPairs (λ (x y : Bucket). text_eq x.key y.key ≡ false) (b ∷ bs)
      → any (λ (e : Entry). text_eq e.0 member) (laws.entries z k) ≡ false
      → IsBounded last times z
      → let after : RateLimitDecision × Z = evaluate redis now member b bs z in
        IsBounded now (noted after.0.allowed (any (stands_under k) (b ∷ bs)) now times) after.1
  evaluate-IsBounded now member b bs last times z later has apart fresh inv =
      let reading = read_buckets redis now (b ∷ bs) z in
      let shrinks = read_buckets-Shrinks redis laws k rule now (b ∷ bs) z has in
      let read_bound = Shrinks-IsBounded last now times z reading.store later shrinks inv in
      elim (evaluate-cases redis now member b bs z) [
        | inl (refused, same) ↦ rw (refused, same) read_bound
        | inr (free, allowed, same) ↦
            rw (allowed, same)
              (write_buckets-IsBounded now member (b ∷ bs) times reading.store apart
                (shrinks.no_new member fresh)
                (read_buckets-room redis laws k rule now (b ∷ bs) z has free) read_bound)
      ]
