-- ===== src/Examples/Vault.antt =====
-- The in-memory vault at two entries, and an identifier.
use aiprivacy_gateway.Common.{
  ℕ, zero, suc, ◌+◌, ◌<◌, ◌≤◌, ◌≡◌, refl, ap, Bool, true, false, List, [], ◌∷◌, ◌++◌, Text, codes,
  All, Option, none, some, arith,
}
use aiprivacy_gateway.Domain.Errors.{ok}
use aiprivacy_gateway.Tokenization.Platform.{Bytes}
use aiprivacy_gateway.Tokenization.Grammar.{is_valid_token_id, is_valid_entity_type}
use aiprivacy_gateway.Tokenization.Identifiers.{
  encode_crockford, encode_crockford-is_valid_token_id,
}
use aiprivacy_gateway.Tokenization.Vault.{VaultWriteRequest}
use aiprivacy_gateway.Vault.Memory.{MemoryVault, session_at, get_or_create_many, resolve_many}
use aiprivacy_gateway.Vault.Memory.Kept.{IsSource, IsKept}
use aiprivacy_gateway.Vault.Memory.RoundTrip.{
  IsKnown, at_time, IsRestored, resolve_many-get_or_create_many,
}
use aiprivacy_gateway.Vault.Memory.Isolation.{get_or_create_many-isolated}
use aiprivacy_gateway.Examples.Data.{email}

abbrev raw : Bytes
raw = 255 ∷ 1 ∷ 2 ∷ 3 ∷ 4 ∷ 5 ∷ 6 ∷ 7 ∷ 8 ∷ 9 ∷ 10 ∷ 11 ∷ 12 ∷ 13 ∷ 14 ∷ 15 ∷ []

encode_crockford-is_valid_token_id_example :
    (id : Text) × (encode_crockford raw ≡ ok id) × (is_valid_token_id id ≡ true)
encode_crockford-is_valid_token_id_example = encode_crockford-is_valid_token_id raw refl

-- Two identifiers that differ in the last character.
abbrev pub ids : ℕ → Text
ids zero = codes "0123456789ABCDEFGHJKMNPQRS"
ids (suc n) = codes "0123456789ABCDEFGHJKMNPQRT"

first_valid : is_valid_token_id (ids 0) ≡ true
unfolding is_valid_token_id aiprivacy_gateway.Tokenization.Grammar.mem_chars
first_valid = refl

second_valid : is_valid_token_id (ids 1) ≡ true
unfolding is_valid_token_id aiprivacy_gateway.Tokenization.Grammar.mem_chars
second_valid = refl

abbrev last_of : Text → ℕ
last_of [] = 0
last_of (c ∷ []) = c
last_of (c ∷ (d ∷ text)) = last_of (d ∷ text)

ids-distinct : (m n : ℕ) → m < 2 → n < 2 → ids m ≡ ids n → m ≡ n
ids-distinct zero zero a b h = refl
ids-distinct zero (suc n) a b h =
    let letters : 83 ≡ 84 = ap last_of h in absurd (omega (arith, letters))
ids-distinct (suc m) zero a b h =
    let letters : 84 ≡ 83 = ap last_of h in absurd (omega (arith, letters))
ids-distinct (suc m) (suc n) a b h = omega (arith, a, b)

ids-valid : (m : ℕ) → m < 2 → is_valid_token_id (ids m) ≡ true
ids-valid zero h = first_valid
ids-valid (suc m) h = second_valid

pub ids-IsSource : IsSource 2 ids
ids-IsSource = record { distinct_ids = ids-distinct; valid_ids = ids-valid }

abbrev value : Text → Text → Text
value type hmac = codes "v" ++ hmac

abbrev entry : Text → VaultWriteRequest
entry hmac = record {
  entity_type = email;
  normalized_hmac = hmac;
  original_value = codes "v" ++ hmac;
}

abbrev pub vault : MemoryVault
vault = record { now = 100; sessions = []; failure = none; drawn = 0 }

pub email_is_valid : is_valid_entity_type email ≡ true
unfolding is_valid_entity_type aiprivacy_gateway.Common.text_eq
    aiprivacy_gateway.Tokenization.Grammar.mem_chars
email_is_valid = refl

entry-IsKnown : (hmac : Text) → IsKnown value (entry hmac)
entry-IsKnown hmac = record { valid = email_is_valid; known = refl }

resolve_many-get_or_create_many_example :
    (tokens : List Text) × (s' : MemoryVault) × (get_or_create_many ids 1 2
        (entry (codes "a") ∷ (entry (codes "b") ∷ []))
        60
        vault
      ≡ (ok tokens, s'))
    × IsKept 2 ids ids-IsSource value s'.drawn (session_at s' 1 2)
    × IsRestored
        (entry (codes "a") ∷ (entry (codes "b") ∷ []))
        tokens
        (resolve_many 1 2 tokens (at_time 150 s')).0
resolve_many-get_or_create_many_example =
    resolve_many-get_or_create_many 2 ids ids-IsSource value 1 2 (entry (codes "a"))
      (entry (codes "b") ∷ []) 60 vault refl (tt, tt, omega arith) (omega arith)
      (entry-IsKnown (codes "a"), (entry-IsKnown (codes "b"), tt)) (omega arith) 150 (omega arith)

get_or_create_many-isolated_example :
    (resolve_many 1 3
      (codes "t" ∷ [])
      (get_or_create_many ids 1 2 (entry (codes "a") ∷ []) 60 vault).1).0
    ≡ (resolve_many 1 3 (codes "t" ∷ []) vault).0
get_or_create_many-isolated_example =
    get_or_create_many-isolated ids 1 2 1 3 refl (entry (codes "a") ∷ []) (codes "t" ∷ []) 60 vault
