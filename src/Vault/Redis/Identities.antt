-- ===== src/Vault/Redis/Identities.antt =====
-- The entries that `_deduplicate` of app/vault/redis_vault.py keeps, and the positions it gives.
use aiprivacy_gateway.Common.{
  ℕ, zero, suc, ◌≡◌, refl, sym, subst, ◌∙◌, inl, inr, false, List, [], ◌∷◌, ◌++◌, Text, length,
  length-append, append_assoc, All, AllPairs, All-imp, none, some, Bool-cases, Option-cases, arith,
}
use aiprivacy_gateway.Common.Dict.{dict_get, dict_set, dict_get-set_same, dict_get-set_other}
use aiprivacy_gateway.Tokenization.Vault.{VaultWriteRequest}
use aiprivacy_gateway.Vault.Memory.{pair_eq}
use aiprivacy_gateway.Vault.Memory.Kept.{pair_eq_iff}
use aiprivacy_gateway.Vault.Redis.{identity, deduplicate_from, deduplicate, get_elem?}

get_elem?-append :
    {A : Type 0} (xs ys : List A) (i : ℕ) (x : A)
    → get_elem? xs i ≡ some x
    → get_elem? (xs ++ ys) i ≡ some x
get_elem?-append [] ys i x h = absurd (cc)
get_elem?-append (y ∷ xs) ys zero x h = h
get_elem?-append (y ∷ xs) ys (suc i) x h = get_elem?-append xs ys i x h

get_elem?-length :
    {A : Type 0} (xs ys : List A) (x : A) → get_elem? (xs ++ x ∷ ys) (length xs) ≡ some x
get_elem?-length [] ys x = refl
get_elem?-length (y ∷ xs) ys x = get_elem?-length xs ys x

-- The entry at a position has some identity.
abbrev Holds : List VaultWriteRequest → ℕ → Text × Text → Type 0
Holds unique i key = (x : VaultWriteRequest) × (get_elem? unique i ≡ some x) × (identity x ≡ key)

-- One position for each entry, at which its identity stands.
abbrev pub Names : List VaultWriteRequest → List VaultWriteRequest → List ℕ → Type 0
Names unique [] [] = Unit
Names unique (e ∷ es) (i ∷ is) =
    ((x : VaultWriteRequest) × (get_elem? unique i ≡ some x) × (identity x ≡ identity e))
    × Names unique es is
Names unique _ _ = ⊥

abbrev Knows : List ((Text × Text) × ℕ) → List VaultWriteRequest → Type 0
Knows seen done =
    (key : Text × Text) (i : ℕ) → dict_get pair_eq key seen ≡ some i → Holds done i key

Knows-dict_set :
    (seen : List ((Text × Text) × ℕ)) (done : List VaultWriteRequest) (entry : VaultWriteRequest)
    → Knows seen done
    → Knows (dict_set pair_eq (identity entry) (length done) seen) (done ++ entry ∷ [])
Knows-dict_set seen done entry knows key i h = elim (Bool-cases (pair_eq (identity entry) key)) [
  | inl e ↦
      let same = (pair_eq_iff (identity entry) key).0 e in
      let here = dict_get-set_same pair_eq pair_eq_iff (identity entry) (length done) seen in
      let found =
        subst
          (λ k. dict_get pair_eq k (dict_set pair_eq (identity entry) (length done) seen) ≡ some i)
          (sym same) h in
      let place : length done ≡ i = cc in
      (
        entry,
        subst (λ j. get_elem? (done ++ entry ∷ []) j ≡ some entry) place
            (get_elem?-length done [] entry),
        same,
      )
  | inr e ↦
      let before =
        dict_get-set_other pair_eq pair_eq_iff (identity entry) key (length done) seen e in
      let (x, at, is_key) = knows key i (sym before ∙ h) in
      (x, get_elem?-append done (entry ∷ []) i x at, is_key)
]

abbrev Deduplicated : Type 0
Deduplicated = List VaultWriteRequest × List ℕ

deduplicate_from-new :
    (seen : List ((Text × Text) × ℕ)) (entry : VaultWriteRequest) (entries : List VaultWriteRequest)
    (count : ℕ)
    → dict_get pair_eq (identity entry) seen ≡ none
    → (
      entry
          ∷ (deduplicate_from (dict_set pair_eq (identity entry) count seen) (suc count) entries).0,
      count
          ∷ (deduplicate_from (dict_set pair_eq (identity entry) count seen) (suc count) entries).1,
    )
      ≡ deduplicate_from seen count (entry ∷ entries)
unfolding deduplicate_from
deduplicate_from-new seen entry entries count e = rw (e, deduplicate_from) refl

deduplicate_from-old :
    (seen : List ((Text × Text) × ℕ)) (entry : VaultWriteRequest) (entries : List VaultWriteRequest)
    (count index : ℕ)
    → dict_get pair_eq (identity entry) seen ≡ some index
    → ((deduplicate_from seen count entries).0, index ∷ (deduplicate_from seen count entries).1)
      ≡ deduplicate_from seen count (entry ∷ entries)
unfolding deduplicate_from
deduplicate_from-old seen entry entries count index e = rw (e, deduplicate_from) refl

deduplicate_from-Names :
    (seen : List ((Text × Text) × ℕ)) (done entries : List VaultWriteRequest) (count : ℕ)
    → count ≡ length done
    → Knows seen done
    → Names
        (done ++ (deduplicate_from seen count entries).0)
        entries
        (deduplicate_from seen count entries).1
unfolding deduplicate_from
deduplicate_from-Names seen done [] count n knows = tt
deduplicate_from-Names seen done (entry ∷ entries) count n knows =
    elim (Option-cases (dict_get pair_eq (identity entry) seen)) [
      | inl e ↦
          let seen' = dict_set pair_eq (identity entry) count seen in
          let size = length-append done (entry ∷ []) in
          let knows' : Knows seen' (done ++ entry ∷ []) =
            rw n (Knows-dict_set seen done entry knows) in
          let rest =
            deduplicate_from-Names seen' (done ++ entry ∷ []) entries (suc count)
              (omega (arith, size, n)) knows' in
          let later = (deduplicate_from seen' (suc count) entries).0 in
          subst (λ (d : Deduplicated). Names (done ++ d.0) (entry ∷ entries) d.1)
            (deduplicate_from-new seen entry entries count e)
            (
              (
                entry,
                subst (λ i. get_elem? (done ++ entry ∷ later) i ≡ some entry) (sym n)
                    (get_elem?-length done later entry),
                refl,
              ),
              subst (λ u. Names u entries (deduplicate_from seen' (suc count) entries).1)
                  (append_assoc done (entry ∷ []) later) rest,
            )
      | inr (index, e) ↦
          let (x, at, is_key) = knows (identity entry) index e in
          let later = (deduplicate_from seen count entries).0 in
          subst (λ (d : Deduplicated). Names (done ++ d.0) (entry ∷ entries) d.1)
            (deduplicate_from-old seen entry entries count index e)
            (
              (x, get_elem?-append done later index x at, is_key),
              deduplicate_from-Names seen done entries count n knows,
            )
    ]

abbrev pub Apart : VaultWriteRequest → VaultWriteRequest → Type 0
Apart a b = pair_eq (identity a) (identity b) ≡ false

dict_get-set_none :
    (seen : List ((Text × Text) × ℕ)) (key other : Text × Text) (i : ℕ)
    → dict_get pair_eq other (dict_set pair_eq key i seen) ≡ none
    → (pair_eq key other ≡ false) × (dict_get pair_eq other seen ≡ none)
dict_get-set_none seen key other i h = elim (Bool-cases (pair_eq key other)) [
  | inl e ↦
      let same = (pair_eq_iff key other).0 e in
      let here = dict_get-set_same pair_eq pair_eq_iff key i seen in
      let found =
        subst (λ k. dict_get pair_eq k (dict_set pair_eq key i seen) ≡ none) (sym same) h in
      absurd (cc)
  | inr e ↦ (e, sym (dict_get-set_other pair_eq pair_eq_iff key other i seen e) ∙ h)
]

deduplicate_from-Apart :
    (seen : List ((Text × Text) × ℕ)) (entries : List VaultWriteRequest) (count : ℕ)
    → AllPairs Apart (deduplicate_from seen count entries).0
      × All (λ x. dict_get pair_eq (identity x) seen ≡ none) (deduplicate_from seen count entries).0
unfolding deduplicate_from
deduplicate_from-Apart seen [] count = (tt, tt)
deduplicate_from-Apart seen (entry ∷ entries) count =
    elim (Option-cases (dict_get pair_eq (identity entry) seen)) [
      | inl e ↦
          let seen' = dict_set pair_eq (identity entry) count seen in
          let (apart, unseen) = deduplicate_from-Apart seen' entries (suc count) in
          let later = (deduplicate_from seen' (suc count) entries).0 in
          let parts =
            All-imp later (λ x h. dict_get-set_none seen (identity entry) (identity x) count h)
              unseen in
          subst
            (λ (d : Deduplicated).
              AllPairs Apart d.0 × All (λ x. dict_get pair_eq (identity x) seen ≡ none) d.0)
            (deduplicate_from-new seen entry entries count e)
            ((All-imp later (λ x h. h.0) parts, apart), (e, All-imp later (λ x h. h.1) parts))
      | inr (index, e) ↦
          subst
            (λ (d : Deduplicated).
              AllPairs Apart d.0 × All (λ x. dict_get pair_eq (identity x) seen ≡ none) d.0)
            (deduplicate_from-old seen entry entries count index e)
            (deduplicate_from-Apart seen entries count)
    ]

-- No two of the entries that deduplication keeps have the same type and fingerprint, and each
-- given entry has one position, in their order, at which an entry of its type and fingerprint is
-- kept.
pub deduplicate_sound :
    (entries : List VaultWriteRequest)
    → AllPairs Apart (deduplicate entries).0
      × Names (deduplicate entries).0 entries (deduplicate entries).1
unfolding deduplicate
deduplicate_sound entries = (
  (deduplicate_from-Apart [] entries 0).0,
  deduplicate_from-Names [] [] entries 0 refl (λ key i h. absurd (cc)),
)
