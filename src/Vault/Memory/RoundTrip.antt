-- ===== src/Vault/Memory/RoundTrip.antt =====
-- Creating mappings and resolving them in the in-memory vault (app/vault/fakes.py).
use aiprivacy_gateway.Common.{
  ℕ, ◌+◌, ◌≤◌, ◌<◌, ◌≡◌, ◌↔◌, refl, sym, ap, subst, ◌∙◌, inl, inr, true, List, [], ◌∷◌, any, length,
  Text, text_eq, text_eq_iff, ==_iff, All, none, some, Bool-cases, Option-cases, arith,
}
use aiprivacy_gateway.Common.Dict.{dict_get, dict_set, dict_get-set_same}
use aiprivacy_gateway.Domain.Errors.{Result, ok}
use aiprivacy_gateway.Tokenization.Grammar.{is_valid_entity_type}
use aiprivacy_gateway.Tokenization.Vault.{VaultWriteRequest, Pairwise, IsGranted, StandsFor}
use aiprivacy_gateway.Vault.Memory.{
  Session, scope_eq, MemoryVault, validate_entity_type, validate_entries, purge, find_record,
  get_or_create, Batch, get_or_create_all, session_at, create_locked, get_or_create_many,
  resolve_tokens, resolve_many,
}
use aiprivacy_gateway.Vault.Memory.Kept.{
  IsSource, IsKept, Resolves, find_record-eq, purge-IsKept, purge-Resolves, get_or_create-IsStep,
  IsTyped, get_or_create-IsTyped,
}

pub scope_eq_iff : (p q : ℕ × ℕ) → (scope_eq p q ≡ true) ↔ (p ≡ q)
scope_eq_iff (a, b) (c, d) = (
  λ h.
      let left = (==_iff a c).0 (ground (arith, h)) in
      let right = (==_iff b d).0 (ground (arith, h)) in rw (left, right) refl,
  λ h.
      rw ((==_iff a c).1 (ap (λ (p : ℕ × ℕ). p.0) h), (==_iff b d).1 (ap (λ (p : ℕ × ℕ). p.1) h))
        refl,
)

Pairwise-imp :
    {P Q : VaultWriteRequest → Text → Type 0} (es : List VaultWriteRequest) (ts : List Text)
    → ((e : VaultWriteRequest) (t : Text) → any (λ x. text_eq x t) ts ≡ true → P e t → Q e t)
    → Pairwise P es ts
    → Pairwise Q es ts
Pairwise-imp [] [] f h = tt
Pairwise-imp [] (t ∷ ts) f h = h
Pairwise-imp (e ∷ es) [] f h = h
Pairwise-imp (e ∷ es) (t ∷ ts) f h = (
  f e t (ground (arith, text_eq_iff t t)) h.0,
  Pairwise-imp es ts (λ e' t' inside p. f e' t' (ground (arith, inside)) p) h.1,
)

-- A request of a valid type, whose value is that of its fingerprint.
pub record IsKnown (value : Text → Text → Text) (entry : VaultWriteRequest) : Type 0 where
  pub valid : is_valid_entity_type entry.entity_type ≡ true
  pub known : entry.original_value ≡ value entry.entity_type entry.normalized_hmac

-- A vault whose clock has moved.
abbrev pub at_time : ℕ → MemoryVault → MemoryVault
at_time later s = record {
  now = later;
  sessions = s.sessions;
  failure = s.failure;
  drawn = s.drawn;
}

-- The tokens of a batch resolve to the values of their entries.
abbrev pub IsRestored : List VaultWriteRequest → List Text → Result (List (Text × Text)) → Type 0
IsRestored entries tokens answer =
    (found : List (Text × Text)) × (answer ≡ ok found)
    × Pairwise (λ e t. dict_get text_eq t found ≡ some e.original_value) entries tokens

module _ (bound : ℕ) (ids : ℕ → Text) (source : IsSource bound ids)
    (value : Text → Text → Text) where
  -- What a batch promises.
  record IsBatch (drawn : ℕ) (session : Session) (entries : List VaultWriteRequest) (expires_at : ℕ)
      (batch : Batch) (tokens : List Text) : Type 0 where
    pub returned : batch.tokens ≡ ok tokens
    pub kept : IsKept bound ids source value batch.drawn batch.session
    pub resolves :
        Pairwise
          (λ e t.
            Resolves bound ids source value batch.drawn batch.session t e.original_value expires_at)
          entries
          tokens
    pub typed : Pairwise (IsTyped bound ids source value) entries tokens
    pub others :
        (t v : Text)
        → Resolves bound ids source value drawn session t v expires_at
        → Resolves bound ids source value batch.drawn batch.session t v expires_at

  get_or_create_all_total :
      (drawn : ℕ) (session : Session) (entries : List VaultWriteRequest) (expires_at : ℕ)
      → IsKept bound ids source value drawn session
      → drawn + length entries ≤ bound
      → All (IsKnown value) entries
      → (tokens : List Text) × IsBatch drawn session entries expires_at
          (get_or_create_all ids session entries expires_at drawn)
          tokens
  unfolding get_or_create_all
  get_or_create_all_total drawn session [] expires_at kept room known =
      ([], record { returned = refl; kept = kept; resolves = tt; typed = tt; others = λ t v h. h })
  get_or_create_all_total drawn session (entry ∷ entries) expires_at kept room known =
      let (token, step) =
        get_or_create-IsStep bound ids source value drawn session entry expires_at kept
          (omega (arith, room)) known.0.valid known.0.known in
      let made = get_or_create ids session entry expires_at drawn in
      let (tokens, rest) =
        get_or_create_all_total made.drawn made.session entries expires_at step.kept
          (omega (arith, room, step.slow)) known.1 in
      (
        token ∷ tokens,
        rw (step.returned, get_or_create_all, rest.returned)
            (record {
              returned = refl;
              kept = rest.kept;
              resolves = (rest.others token entry.original_value step.resolves, rest.resolves);
              typed = (
                get_or_create-IsTyped bound ids source value drawn session entry expires_at token
                    kept (omega (arith, room)) known.0.valid step.returned,
                rest.typed,
              );
              others = λ t v h. rest.others t v (step.others t v h);
            }),
      )

  resolve_tokens-Resolves :
      (drawn : ℕ) (session : Session) (t v : Text) (expires_at : ℕ) (wanted : List Text)
      → Resolves bound ids source value drawn session t v expires_at
      → drawn ≤ bound
      → any (λ x. text_eq x t) wanted ≡ true
      → dict_get text_eq t (resolve_tokens session.records wanted) ≡ some v
  unfolding resolve_tokens
  resolve_tokens-Resolves drawn session t v expires_at [] r b h = absurd (cc)
  resolve_tokens-Resolves drawn session t v expires_at (x ∷ wanted) r b h =
      elim (Bool-cases (text_eq x t)) [
        | inl here ↦
            let (m, before, type, valid, rendered, e, found, own, original, _) = r in
            let same = (text_eq_iff x t).0 here in
            let got : find_record session.records x ≡ some (ids m, e) =
              ap (find_record session.records) (same ∙ rendered)
              ∙ find_record-eq bound ids source value session.records type m e
                  (omega (arith, before, b)) valid found in
            let own' : text_eq e.token x ≡ true = (text_eq_iff e.token x).1 (own ∙ sym same) in
            rw (got, resolve_tokens, own', here) (ap some original)
        | inr other ↦
            let rest =
              resolve_tokens-Resolves drawn session t v expires_at wanted r b
                (ground (arith, h, other)) in
            elim (Option-cases (find_record session.records x)) [
              | inl e ↦ rw (e, resolve_tokens) rest
              | inr ((id, e), q) ↦ elim (Bool-cases (text_eq e.token x)) [
                | inl y ↦ rw (q, resolve_tokens, y, other) rest
                | inr y ↦ rw (q, resolve_tokens, y) rest
              ]
            ]
      ]

  -- What the tokens of a batch stand for in a session.
  resolve_tokens-IsGranted :
      (drawn : ℕ) (session : Session) (expires_at : ℕ) (es : List VaultWriteRequest)
      (ts : List Text)
      → drawn ≤ bound
      → All (IsKnown value) es
      → Pairwise (IsTyped bound ids source value) es ts
      → Pairwise
          (λ e t. Resolves bound ids source value drawn session t e.original_value expires_at)
          es
          ts
      → Pairwise (IsGranted (StandsFor (resolve_tokens session.records))) es ts
  resolve_tokens-IsGranted drawn session expires_at [] [] b known typed resolves = tt
  resolve_tokens-IsGranted drawn session expires_at [] (t ∷ ts) b known typed resolves = typed
  resolve_tokens-IsGranted drawn session expires_at (e ∷ es) [] b known typed resolves = typed
  resolve_tokens-IsGranted drawn session expires_at (e ∷ es) (t ∷ ts) b known
        ((m, before, rendered), typed) resolves =
      (
        (
          ids m,
          known.0.valid,
          source.valid_ids m before,
          rendered,
          λ wanted inside.
              resolve_tokens-Resolves drawn session t e.original_value expires_at wanted resolves.0
                b inside,
        ),
        resolve_tokens-IsGranted drawn session expires_at es ts b known.1 typed resolves.1,
      )

  validate_entries-ok :
      (entries : List VaultWriteRequest) (ttl_seconds : ℕ)
      → All (IsKnown value) entries
      → 1 ≤ ttl_seconds
      → validate_entries entries ttl_seconds ≡ ok tt
  unfolding validate_entries validate_entity_type
  validate_entries-ok [] ttl_seconds known h = ground (arith, h)
  validate_entries-ok (e ∷ entries) ttl_seconds known h =
      rw known.0.valid (validate_entries-ok entries ttl_seconds known.1 h)

  module _ (tenant_id session_id : ℕ) (entry : VaultWriteRequest) (entries : List VaultWriteRequest)
      (ttl_seconds : ℕ) (s : MemoryVault) (works : s.failure ≡ none)
      (kept : IsKept bound ids source value s.drawn (session_at s tenant_id session_id))
      (room : s.drawn + length (entry ∷ entries) ≤ bound)
      (known : All (IsKnown value) (entry ∷ entries)) (lasting : 1 ≤ ttl_seconds) where
    abbrev batch : Batch
    batch =
        get_or_create_all ids (purge s.now (session_at s tenant_id session_id)) (entry ∷ entries)
          (s.now + ttl_seconds) s.drawn

    abbrev left : MemoryVault
    left = record {
      now = s.now;
      sessions = dict_set scope_eq (tenant_id, session_id) batch.session s.sessions;
      failure = s.failure;
      drawn = batch.drawn;
    }

    get_or_create_many_locked :
        (r : Result (List Text) × MemoryVault)
        → create_locked ids tenant_id session_id (entry ∷ entries) ttl_seconds s ≡ r
        → get_or_create_many ids tenant_id session_id (entry ∷ entries) ttl_seconds s ≡ r
    unfolding get_or_create_many
    get_or_create_many_locked r h =
        rw
          (
            works,
            get_or_create_many,
            validate_entries-ok (entry ∷ entries) ttl_seconds known lasting,
          )
          h

    create_locked-eq :
        create_locked ids tenant_id session_id (entry ∷ entries) ttl_seconds s
        ≡ (batch.tokens, left)
    unfolding create_locked
    create_locked-eq = refl

    resolve_many-eq :
        (later : ℕ) (wanted : List Text)
        → (resolve_many tenant_id session_id wanted (at_time later left)).0
          ≡ ok (resolve_tokens (purge later batch.session).records wanted)
    unfolding resolve_many
    resolve_many-eq later wanted =
        let got =
          dict_get-set_same scope_eq scope_eq_iff (tenant_id, session_id) batch.session
            s.sessions in
        rw (works, resolve_many, got) refl

    session_at-left : session_at left tenant_id session_id ≡ batch.session
    session_at-left =
        rw
          (
            dict_get-set_same scope_eq scope_eq_iff (tenant_id, session_id) batch.session
                s.sessions,
            session_at,
          )
          refl

    -- In the in-memory vault without a failure, for a session whose records and index are in
    -- order, at least one entry, valid types, a time to live of at least 1, values that
    -- belong to their fingerprints, and enough identifiers that are valid and distinct:
    -- creating the mappings returns tokens and leaves the session in order, and before they
    -- expire each token resolves to the value of its entry.
    pub resolve_many-get_or_create_many :
        (later : ℕ)
        → later < s.now + ttl_seconds
        → (tokens : List Text) × (s' : MemoryVault) × (get_or_create_many ids tenant_id session_id
              (entry ∷ entries)
              ttl_seconds
              s
            ≡ (ok tokens, s'))
          × IsKept bound ids source value s'.drawn (session_at s' tenant_id session_id)
          × IsRestored
              (entry ∷ entries)
              tokens
              (resolve_many tenant_id session_id tokens (at_time later s')).0
    resolve_many-get_or_create_many later before =
        let (tokens, done) =
          get_or_create_all_total s.drawn (purge s.now (session_at s tenant_id session_id))
            (entry ∷ entries) (s.now + ttl_seconds)
            (purge-IsKept bound ids source value s.drawn s.now (session_at s tenant_id session_id)
              kept)
            room known in
        let answer : (batch.tokens, left) ≡ (ok tokens, left) =
          ap (λ (r : Result (List Text)). (r, left)) done.returned in
        (
          tokens,
          left,
          get_or_create_many_locked (ok tokens, left) (create_locked-eq ∙ answer),
          subst (λ (session : Session). IsKept bound ids source value batch.drawn session)
              (sym session_at-left) done.kept,
          (
            resolve_tokens (purge later batch.session).records tokens,
            resolve_many-eq later tokens,
            Pairwise-imp (entry ∷ entries) tokens
                (λ e t inside r.
                  resolve_tokens-Resolves batch.drawn (purge later batch.session) t e.original_value
                    (s.now + ttl_seconds) tokens
                    (purge-Resolves bound ids source value batch.drawn later batch.session t
                      e.original_value (s.now + ttl_seconds) before r)
                    done.kept.2 inside)
                done.resolves,
          ),
        )

    -- The tokens are those of their entries' types, and stand for the entries' values in every
    -- later answer before they expire.
    pub get_or_create_many-IsGranted :
        (later : ℕ)
        → later < s.now + ttl_seconds
        → (tokens : List Text) × (s' : MemoryVault) × (found : List Text → List (Text × Text))
          × (get_or_create_many ids tenant_id session_id (entry ∷ entries) ttl_seconds s
              ≡ (ok tokens, s'))
          × ((wanted : List Text)
              → (resolve_many tenant_id session_id wanted (at_time later s')).0 ≡ ok (found wanted))
          × Pairwise (IsGranted (StandsFor found)) (entry ∷ entries) tokens
    get_or_create_many-IsGranted later before =
        let (tokens, done) =
          get_or_create_all_total s.drawn (purge s.now (session_at s tenant_id session_id))
            (entry ∷ entries) (s.now + ttl_seconds)
            (purge-IsKept bound ids source value s.drawn s.now (session_at s tenant_id session_id)
              kept)
            room known in
        (
          tokens,
          left,
          resolve_tokens (purge later batch.session).records,
          get_or_create_many_locked (ok tokens, left)
              (create_locked-eq ∙ ap (λ (r : Result (List Text)). (r, left)) done.returned),
          resolve_many-eq later,
          resolve_tokens-IsGranted batch.drawn (purge later batch.session) (s.now + ttl_seconds)
              (entry ∷ entries) tokens done.kept.2 known done.typed
              (Pairwise-imp (entry ∷ entries) tokens
                (λ e t inside r.
                  purge-Resolves bound ids source value batch.drawn later batch.session t
                    e.original_value (s.now + ttl_seconds) before r)
                done.resolves),
        )
