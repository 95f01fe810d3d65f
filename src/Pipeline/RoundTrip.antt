-- ===== src/Pipeline/RoundTrip.antt =====
-- A text through the tokenizer (app/tokenization/tokenizer.py) and back through restoration
-- (app/restoration/pipeline.py), over the in-memory vault (app/vault/fakes.py).
use aiprivacy_gateway.Common.{
  ℕ, suc, ◌+◌, ◌<◌, ◌≤◌, ◌≡◌, refl, sym, ap, ◌∙◌, subst, inl, inr, Bool, true, false, List, [], ◌∷◌,
  Text, length, ◌==◌, ==_iff, All, some, none, Option-cases, List-cases,
}
use aiprivacy_gateway.Common.Dict.{dict_get}
use aiprivacy_gateway.Domain.Errors.{ok}
use aiprivacy_gateway.Domain.Entity.{DetectedEntity, IsValid, UnknownTokenAction}
use aiprivacy_gateway.Policy.Snapshot.{PolicySnapshot, action_for}
use aiprivacy_gateway.Tokenization.Grammar.Scan.{is_plain}
use aiprivacy_gateway.Tokenization.Platform.{Platform, Bytes}
use aiprivacy_gateway.Tokenization.Vault.{VaultWriteRequest, Pairwise, IsGranted, StandsFor}
use aiprivacy_gateway.Tokenization.Selection.{select_entities}
use aiprivacy_gateway.Tokenization.Tokenizer.{
  Plan, TransformedText, plan_for, requests, assign, pair_tokens, mint, transform,
}
use aiprivacy_gateway.Tokenization.Tokenizer.Assignment.{IsReversible}
use aiprivacy_gateway.Tokenization.Tokenizer.Outcome.{built, transform-built}
use aiprivacy_gateway.Restoration.{RestoredOutput, restore}
use aiprivacy_gateway.Restoration.Answers.{restore-splice}
use aiprivacy_gateway.Vault.Memory.{
  MemoryVault, scope_eq, purge, session_at, resolve_tokens, resolve_many, memory_vault,
}
use aiprivacy_gateway.Vault.Memory.Kept.{IsSource, IsKept}
use aiprivacy_gateway.Vault.Memory.RoundTrip.{IsKnown, at_time, get_or_create_many-IsGranted}

Pairwise-length :
    (P : VaultWriteRequest → Text → Type 0) (es : List VaultWriteRequest) (ts : List Text)
    → Pairwise P es ts
    → length ts ≡ length es
Pairwise-length P [] [] h = refl
Pairwise-length P [] (t ∷ ts) h = absurd h
Pairwise-length P (e ∷ es) [] h = absurd h
Pairwise-length P (e ∷ es) (t ∷ ts) h = ap suc (Pairwise-length P es ts h.1)

-- Without a failure the vault answers.
resolve_many-answers :
    (tenant_id session_id : ℕ) (s : MemoryVault)
    → s.failure ≡ none
    → (found : List Text → List (Text × Text)) × ((wanted : List Text)
        → (resolve_many tenant_id session_id wanted s).0 ≡ ok (found wanted))
unfolding resolve_many
resolve_many-answers tenant_id session_id s works =
    elim (Option-cases (dict_get scope_eq (tenant_id, session_id) s.sessions)) [
      | inl e ↦ (λ wanted. [], λ wanted. rw (works, resolve_many, e) refl)
      | inr (session, e) ↦ (
        λ wanted. resolve_tokens (purge s.now session).records wanted,
        λ wanted. rw (works, resolve_many, e) refl,
      )
    ]

module _ (lib : Platform) (key : Bytes) (tenant_id session_id : ℕ) (text : Text) (bound : ℕ)
    (ids : ℕ → Text) (source : IsSource bound ids) (value : Text → Text → Text) (s : MemoryVault)
    (works : s.failure ≡ none)
    (kept : IsKept bound ids source value s.drawn (session_at s tenant_id session_id)) where
  -- What minting the tokens of a plan gives, and what they stand for at a later time.
  record IsMinted (plan : Plan) (ttl_seconds later : ℕ) (tokens : List Text) (s' : MemoryVault)
      (found : List Text → List (Text × Text)) : Type 0 where
    pub minted :
        mint lib key tenant_id session_id text (memory_vault ids) ttl_seconds plan s
        ≡ (assign lib key tenant_id session_id text plan tokens, s')
    pub answers :
        (wanted : List Text)
        → (resolve_many tenant_id session_id wanted (at_time later s')).0 ≡ ok (found wanted)
    pub granted :
        Pairwise
          (IsGranted (StandsFor found))
          (requests lib key tenant_id session_id text plan)
          tokens

  mint_total :
      (plan : Plan) (ttl_seconds later : ℕ)
      → s.drawn + length (requests lib key tenant_id session_id text plan) ≤ bound
      → All (IsKnown value) (requests lib key tenant_id session_id text plan)
      → 1 ≤ ttl_seconds
      → later < s.now + ttl_seconds
      → (tokens : List Text) × (s' : MemoryVault) × (found : List Text → List (Text × Text))
        × IsMinted plan ttl_seconds later tokens s' found
  unfolding mint pair_tokens
  mint_total plan ttl_seconds later room known lasting before =
      elim (List-cases (requests lib key tenant_id session_id text plan)) [
        | inl e ↦
            let (found, answers) =
              resolve_many-answers tenant_id session_id (at_time later s) works in
            (
              [],
              s,
              found,
              record { minted = rw (e, mint) refl; answers = answers; granted = rw e tt },
            )
        | inr (r, rs, e) ↦
            let room' : s.drawn + length (r ∷ rs) ≤ bound =
              subst (λ (l : List VaultWriteRequest). s.drawn + length l ≤ bound) e room in
            let known' : All (IsKnown value) (r ∷ rs) = subst (All (IsKnown value)) e known in
            let (tokens, s', found, created, answers, granted) =
              get_or_create_many-IsGranted bound ids source value tenant_id session_id r rs
                ttl_seconds s works kept room' known' lasting later before in
            let paired : (length tokens == length (requests lib key tenant_id session_id text plan))
                ≡ true =
              (==_iff _ _).1 (
                Pairwise-length (IsGranted (StandsFor found)) (r ∷ rs) tokens granted
                ∙ ap length (sym e)) in
            (
              tokens,
              s',
              found,
              record {
                minted = rw (e, mint, created) (rw (paired, pair_tokens) refl);
                answers = answers;
                granted = rw e granted;
              },
            )
      ]

  module _ (policy : PolicySnapshot) (entities selected : List DetectedEntity)
      (valid : All IsValid entities) (done : select_entities text entities policy ≡ ok selected)
      (few : length selected ≤ policy.max_entities)
      (reversible : All
        (λ (e : DetectedEntity). IsReversible (action_for policy e.entity_type))
        selected)
      (plain : is_plain text ≡ true)
      (room : s.drawn
          + length (requests lib key tenant_id session_id text (plan_for policy selected))
        ≤ bound)
      (known : All
        (IsKnown value)
        (requests lib key tenant_id session_id text (plan_for policy selected)))
      (lasting : 1 ≤ policy.session_ttl_seconds) where
    -- For a text without left delimiters, valid detections, a policy that tokenizes or allows
    -- every selected span and permits as many, and the in-memory vault without a failure,
    -- with a session in order, enough valid and distinct identifiers, requests of valid types
    -- whose values are those of their fingerprints, and a time to live of at least 1: the
    -- tokenizer returns a text, and restoration of a response with this text, which comes
    -- before the mappings expire, within the length limit and with the name of a model,
    -- returns the original text, with no token unknown, under every policy for unknown
    -- tokens.
    pub restore-transform :
        (later : ℕ)
        → later < s.now + policy.session_ttl_seconds
        → (is_blank : Text → Bool) (model : Text) (slack : ℕ) (action : UnknownTokenAction)
        → is_blank model ≡ false
        → (out : TransformedText) × (s' : MemoryVault) × (restored : RestoredOutput) × (transform
              lib key tenant_id session_id text
              (memory_vault ids)
              policy
              entities
              s
            ≡ (ok out, s'))
          × ((restore is_blank
                (length out.text + slack)
                tenant_id
                session_id
                (memory_vault ids)
                action
                (record { content = some out.text; model = some model })
                (at_time later s')).0
              ≡ ok restored)
          × (restored.text ≡ text)
          × (restored.summary.unknown_tokens ≡ 0)
    restore-transform later before is_blank model slack action named =
        let (tokens, s', found, m) =
          mint_total (plan_for policy selected) policy.session_ttl_seconds later room known lasting
            before in
        let (out, cuts, _, spliced, made, ordered) =
          built lib key tenant_id session_id text policy entities selected valid done reversible
            (StandsFor found) tokens m.granted in
        let (restored, answer, same, counted) =
          restore-splice is_blank slack tenant_id session_id (memory_vault ids) action text found
            cuts plain made ordered out.text model (at_time later s') spliced named m.answers in
        (
          out,
          s',
          restored,
          transform-built lib key tenant_id session_id text policy entities selected valid done
              reversible (StandsFor found) tokens m.granted (memory_vault ids) s s' few m.minted,
          answer,
          same,
          counted,
        )
