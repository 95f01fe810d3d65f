-- ===== src/Pipeline/Service/Stages.antt =====
-- What the stages of `SecurePipeline` (app/pipeline/service.py) leave behind when they pass.
use aiprivacy_gateway.Common.{
  ℕ, ◌≤◌, min, ◌≡◌, ◌≢◌, refl, sym, ap, ◌∙◌, subst, ◌⊎◌, inl, inr, ◌==◌, List, [], ◌∷◌, length, ltb,
  All, Option, none, some, Bool-cases, arith,
}
use aiprivacy_gateway.Domain.Errors.{ok, >>=-ok, Result-cases}
use aiprivacy_gateway.Domain.Entity.{DetectedEntity, block}
use aiprivacy_gateway.Domain.Summary.{PrivacySummary, merged_with, empty_summary}
use aiprivacy_gateway.Policy.Snapshot.{PolicySnapshot, action_for}
use aiprivacy_gateway.Tokenization.Selection.{select_entities}
use aiprivacy_gateway.Tokenization.Tokenizer.{TransformedText, transform}
use aiprivacy_gateway.Tokenization.Tokenizer.Refusals.{is_action-block}
use aiprivacy_gateway.Pipeline.Guards.{
  ChatMessage, Selections, enforce_message_sizes, entity_budget, entity_count,
  select_request_entities, enforce_entity_budget, reject_blocked, reject_blocked_entities,
}
use aiprivacy_gateway.Pipeline.Guards.Laws.{enforce_entity_budget-bound}
use aiprivacy_gateway.Outbound.Request.{
  ProtectedChatRequest, protected_chat_request, protected_chat_request-ok,
}
use aiprivacy_gateway.Outbound.Registry.{LlmProvider, get}
use aiprivacy_gateway.Pipeline.Service.{
  ChatRequest, PipelineParts, resolve_session_id, detect, guard_request, tokenize_messages, prepare,
  request_of, tokenize_request, admit,
}

enforce_message_sizes-bound :
    (messages : List ChatMessage) (max_chars : ℕ)
    → enforce_message_sizes messages max_chars ≡ ok tt
    → All (λ (m : ChatMessage). length m.content ≤ max_chars) messages
unfolding enforce_message_sizes
enforce_message_sizes-bound [] max_chars h = tt
enforce_message_sizes-bound (m ∷ messages) max_chars h =
    elim (Bool-cases (ltb max_chars (length m.content))) [
      | inl e ↦ absurd (let h' = rw e at h in cc)
      | inr e ↦
          let h' = rw e at h in
          (ground (arith, e), enforce_message_sizes-bound messages max_chars h')
    ]

-- A fresh session, or the one that was asked for, which is not nil.
abbrev pub IsSession : ℕ → Option ℕ → ℕ → Type 0
IsSession fresh requested session_id =
    ((requested ≡ none) × (session_id ≡ fresh)) ⊎ ((requested ≡ some session_id) × (session_id ≢ 0))

resolve_session_id-IsSession :
    (fresh : ℕ) (requested : Option ℕ) (session_id : ℕ)
    → resolve_session_id fresh requested ≡ ok session_id
    → IsSession fresh requested session_id
unfolding resolve_session_id
resolve_session_id-IsSession fresh none session_id h = inl (refl, cc)
resolve_session_id-IsSession fresh (some n) session_id h = elim (Bool-cases (n == 0)) [
  | inl e ↦ absurd (let h' = rw e at h in cc)
  | inr e ↦
      let h' = rw e at h in
      let same : n ≡ session_id = cc in inr (ap (λ k. some k) same, λ z. ground (arith, e, same, z))
]

abbrev Unblocked : PolicySnapshot → List DetectedEntity → Type 0
Unblocked policy selected =
    All (λ (e : DetectedEntity). action_for policy e.entity_type ≢ block) selected

reject_blocked-Unblocked :
    (policy : PolicySnapshot) (selected : List DetectedEntity)
    → reject_blocked policy selected ≡ ok tt
    → Unblocked policy selected
unfolding reject_blocked
reject_blocked-Unblocked policy [] h = tt
reject_blocked-Unblocked policy (e ∷ selected) h =
    elim (is_action-block (action_for policy e.entity_type)) [
      | inl (k, _) ↦ absurd (let h' = rw k at h in cc)
      | inr (k, free) ↦ let h' = rw k at h in (free, reject_blocked-Unblocked policy selected h')
    ]

reject_blocked_entities-Unblocked :
    (policy : PolicySnapshot) (selections : Selections)
    → reject_blocked_entities policy selections ≡ ok tt
    → All (Unblocked policy) selections
unfolding reject_blocked_entities
reject_blocked_entities-Unblocked policy [] h = tt
reject_blocked_entities-Unblocked policy (selected ∷ selections) h =
    elim (Result-cases (reject_blocked policy selected)) [
      | inl (u, e) ↦ (
        reject_blocked-Unblocked policy selected e,
        reject_blocked_entities-Unblocked policy selections (rw (e, reject_blocked_entities) at h),
      )
      | inr (_, e) ↦ absurd (let h' = rw (e, reject_blocked_entities) at h in cc)
    ]

module _ {V W : Type 0} (parts : PipelineParts V W) where
  -- The size of each message, its session and its policy.
  abbrev pub IsAdmitted : ℕ → ℕ → ChatRequest → ℕ → PolicySnapshot → Type 0
  IsAdmitted tenant_id fresh request session_id snapshot =
      All (λ (m : ChatMessage). length m.content ≤ parts.max_message_chars) request.messages
      × IsSession fresh request.session_id session_id
      × (parts.resolve_policy tenant_id request.provider request.model ≡ ok snapshot)

  pub admit-IsAdmitted :
      (tenant_id fresh : ℕ) (request : ChatRequest) (session_id : ℕ) (snapshot : PolicySnapshot)
      → admit parts tenant_id fresh request ≡ ok (session_id, snapshot)
      → IsAdmitted tenant_id fresh request session_id snapshot
  unfolding admit
  admit-IsAdmitted tenant_id fresh request session_id snapshot h =
      let (_, size, checks) =
        >>=-ok (enforce_message_sizes request.messages parts.max_message_chars) _
          (session_id, snapshot) h in
      let (session, resolved, checked) =
        >>=-ok (resolve_session_id fresh request.session_id) _ (session_id, snapshot) checks in
      let (policy, found, last) =
        >>=-ok (parts.resolve_policy tenant_id request.provider request.model)
          (λ p. ok (session, p)) (session_id, snapshot) checked in
      let same_session : session ≡ session_id = cc in
      let same_policy : policy ≡ snapshot = cc in
      (
        enforce_message_sizes-bound request.messages parts.max_message_chars size,
        resolve_session_id-IsSession fresh request.session_id session_id
            (resolved ∙ ap (λ x. ok x) same_session),
        found ∙ ap (λ x. ok x) same_policy,
      )

  module _ (snapshot : PolicySnapshot) where
    -- Each message with what the detector found in it, and what selection left of that, of which
    -- nothing is blocked.
    abbrev pub IsRead : List ChatMessage → List (List DetectedEntity) → Selections → Type 0
    IsRead [] [] [] = Unit
    IsRead (m ∷ messages) (entities ∷ detections) (selected ∷ selections) =
        (parts.detector m.content ≡ ok entities)
        × (select_entities m.content entities snapshot ≡ ok selected)
        × All (λ (e : DetectedEntity). action_for snapshot e.entity_type ≢ block) selected
        × IsRead messages detections selections
    IsRead _ _ _ = ⊥

    detect-IsRead :
        (messages : List ChatMessage) (detections : List (List DetectedEntity))
        (selections : Selections)
        → detect parts messages ≡ ok detections
        → select_request_entities messages detections snapshot ≡ ok selections
        → All (Unblocked snapshot) selections
        → IsRead messages detections selections
    unfolding detect select_request_entities
    detect-IsRead [] [] [] d s free = tt
    detect-IsRead [] [] (_ ∷ _) d s free = absurd (cc)
    detect-IsRead [] (_ ∷ _) selections d s free = absurd (cc)
    detect-IsRead (m ∷ messages) detections selections d s free =
        let (entities, found, d') = >>=-ok (parts.detector m.content) _ detections d in
        let (later, read, built) =
          >>=-ok (detect parts messages) (λ rest. ok (entities ∷ rest)) detections d' in
        let same_detections : entities ∷ later ≡ detections = cc in
        let s' =
          subst (λ ds. select_request_entities (m ∷ messages) ds snapshot ≡ ok selections)
            (sym same_detections) s in
        let (selected, chosen, s'') =
          >>=-ok (select_entities m.content entities snapshot) _ selections s' in
        let (others, rest, made) =
          >>=-ok (select_request_entities messages later snapshot) (λ xs. ok (selected ∷ xs))
            selections s'' in
        let same_selections : selected ∷ others ≡ selections = cc in
        let free' = subst (All (Unblocked snapshot)) (sym same_selections) free in
        subst (λ ds. IsRead (m ∷ messages) ds selections) same_detections
          (subst (λ xs. IsRead (m ∷ messages) (entities ∷ later) xs) same_selections
            (found, chosen, free'.0, detect-IsRead messages later others read rest free'.1))

    -- The provider is registered, the request was read, and the selected spans of all its messages fit both budgets.
    abbrev pub IsPrepared : ChatRequest → List (List DetectedEntity) → Type 0
    IsPrepared request detections =
        (selections : Selections) × (adapter : LlmProvider W) × (get parts.gateway.normalize
            parts.gateway.providers request.provider
          ≡ ok adapter)
        × IsRead request.messages detections selections
        × (entity_count selections ≤ min snapshot.max_entities parts.max_entities_per_request)

    guard_request-IsPrepared :
        (request : ChatRequest) (detections : List (List DetectedEntity)) (adapter : LlmProvider W)
        → get parts.gateway.normalize parts.gateway.providers request.provider ≡ ok adapter
        → detect parts request.messages ≡ ok detections
        → guard_request parts request.messages detections snapshot ≡ ok tt
        → IsPrepared request detections
    unfolding guard_request entity_budget
    guard_request-IsPrepared request detections adapter registered d h =
        let (selections, selected, checks) =
          >>=-ok (select_request_entities request.messages detections snapshot) _ tt h in
        let (_, within, free) =
          >>=-ok
            (enforce_entity_budget selections
              (entity_budget snapshot parts.max_entities_per_request))
            (λ _. reject_blocked_entities snapshot selections) tt checks in
        (
          selections,
          adapter,
          registered,
          detect-IsRead request.messages detections selections d selected
              (reject_blocked_entities-Unblocked snapshot selections free),
          enforce_entity_budget-bound selections
              (min snapshot.max_entities parts.max_entities_per_request) within,
        )

  module _ (tenant_id session_id : ℕ) (snapshot : PolicySnapshot) where
    -- The messages that the tokenizer made of the given ones, one by one, over the store of the
    -- vault that the one before left.
    abbrev pub IsTokenized :
        List ChatMessage → List (List DetectedEntity) → V → List ChatMessage → Type 0
    IsTokenized [] [] s [] = Unit
    IsTokenized (m ∷ messages) (entities ∷ detections) s (sent ∷ rest) =
        (sent.role ≡ m.role)
        × ((t : TransformedText) × ((transform parts.platform parts.key tenant_id session_id
                m.content parts.vault snapshot entities s).0
              ≡ ok t)
            × (sent.content ≡ t.text))
        × IsTokenized messages detections
            (transform parts.platform parts.key tenant_id session_id m.content parts.vault snapshot
              entities s).1
            rest
    IsTokenized _ _ _ _ = ⊥

    tokenize_messages-IsTokenized :
        (summary : PrivacySummary) (messages : List ChatMessage)
        (detections : List (List DetectedEntity)) (s : V) (done : List ChatMessage × PrivacySummary)
        → (tokenize_messages parts tenant_id session_id snapshot summary messages detections s).0
          ≡ ok done
        → IsTokenized messages detections s done.0
    unfolding tokenize_messages
    tokenize_messages-IsTokenized summary [] [] s done h =
        let same : ([], summary) ≡ done = cc in
        subst (λ (d : List ChatMessage × PrivacySummary). IsTokenized [] [] s d.0) same tt
    tokenize_messages-IsTokenized summary [] (_ ∷ _) s done h = absurd (cc)
    tokenize_messages-IsTokenized summary (_ ∷ _) [] s done h = absurd (cc)
    tokenize_messages-IsTokenized summary (m ∷ messages) (entities ∷ detections) s done h =
        let answer =
          transform parts.platform parts.key tenant_id session_id m.content parts.vault snapshot
            entities s in
        elim (Result-cases answer.0) [
          | inr (_, e) ↦ absurd (let h' = rw (e, tokenize_messages) at h in cc)
          | inl (t, e) ↦
              let h' = rw (e, tokenize_messages) at h in
              let (later, found, built) =
                >>=-ok
                  (tokenize_messages parts tenant_id session_id snapshot
                    (merged_with summary t.summary) messages detections answer.1).0
                  (λ (d : List ChatMessage × PrivacySummary).
                    ok (record { role = m.role; content = t.text } ∷ d.0, d.1))
                  done h' in
              let rest =
                tokenize_messages-IsTokenized (merged_with summary t.summary) messages detections
                  answer.1 later found in
              let same : (record { role = m.role; content = t.text } ∷ later.0, later.1) ≡ done =
                cc in
              subst
                (λ (d : List ChatMessage × PrivacySummary).
                  IsTokenized (m ∷ messages) (entities ∷ detections) s d.0)
                same (refl, (t, e, refl), rest)
        ]

    -- A request with the tokenized messages, under the aliases of the given one.
    abbrev pub IsProtected :
        ChatRequest → List (List DetectedEntity) → V → ProtectedChatRequest → Type 0
    IsProtected request detections s protected =
        IsTokenized request.messages detections s protected.messages
        × (protected.provider_alias ≡ request.provider)
        × (protected.model_alias ≡ request.model)
        × (protected.tenant_id ≡ tenant_id)
        × (protected.session_id ≡ session_id)
        × (protected.policy_version ≡ snapshot.version)

    pub prepare-IsPrepared :
        (request : ChatRequest) (detections : List (List DetectedEntity))
        → prepare parts tenant_id session_id snapshot request ≡ ok detections
        → IsPrepared snapshot request detections
    unfolding prepare
    prepare-IsPrepared request detections h =
        let (adapter, registered, checks) =
          >>=-ok (get parts.gateway.normalize parts.gateway.providers request.provider) _ detections
            h in
        let (found, detected, checked) =
          >>=-ok (detect parts request.messages) _ detections checks in
        let (passed, guarded, last) =
          >>=-ok (guard_request parts request.messages found snapshot) (λ _. ok found) detections
            checked in
        let same : found ≡ detections = cc in
        subst (IsPrepared snapshot request) same
          (guard_request-IsPrepared snapshot request found adapter registered detected guarded)

    pub tokenize_request-IsProtected :
        (request_id : ℕ) (request : ChatRequest) (detections : List (List DetectedEntity)) (s : V)
        (protected : ProtectedChatRequest) (summary : PrivacySummary)
        → (tokenize_request parts tenant_id session_id snapshot request_id request detections s).0
          ≡ ok (protected, summary)
        → IsProtected request detections s protected
    unfolding tokenize_request
    tokenize_request-IsProtected request_id request detections s protected summary h =
        let (done, tokenized, h') =
          >>=-ok
            (tokenize_messages parts tenant_id session_id snapshot empty_summary request.messages
              detections s).0
            _ (protected, summary) h in
        let built = request_of parts tenant_id session_id snapshot request_id request done.0 in
        let (sent, checked, last) =
          >>=-ok (protected_chat_request built) (λ p. ok (p, done.1)) (protected, summary) h' in
        let same : built ≡ protected = protected_chat_request-ok built sent checked ∙ cc in
        subst (IsProtected request detections s) same (
          tokenize_messages-IsTokenized empty_summary request.messages detections s done tokenized,
          refl,
          refl,
          refl,
          refl,
          refl,
        )
