-- ===== src/Vault/Memory/Kept.antt =====
-- What every call of the in-memory vault (app/vault/fakes.py) keeps in a session.
use aiprivacy_gateway.Common.{
  ℕ, suc, ◌+◌, ◌≤◌, ◌<◌, ◌≡◌, ◌↔◌, refl, sym, ap, ◌∙◌, inl, inr, true, false, not, any, Text,
  text_eq, text_eq_iff, keep, All, All-imp, All-keep, none, some, Bool-cases, Option-cases, arith,
}
use aiprivacy_gateway.Common.Dict.{
  dict_get, dict_set, dict_get-set_same, dict_get-set_other, dict_get-All, All-dict_set,
  dict_get-keep,
}
use aiprivacy_gateway.Domain.Errors.{ok}
use aiprivacy_gateway.Tokenization.Grammar.{
  is_valid_entity_type, is_valid_token_id, render_token, format_token, parse_token,
}
use aiprivacy_gateway.Tokenization.Grammar.Parse.{parse_token-render_token}
use aiprivacy_gateway.Tokenization.Vault.{VaultWriteRequest}
use aiprivacy_gateway.Vault.Memory.{
  Entry, Records, Session, pair_eq, is_unexpired, purge, Made, extended, find_record, found_in,
  mint, get_or_create,
}

pub pair_eq_iff : (p q : Text × Text) → (pair_eq p q ≡ true) ↔ (p ≡ q)
pair_eq_iff (a, b) (c, d) = (
  λ h.
      let left = (text_eq_iff a c).0 (ground (arith, h)) in
      let right = (text_eq_iff b d).0 (ground (arith, h)) in rw (left, right) refl,
  λ h.
      rw
        (
          (text_eq_iff a c).1 (ap (λ (p : Text × Text). p.0) h),
          (text_eq_iff b d).1 (ap (λ (p : Text × Text). p.1) h),
        )
        refl,
)

-- The first `bound` identifiers are valid, and none of them comes twice.
pub record IsSource (bound : ℕ) (ids : ℕ → Text) : Type 0 where
  pub distinct_ids : (m n : ℕ) → m < bound → n < bound → ids m ≡ ids n → m ≡ n
  pub valid_ids : (m : ℕ) → m < bound → is_valid_token_id (ids m) ≡ true

module _ (bound : ℕ) (ids : ℕ → Text) (source : IsSource bound ids)
    (value : Text → Text → Text) where
  -- A record with this identifier holds the token and the value.
  abbrev Agrees : Text → Text → Text → Text × Entry → Type 0
  Agrees id token original r =
      text_eq r.0 id ≡ true → (r.1.token ≡ token) × (r.1.original_value ≡ original)

  -- An entry of the index is a token of a drawn identifier, and its record agrees with it.
  abbrev IsIndexed : ℕ → Records → (Text × Text) × Text → Type 0
  IsIndexed drawn records p =
      (m : ℕ) × (m < drawn)
      × (is_valid_entity_type p.0.0 ≡ true)
      × (p.1 ≡ render_token p.0.0 (ids m))
      × All (Agrees (ids m) p.1 (value p.0.0 p.0.1)) records

  -- A record stands under a drawn identifier.
  abbrev IsDrawn : ℕ → Text × Entry → Type 0
  IsDrawn drawn r = (m : ℕ) × (m < drawn) × (r.0 ≡ ids m)

  abbrev pub IsKept : ℕ → Session → Type 0
  IsKept drawn session =
      All (IsIndexed drawn session.records) session.index
      × All (IsDrawn drawn) session.records
      × (drawn ≤ bound)

  -- A token that resolves to a value until a time.
  abbrev pub Resolves : ℕ → Session → Text → Text → ℕ → Type 0
  Resolves drawn session token original expires_at =
      (m : ℕ) × (m < drawn)
      × (type : Text) × (is_valid_entity_type type ≡ true)
      × (token ≡ render_token type (ids m))
      × (e : Entry) × (dict_get text_eq (ids m) session.records ≡ some e)
      × (e.token ≡ token)
      × (e.original_value ≡ original)
      × (e.expires_at ≡ expires_at)

  parse_own :
      (type : Text) (m : ℕ)
      → m < bound
      → is_valid_entity_type type ≡ true
      → parse_token (render_token type (ids m))
        ≡ some (record { entity_type = type; token_id = ids m })
  parse_own type m b h = parse_token-render_token type (ids m) h (source.valid_ids m b)

  pub find_record-eq :
      (records : Records) (type : Text) (m : ℕ) (e : Entry)
      → m < bound
      → is_valid_entity_type type ≡ true
      → dict_get text_eq (ids m) records ≡ some e
      → find_record records (render_token type (ids m)) ≡ some (ids m, e)
  unfolding find_record
  find_record-eq records type m e b h g = rw (parse_own type m b h, find_record, g) refl

  find_record-none :
      (records : Records) (type : Text) (m : ℕ)
      → m < bound
      → is_valid_entity_type type ≡ true
      → dict_get text_eq (ids m) records ≡ none
      → find_record records (render_token type (ids m)) ≡ none
  unfolding find_record
  find_record-none records type m b h g = rw (parse_own type m b h, find_record, g) refl

  -- Purging keeps both.
  pub purge-IsKept :
      (drawn now : ℕ) (session : Session) → IsKept drawn session → IsKept drawn (purge now session)
  unfolding purge
  purge-IsKept drawn now session kept =
      let live = keep (λ (r : Text × Entry). is_unexpired now r.1) session.records in
      let index : All (IsIndexed drawn live) session.index =
        All-imp session.index
          (λ p (m, drawn_before, valid, token, agrees).
            (m, drawn_before, valid, token, All-keep _ _ session.records agrees))
          kept.0 in
      let records : All (IsDrawn drawn) live = All-keep (IsDrawn drawn) _ session.records kept.1 in
      elim (Bool-cases (any (λ (r : Text × Entry). not (is_unexpired now r.1)) session.records)) [
        | inl e ↦ rw e (All-keep (IsIndexed drawn live) _ session.index index, records, kept.2)
        | inr e ↦ rw e (index, records, kept.2)
      ]

  purge-records :
      (now : ℕ) (session : Session)
      → (purge now session).records
        ≡ keep (λ (r : Text × Entry). is_unexpired now r.1) session.records
  unfolding purge
  purge-records now session =
      elim (Bool-cases (any (λ (r : Text × Entry). not (is_unexpired now r.1)) session.records)) [
        | inl e ↦ rw e refl
        | inr e ↦ rw e refl
      ]

  pub purge-Resolves :
      (drawn now : ℕ) (session : Session) (token original : Text) (expires_at : ℕ)
      → now < expires_at
      → Resolves drawn session token original expires_at
      → Resolves drawn (purge now session) token original expires_at
  purge-Resolves drawn now session token original expires_at h
        (m, a, type, b, c, e, found, f, g, i) =
      let live : is_unexpired now e ≡ true = ground (arith, h, i) in
      (
        m,
        a,
        type,
        b,
        c,
        e,
        ap (dict_get text_eq (ids m)) (purge-records now session)
            ∙ dict_get-keep text_eq text_eq_iff (is_unexpired now) (ids m) e session.records live
                found,
        f,
        g,
        i,
      )

  format_own :
      (type : Text) (m : ℕ)
      → m < bound
      → is_valid_entity_type type ≡ true
      → format_token type (ids m) ≡ ok (render_token type (ids m))
  unfolding format_token
  format_own type m b h = rw (h, source.valid_ids m b) refl

  fresh_id : (m drawn : ℕ) → m < drawn → drawn < bound → text_eq (ids drawn) (ids m) ≡ false
  fresh_id m drawn h b = elim (Bool-cases (text_eq (ids drawn) (ids m))) [
    | inr e ↦ e
    | inl e ↦ absurd (
        omega (
          arith,
          h,
          source.distinct_ids drawn m b (omega (arith, h, b))
              ((text_eq_iff (ids drawn) (ids m)).0 e),
        ))
  ]

  -- What one call promises: a token that resolves, and nothing lost.
  pub record IsStep (drawn : ℕ) (session : Session) (original : Text) (expires_at : ℕ) (made : Made)
      (token : Text) : Type 0 where
    pub returned : made.token ≡ ok token
    pub grown : drawn ≤ made.drawn
    pub slow : made.drawn ≤ drawn + 1
    pub kept : IsKept made.drawn made.session
    pub resolves : Resolves made.drawn made.session token original expires_at
    pub others :
        (t v : Text)
        → Resolves drawn session t v expires_at
        → Resolves made.drawn made.session t v expires_at

  -- A new record in place of what stood under its identifier leaves every entry of the index right.
  set-IsIndexed :
      (drawn drawn' : ℕ) (session : Session) (id : Text) (e : Entry)
      → drawn ≤ drawn'
      → ((p : (Text × Text) × Text)
          → IsIndexed drawn session.records p
          → (m : ℕ) → m < drawn
          → text_eq id (ids m) ≡ true
          → All (Agrees (ids m) p.1 (value p.0.0 p.0.1)) session.records
          → (e.token ≡ p.1) × (e.original_value ≡ value p.0.0 p.0.1))
      → All (IsIndexed drawn session.records) session.index
      → All (IsIndexed drawn' (dict_set text_eq id e session.records)) session.index
  set-IsIndexed drawn drawn' session id e grows right kept =
      All-imp session.index
        (λ p own.
          let (m, before, valid, token, agrees) = own in
          (
            m,
            omega (arith, before, grows),
            valid,
            token,
            All-dict_set text_eq text_eq_iff (Agrees (ids m) p.1 (value p.0.0 p.0.1)) id e
                session.records agrees (λ same. right p own m before same agrees),
          ))
        kept

  mint-IsStep :
      (drawn : ℕ) (session : Session) (entry : VaultWriteRequest) (expires_at : ℕ)
      → IsKept drawn session
      → drawn < bound
      → is_valid_entity_type entry.entity_type ≡ true
      → entry.original_value ≡ value entry.entity_type entry.normalized_hmac
      → IsStep drawn session entry.original_value expires_at
          (mint ids session entry expires_at drawn)
          (render_token entry.entity_type (ids drawn))
  unfolding mint
  mint-IsStep drawn session entry expires_at kept room valid known =
      let token = render_token entry.entity_type (ids drawn) in
      let new : Entry = record {
        token = token;
        entity_type = entry.entity_type;
        original_value = entry.original_value;
        expires_at = expires_at;
      } in
      let records = dict_set text_eq (ids drawn) new session.records in
      let own : All (Agrees (ids drawn) token (value entry.entity_type entry.normalized_hmac))
          records =
        All-dict_set text_eq text_eq_iff _ (ids drawn) new session.records
          (All-imp session.records
            (λ r (m, before, at) same. absurd (
              omega (
                arith,
                before,
                source.distinct_ids m drawn (omega (arith, before, room)) room
                    (sym at ∙ (text_eq_iff r.0 (ids drawn)).0 same),
              )))
            kept.1)
          (λ same. (refl, known)) in
      let index =
        set-IsIndexed drawn (suc drawn) session (ids drawn) new (omega arith)
          (λ p i m before same agrees. absurd (
            omega (
              arith,
              before,
              source.distinct_ids drawn m room (omega (arith, before, room))
                  ((text_eq_iff (ids drawn) (ids m)).0 same),
            )))
          kept.0 in
      rw (format_own entry.entity_type drawn room valid, mint)
        (record {
          returned = refl;
          grown = omega arith;
          slow = omega arith;
          kept = (
            All-dict_set pair_eq pair_eq_iff (IsIndexed (suc drawn) records)
                (entry.entity_type, entry.normalized_hmac) token session.index index
                (drawn, omega arith, valid, refl, own),
            All-dict_set text_eq text_eq_iff (IsDrawn (suc drawn)) (ids drawn) new session.records
                (All-imp session.records (λ r (m, before, at). (m, omega (arith, before), at))
                  kept.1)
                (drawn, omega arith, refl),
            omega (arith, room),
          );
          resolves = (
            drawn,
            omega arith,
            entry.entity_type,
            valid,
            refl,
            new,
            dict_get-set_same text_eq text_eq_iff (ids drawn) new session.records,
            refl,
            refl,
            refl,
          );
          others = λ t v (m, before, type, a, b, e, found, f, g, i). (
            m,
            omega (arith, before),
            type,
            a,
            b,
            e,
            dict_get-set_other text_eq text_eq_iff (ids drawn) (ids m) new session.records
                  (fresh_id m drawn before room)
                ∙ found,
            f,
            g,
            i,
          );
        })

  -- What was found through the index: a drawn identifier and its record, with the value.
  found_in-inv :
      (drawn : ℕ) (session : Session) (entry : VaultWriteRequest) (existing id : Text) (old : Entry)
      → IsKept drawn session
      → found_in session entry ≡ some (existing, (id, old))
      → (m : ℕ) × (m < drawn)
        × (is_valid_entity_type entry.entity_type ≡ true)
        × (existing ≡ render_token entry.entity_type (ids m))
        × (id ≡ ids m)
        × (dict_get text_eq (ids m) session.records ≡ some old)
        × (old.token ≡ existing)
        × (old.original_value ≡ value entry.entity_type entry.normalized_hmac)
  found_in-inv drawn session entry existing id old kept h =
      elim (Option-cases
        (dict_get pair_eq (entry.entity_type, entry.normalized_hmac) session.index)) [
          | inl e ↦ absurd (let h' = rw (e, found_in) at h in cc)
          | inr (token, e) ↦
              let (m, before, valid, rendered, agrees) =
                dict_get-All pair_eq pair_eq_iff (IsIndexed drawn session.records)
                  (entry.entity_type, entry.normalized_hmac) token session.index kept.0 e in
              elim (Option-cases (dict_get text_eq (ids m) session.records)) [
                | inl g ↦
                    let none_found =
                      ap (find_record session.records) rendered
                      ∙ find_record-none session.records entry.entity_type m
                          (omega (arith, before, kept.2)) valid g in
                    absurd (let h' = rw (e, found_in, none_found) at h in cc)
                | inr (r, g) ↦
                    let one_found =
                      ap (find_record session.records) rendered
                      ∙ find_record-eq session.records entry.entity_type m r
                          (omega (arith, before, kept.2)) valid g in
                    let h' = rw (e, found_in, one_found) at h in
                    let same_token : token ≡ existing = cc in
                    let same_id : ids m ≡ id = cc in
                    let same_record : r ≡ old = cc in
                    let holds =
                      dict_get-All text_eq text_eq_iff
                        (Agrees (ids m) token (value entry.entity_type entry.normalized_hmac))
                        (ids m) r session.records agrees g ((text_eq_iff (ids m) (ids m)).1 refl) in
                    (
                      m,
                      before,
                      valid,
                      sym same_token ∙ rendered,
                      sym same_id,
                      g ∙ ap some same_record,
                      ap (λ (x : Entry). x.token) (sym same_record) ∙ holds.0 ∙ same_token,
                      ap (λ (x : Entry). x.original_value) (sym same_record) ∙ holds.1,
                    )
              ]
        ]

  reuse-IsStep :
      (drawn : ℕ) (session : Session) (entry : VaultWriteRequest) (expires_at : ℕ)
      (existing id : Text) (old : Entry)
      → IsKept drawn session
      → entry.original_value ≡ value entry.entity_type entry.normalized_hmac
      → found_in session entry ≡ some (existing, (id, old))
      → IsStep drawn session entry.original_value expires_at
          (get_or_create ids session entry expires_at drawn)
          existing
  unfolding get_or_create
  reuse-IsStep drawn session entry expires_at existing id old kept known h =
      let (m, before, valid, rendered, at, got, own_token, own_value) =
        found_in-inv drawn session entry existing id old kept h in
      let new = extended old expires_at in
      let index =
        set-IsIndexed drawn drawn session (ids m) new (omega arith)
          (λ p i n n_before same agrees.
            dict_get-All text_eq text_eq_iff (Agrees (ids n) p.1 (value p.0.0 p.0.1)) (ids m) old
              session.records agrees got same)
          kept.0 in
      rw (h, get_or_create, at)
        (record {
          returned = refl;
          grown = omega arith;
          slow = omega arith;
          kept = (
            index,
            All-dict_set text_eq text_eq_iff (IsDrawn drawn) (ids m) new session.records kept.1
                (m, before, refl),
            kept.2,
          );
          resolves = (
            m,
            before,
            entry.entity_type,
            valid,
            rendered,
            new,
            dict_get-set_same text_eq text_eq_iff (ids m) new session.records,
            own_token,
            own_value ∙ sym known,
            refl,
          );
          others = λ t v (n, n_before, type, a, b, e, found, f, g, i).
              elim (Bool-cases (text_eq (ids m) (ids n))) [
                | inr apart ↦ (
                  n,
                  n_before,
                  type,
                  a,
                  b,
                  e,
                  dict_get-set_other text_eq text_eq_iff (ids m) (ids n) new session.records apart
                      ∙ found,
                  f,
                  g,
                  i,
                )
                | inl same ↦
                    let ids_same = (text_eq_iff (ids m) (ids n)).0 same in
                    let entries_same : some old ≡ some e =
                      sym got ∙ ap (λ k. dict_get text_eq k session.records) ids_same ∙ found in
                    let entry_same : old ≡ e = cc in
                    (
                      n,
                      n_before,
                      type,
                      a,
                      b,
                      new,
                      ap (λ k. dict_get text_eq k (dict_set text_eq (ids m) new session.records))
                            (sym ids_same)
                          ∙ dict_get-set_same text_eq text_eq_iff (ids m) new session.records,
                      ap (λ (x : Entry). x.token) entry_same ∙ f,
                      ap (λ (x : Entry). x.original_value) entry_same ∙ g,
                      refl,
                    )
              ];
        })

  -- A call for an entry of a valid type, whose value is that of its fingerprint.
  pub get_or_create-IsStep :
      (drawn : ℕ) (session : Session) (entry : VaultWriteRequest) (expires_at : ℕ)
      → IsKept drawn session
      → drawn < bound
      → is_valid_entity_type entry.entity_type ≡ true
      → entry.original_value ≡ value entry.entity_type entry.normalized_hmac
      → (token : Text) × IsStep drawn session entry.original_value expires_at
          (get_or_create ids session entry expires_at drawn)
          token
  unfolding get_or_create
  get_or_create-IsStep drawn session entry expires_at kept room valid known =
      elim (Option-cases (found_in session entry)) [
        | inl e ↦ (
          render_token entry.entity_type (ids drawn),
          rw (e, get_or_create) (mint-IsStep drawn session entry expires_at kept room valid known),
        )
        | inr ((existing, (id, old)), e) ↦
            (existing, reuse-IsStep drawn session entry expires_at existing id old kept known e)
      ]

  -- The token that a call returns is one of the entry's type.
  abbrev pub IsTyped : VaultWriteRequest → Text → Type 0
  IsTyped entry token = (m : ℕ) × (m < bound) × (token ≡ render_token entry.entity_type (ids m))

  pub get_or_create-IsTyped :
      (drawn : ℕ) (session : Session) (entry : VaultWriteRequest) (expires_at : ℕ) (token : Text)
      → IsKept drawn session
      → drawn < bound
      → is_valid_entity_type entry.entity_type ≡ true
      → (get_or_create ids session entry expires_at drawn).token ≡ ok token
      → IsTyped entry token
  unfolding get_or_create mint
  get_or_create-IsTyped drawn session entry expires_at token kept room valid h =
      elim (Option-cases (found_in session entry)) [
        | inl e ↦
            let h' =
              rw (e, get_or_create, format_own entry.entity_type drawn room valid, mint) at h in
            (
              drawn,
              room,
              let same : render_token entry.entity_type (ids drawn) ≡ token = cc in sym same,
            )
        | inr ((existing, (id, old)), e) ↦
            let (m, before, _, rendered, _, _, _, _) =
              found_in-inv drawn session entry existing id old kept e in
            let h' = rw (e, get_or_create) at h in
            let same : existing ≡ token = cc in
            (m, omega (arith, before, kept.2), sym same ∙ rendered)
      ]
