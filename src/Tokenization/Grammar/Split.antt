-- ===== src/Tokenization/Grammar/Split.antt =====
-- `split` at the separator and its inverse.
use aiprivacy_gateway.Common.{
  ℕ, ◌≡◌, refl, ap, sym, ◌∙◌, true, false, List, [], ◌∷◌, ◌++◌, Text, all, ◌==◌, ==_iff, arith,
  Bool-cases, inl, inr,
}
use aiprivacy_gateway.Tokenization.Grammar.{split, onto_first, field_separator}
use aiprivacy_gateway.Tokenization.Grammar.Chars.{is_inner}

pub inner-ne_separator : (c : ℕ) → is_inner c ≡ true → (c == field_separator) ≡ false
unfolding is_inner
inner-ne_separator c h = ground arith

pub split-last : (field : Text) → all is_inner field ≡ true → split field ≡ field ∷ []
unfolding split
split-last [] h = refl
split-last (c ∷ field) h = ground (arith, inner-ne_separator c, split-last field)

pub split-append :
    (field rest : Text)
    → all is_inner field ≡ true
    → split (field ++ field_separator ∷ rest) ≡ field ∷ split rest
unfolding split
split-append [] rest h = refl
split-append (c ∷ field) rest h = ground (arith, inner-ne_separator c, split-append field rest)

-- The fields with the separator between them.
abbrev pub join : List Text → Text
join [] = []
join (field ∷ []) = field
join (field ∷ (next ∷ fields)) = field ++ field_separator ∷ join (next ∷ fields)

join-onto_first : (c : ℕ) (fields : List Text) → join (onto_first c fields) ≡ c ∷ join fields
join-onto_first c [] = refl
join-onto_first c (f ∷ []) = refl
join-onto_first c (f ∷ (g ∷ fields)) = refl

split-cons : (text : Text) → (f : Text) × (fs : List Text) × (split text ≡ f ∷ fs)
unfolding split
split-cons [] = ([], [], refl)
split-cons (c ∷ text) = elim (Bool-cases (c == field_separator)) [
  | inl e ↦ ([], split text, rw e)
  | inr e ↦ let (f, fs, p) = split-cons text in (c ∷ f, fs, rw (e, p))
]

join-cons_empty : (text : Text) → join ([] ∷ split text) ≡ field_separator ∷ join (split text)
join-cons_empty text = let (f, fs, p) = split-cons text in rw p

-- The fields determine the text.
pub join-split : (text : Text) → join (split text) ≡ text
unfolding split
join-split [] = refl
join-split (c ∷ text) = elim (Bool-cases (c == field_separator)) [
  | inl e ↦ rw e (
      join-cons_empty text
      ∙ rw (join-split text) (ap (λ (d : ℕ). d ∷ text) (sym ((==_iff c field_separator).0 e))))
  | inr e ↦ rw e (join-onto_first c (split text) ∙ ap (λ (t : Text). c ∷ t) (join-split text))
]
