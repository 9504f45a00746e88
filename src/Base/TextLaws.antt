-- ===== src/Base/TextLaws.antt =====
-- Facts about byte texts that several components need.
use nats_web_gateway.Base.{
  All, Bool-cases, List, List-cases, [], ap, arith, false, inl, inr, refl, some, true, ℕ, ◌++◌,
  ◌==◌, ◌||◌, ◌↔◌, ◌∙◌, ◌∷◌, ◌≡◌, ◌≢◌,
}
use nats_web_gateway.Base.Text.{Text, contains_byte, cut, has_prefix, is_empty, split}

-- The text does not hold the byte.
abbrev pub Without : ℕ → Text → Type 0
Without b s = All (λ c. c ≢ b) s

-- A separator that neither head holds splits a text in one way.
pub separator_injective :
    (b : ℕ) (s s' t t' : Text)
    → Without b s
    → Without b s'
    → s ++ b ∷ t ≡ s' ++ b ∷ t'
    → (s ≡ s') × (t ≡ t')
separator_injective b [] [] t t' h h' e = ground arith
separator_injective b [] (c ∷ s') t t' h h' e = ground arith
separator_injective b (c ∷ s) [] t t' h h' e = ground arith
separator_injective b (c ∷ s) (c' ∷ s') t t' (_, h) (_, h') e =
    ground (arith, separator_injective b s s' t t' h h')

pub cut-append : (b : ℕ) (s t : Text) → Without b s → cut (s ++ b ∷ t) b ≡ some (s, t)
unfolding cut
cut-append b [] t h = ground arith
cut-append b (c ∷ s) t (p, h) = ground (arith, cut-append b s t h)

pub contains_byte-append :
    (b : ℕ) (s t : Text) → contains_byte b (s ++ t) ≡ (contains_byte b s || contains_byte b t)
unfolding contains_byte
contains_byte-append b [] t = refl
contains_byte-append b (c ∷ s) t = ground (arith, contains_byte-append b s t)

pub contains_byte_iff : (b : ℕ) (s : Text) → (contains_byte b s ≡ false) ↔ Without b s
unfolding contains_byte
contains_byte_iff b [] = (λ _. tt, λ _. refl)
contains_byte_iff b (c ∷ s) = ground (arith, contains_byte_iff b s)

-- `strings.Join(parts, sep)` for a separator of one byte.
unfoldable pub join : ℕ → List Text → Text
join sep [] = []
join sep (part ∷ []) = part
join sep (part ∷ next ∷ parts) = part ++ sep ∷ join sep (next ∷ parts)

pub split-append :
    (sep : ℕ) (s t : Text) → Without sep s → split (s ++ sep ∷ t) sep ≡ s ∷ split t sep
unfolding split
split-append sep [] t h = ground arith
split-append sep (c ∷ s) t (p, h) = ground (arith, split-append sep s t h)

pub split_of_Without : (sep : ℕ) (s : Text) → Without sep s → split s sep ≡ s ∷ []
unfolding split
split_of_Without sep [] h = refl
split_of_Without sep (c ∷ s) (p, h) = ground (arith, split_of_Without sep s h)

-- Parts without the separator are what splitting their join gives.
pub split-join :
    (sep : ℕ) (part : Text) (parts : List Text)
    → All (Without sep) (part ∷ parts)
    → split (join sep (part ∷ parts)) sep ≡ part ∷ parts
unfolding join
split-join sep part [] (h, _) = split_of_Without sep part h
split-join sep part (next ∷ parts) (h, hs) =
    split-append sep part (join sep (next ∷ parts)) h ∙ ap (◌∷◌ part) (split-join sep next parts hs)

pub has_prefix-append : (s t : Text) → has_prefix (s ++ t) s ≡ true
unfolding has_prefix
has_prefix-append [] t = refl
has_prefix-append (c ∷ s) t = ground (arith, has_prefix-append s t)

-- A prefix that ends at the separator is the whole part before it.
pub has_prefix-separated :
    (b : ℕ) (s t rest : Text)
    → Without b s
    → Without b t
    → has_prefix (s ++ b ∷ rest) (t ++ b ∷ []) ≡ true
    → s ≡ t
unfolding has_prefix
has_prefix-separated b [] [] rest h h' e = refl
has_prefix-separated b [] (d ∷ t) rest h (p, h') e = ground arith
has_prefix-separated b (c ∷ s) [] rest (p, h) h' e = ground arith
has_prefix-separated b (c ∷ s) (d ∷ t) rest (p, h) (p', h') e =
    ground (arith, has_prefix-separated b s t rest h h')

pub split-Without : (sep : ℕ) (s : Text) → All (Without sep) (split s sep)
unfolding split
split-Without sep [] = (tt, tt)
split-Without sep (c ∷ s) = elim (List-cases (split s sep)) [
  | inl empty ↦ ground (arith, split-Without sep s)
  | inr (part, parts, e) ↦ ground (arith, split-Without sep s)
]

pub split-cons : (sep : ℕ) (s : Text) → (x : Text) × (xs : List Text) × (split s sep ≡ x ∷ xs)
unfolding split
split-cons sep [] = ([], [], refl)
split-cons sep (c ∷ s) =
    let (x, xs, e) = split-cons sep s in
    elim (Bool-cases (c == sep)) [
      | inl same ↦ ([], split s sep, rw same)
      | inr other ↦ (c ∷ x, xs, rw (other, e))
    ]

pub nil-of_empty {ℓ} : {A : Type ℓ} (xs : List A) → is_empty xs ≡ true → xs ≡ []
nil-of_empty [] e = refl
nil-of_empty (x ∷ xs) e = absurd (ground arith)
