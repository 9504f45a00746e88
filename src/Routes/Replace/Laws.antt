-- ===== src/Routes/Replace/Laws.antt =====
-- internal/routes/routes.go: `strings.ReplaceAll` of a placeholder in a template of pieces.
use nats_web_gateway.Base.{
  All, All-append, Bool-cases, List, [], ap, append_assoc, arith, false, if◌then◌else◌, inl, inr,
  length, map, refl, suc, true, zero, ℕ, ◌++◌, ◌∙◌, ◌∷◌, ◌≡◌,
}
use nats_web_gateway.Base.Text.{Text, has_prefix, text_eq, text_eq_iff, text_eq_refl, text_ne}
use nats_web_gateway.Base.TextLaws.{Without, has_prefix-append, has_prefix-separated}
use nats_web_gateway.Routes.Replace.{replace_all, replace_from}

-- A template is made of literal text and of placeholders.
pub data Piece : Type 0 where
  literal : Text → Piece
  hole : Text → Piece

abbrev pub placeholder : Text → Text
placeholder name = b'{' ∷ name ++ b'}' ∷ []

abbrev pub piece_text : Piece → Text
piece_text (literal t) = t
piece_text (hole name) = placeholder name

abbrev pub render : List Piece → Text
render [] = []
render (p ∷ ps) = piece_text p ++ render ps

-- Literals open no placeholder, and names hold no brace.
abbrev pub Clean : Piece → Type 0
Clean (literal t) = Without b'{' t
Clean (hole name) = Without b'{' name × Without b'}' name

abbrev pub plug : Text → Text → Piece → Piece
plug name value (literal t) = literal t
plug name value (hole n) = if text_eq n name then literal value else hole n

module _ (name value : Text) (closed : Without b'}' name) where
  replace_literal :
      (t s : Text)
      → Without b'{' t
      → replace_from 0 (placeholder name) value (t ++ s)
        ≡ t ++ replace_from 0 (placeholder name) value s
  unfolding replace_from has_prefix
  replace_literal [] s h = refl
  replace_literal (c ∷ t) s (p, h) = ground (arith, replace_literal t s h)

  replace_skip :
      (t s : Text) (k : ℕ)
      → k ≡ length t
      → replace_from k (placeholder name) value (t ++ s) ≡ replace_from 0 (placeholder name) value s
  unfolding replace_from
  replace_skip [] s k e = rw e
  replace_skip (c ∷ t) s zero e = absurd (omega arith)
  replace_skip (c ∷ t) s (suc k) e = replace_skip t s k (omega arith)

  replace_same :
      (s : Text)
      → replace_from 0 (placeholder name) value (placeholder name ++ s)
        ≡ value ++ replace_from 0 (placeholder name) value s
  unfolding replace_from
  replace_same s =
      rw (has_prefix-append (placeholder name) s, replace_from)
        (ap (◌++◌ value) (replace_skip (name ++ b'}' ∷ []) s _ (omega arith)))

  not_prefix :
      (n s : Text)
      → Without b'}' n
      → text_eq n name ≡ false
      → has_prefix (placeholder n ++ s) (placeholder name) ≡ false
  unfolding has_prefix
  not_prefix n s closes differs =
      elim (Bool-cases (has_prefix ((n ++ b'}' ∷ []) ++ s) (name ++ b'}' ∷ []))) [
        | inr no' ↦ ground arith
        | inl yes' ↦
            let y : has_prefix (n ++ b'}' ∷ s) (name ++ b'}' ∷ []) ≡ true =
              rw (append_assoc n (b'}' ∷ []) s) at yes' in
            absurd (text_ne n name differs (has_prefix-separated b'}' n name s closes closed y))
      ]

  replace_other :
      (n s : Text)
      → Without b'{' n
      → Without b'}' n
      → text_eq n name ≡ false
      → replace_from 0 (placeholder name) value (placeholder n ++ s)
        ≡ placeholder n ++ replace_from 0 (placeholder name) value s
  unfolding replace_from
  replace_other n s opens closes differs =
      rw (not_prefix n s closes differs, replace_from)
        (ap (◌∷◌ b'{')
          (replace_literal (n ++ b'}' ∷ []) s (All-append _ n (b'}' ∷ []) opens (omega arith))))

  replace_from-render :
      (ps : List Piece)
      → All Clean ps
      → replace_from 0 (placeholder name) value (render ps) ≡ render (map (plug name value) ps)
  unfolding replace_from
  replace_from-render [] h = refl
  replace_from-render (literal t ∷ ps) (p, h) =
      replace_literal t (render ps) p ∙ ap (◌++◌ t) (replace_from-render ps h)
  replace_from-render (hole n ∷ ps) ((p, q), h) = elim (Bool-cases (text_eq n name)) [
    | inl same ↦
        let e : n ≡ name = (text_eq_iff n name).0 same in
        rw (e, text_eq_refl name)
          (replace_same (render ps) ∙ ap (◌++◌ value) (replace_from-render ps h))
    | inr differs ↦ rw differs (
        replace_other n (render ps) p q differs
        ∙ ap (◌++◌ (placeholder n)) (replace_from-render ps h))
  ]

Clean-plug :
    (name value : Text) (ps : List Piece)
    → Without b'{' value
    → All Clean ps
    → All Clean (map (plug name value) ps)
Clean-plug name value [] v h = tt
Clean-plug name value (literal t ∷ ps) v (p, h) = (p, Clean-plug name value ps v h)
Clean-plug name value (hole n ∷ ps) v (p, h) = elim (Bool-cases (text_eq n name)) [
  | inl same ↦ rw same (v, Clean-plug name value ps v h)
  | inr differs ↦ rw differs (p, Clean-plug name value ps v h)
]

pub replace_all-render :
    (name value : Text) (ps : List Piece)
    → Without b'}' name
    → Without b'{' value
    → All Clean ps
    → (replace_all (placeholder name) value (render ps) ≡ render (map (plug name value) ps))
      × All Clean (map (plug name value) ps)
unfolding replace_all
replace_all-render name value ps closed opens h =
    (replace_from-render name value closed ps h, Clean-plug name value ps opens h)
