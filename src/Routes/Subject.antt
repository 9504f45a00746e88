-- ===== src/Routes/Subject.antt =====
-- internal/routes/routes.go: the subject that a template and validated values make.
use nats_web_gateway.Base.{
  All, All-append, Bool-cases, List, Option-cases, [], ap, append-nil, arith, inl, inr, map, none,
  refl, some, subst, sym, ◌++◌, ◌∙◌, ◌∷◌, ◌≡◌,
}
use nats_web_gateway.Base.Map.{Map, lookup}
use nats_web_gateway.Base.Text.{Text, split, text_eq, text_eq-sym}
use nats_web_gateway.Base.TextLaws.{Without, join, split-join}
use mathlib.Core.Path.{ap₂}
use nats_web_gateway.Routes.Replace.Laws.{
  Piece, literal, hole, piece_text, render, Clean, plug, replace_all-render,
}
use nats_web_gateway.Routes.{fill}

-- The simultaneous substitution.
abbrev pub resolve : Map Text → Piece → Piece
resolve values (literal t) = literal t
resolve values (hole name) = elim (lookup name values) [ none ↦ hole name | some v ↦ literal v ]

-- Names hold no brace, and values open none.
abbrev pub Fillable : Text × Text → Type 0
Fillable (name, value) = Without b'}' name × Without b'{' value

resolve-plug_piece :
    (name value : Text) (values : Map Text) (p : Piece)
    → resolve values (plug name value p) ≡ resolve ((name, value) ∷ values) p
unfolding lookup
resolve-plug_piece name value values (literal t) = refl
resolve-plug_piece name value values (hole n) = ground (arith, text_eq-sym n name)

resolve-plug :
    (name value : Text) (values : Map Text) (ps : List Piece)
    → map (resolve values) (map (plug name value) ps) ≡ map (resolve ((name, value) ∷ values)) ps
resolve-plug name value values [] = refl
resolve-plug name value values (p ∷ ps) =
    ap₂ ◌∷◌ (resolve-plug_piece name value values p) (resolve-plug name value values ps)

resolve-nil : (ps : List Piece) → map (resolve []) ps ≡ ps
unfolding lookup
resolve-nil [] = refl
resolve-nil (literal t ∷ ps) = rw (resolve-nil ps)
resolve-nil (hole n ∷ ps) = rw (resolve-nil ps)

-- If no value holds an opening brace, no name to fill a closing one, and the pieces of the template
-- are clean (no opening brace in a literal, no brace in the name of a placeholder), then filling the
-- template value by value, in whatever order the map is gone through, is the simultaneous
-- substitution of its placeholders.
pub fill-render :
    (values : Map Text) (ps : List Piece)
    → All Fillable values
    → All Clean ps
    → fill values (render ps) ≡ render (map (resolve values) ps)
unfolding fill
fill-render [] ps v h = rw (resolve-nil ps)
fill-render ((name, value) ∷ values) ps ((p, q), v) h =
    let (once, clean) = replace_all-render name value ps p q h in
    rw (once, fill)
      (fill-render values (map (plug name value) ps) v clean
        ∙ ap render (resolve-plug name value values ps))

-- A subject's token is literal or one placeholder.
abbrev interspersed : List Piece → List Piece
interspersed [] = []
interspersed (p ∷ []) = p ∷ []
interspersed (p ∷ q ∷ ps) = p ∷ literal (b'.' ∷ []) ∷ interspersed (q ∷ ps)

render-interspersed : (ps : List Piece) → render (interspersed ps) ≡ join b'.' (map piece_text ps)
unfolding join
render-interspersed [] = refl
render-interspersed (p ∷ []) = append-nil (piece_text p)
render-interspersed (p ∷ q ∷ ps) = ap (λ s. piece_text p ++ b'.' ∷ s) (render-interspersed (q ∷ ps))

Clean-interspersed : (ps : List Piece) → All Clean ps → All Clean (interspersed ps)
Clean-interspersed [] h = tt
Clean-interspersed (p ∷ []) h = h
Clean-interspersed (p ∷ q ∷ ps) (c, h) = (c, (omega arith, Clean-interspersed (q ∷ ps) h))

resolve-interspersed :
    (values : Map Text) (ps : List Piece)
    → map (resolve values) (interspersed ps) ≡ interspersed (map (resolve values) ps)
resolve-interspersed values [] = refl
resolve-interspersed values (p ∷ []) = refl
resolve-interspersed values (p ∷ q ∷ ps) =
    ap (λ rest. resolve values p ∷ literal (b'.' ∷ []) ∷ rest)
      (resolve-interspersed values (q ∷ ps))

-- A token of a declared template: no separator and no opening brace in a literal, a name without
-- braces or separator in a placeholder.
abbrev pub IsToken : Piece → Type 0
IsToken (literal t) = Without b'{' t × Without b'.' t
IsToken (hole name) = Without b'{' name × Without b'}' name × Without b'.' name

-- A value that a subject token may become.
abbrev pub IsTokenValue : Text × Text → Type 0
IsTokenValue (name, value) = Without b'}' name × Without b'{' value × Without b'.' value

Clean-of_token : (ps : List Piece) → All IsToken ps → All Clean ps
Clean-of_token [] h = tt
Clean-of_token (literal t ∷ ps) ((a, b), h) = (a, Clean-of_token ps h)
Clean-of_token (hole n ∷ ps) ((a, b, c), h) = ((a, b), Clean-of_token ps h)

Fillable-of_value : (values : Map Text) → All IsTokenValue values → All Fillable values
Fillable-of_value [] h = tt
Fillable-of_value ((n, v) ∷ values) ((a, b, c), h) = ((a, b), Fillable-of_value values h)

lookup-Without :
    (values : Map Text) (name v : Text)
    → All IsTokenValue values
    → lookup name values ≡ some v
    → Without b'.' v
unfolding lookup
lookup-Without [] name v h e = absurd (ground arith)
lookup-Without ((n, w) ∷ values) name v ((_, _, q), h) e = elim (Bool-cases (text_eq n name)) [
  | inl same ↦ subst (Without b'.') (ground arith) q
  | inr differs ↦ lookup-Without values name v h (ground arith)
]

resolved-Without :
    (values : Map Text) (p : Piece)
    → All IsTokenValue values
    → IsToken p
    → Without b'.' (piece_text (resolve values p))
resolved-Without values (literal t) v (a, b) = b
resolved-Without values (hole n) v (a, b, c) = elim (Option-cases (lookup n values)) [
  | inl none' ↦
      subst (λ o. Without b'.' (piece_text (elim o [ none ↦ hole n | some w ↦ literal w ])))
        (sym none') (omega arith, All-append _ n (b'}' ∷ []) c (omega arith))
  | inr (w, e) ↦
      subst (λ o. Without b'.' (piece_text (elim o [ none ↦ hole n | some w ↦ literal w ]))) (sym e)
        (lookup-Without values n w v e)
]

All-resolved-Without :
    (values : Map Text) (ps : List Piece)
    → All IsTokenValue values
    → All IsToken ps
    → All (Without b'.') (map (λ q. piece_text (resolve values q)) ps)
All-resolved-Without values [] v h = tt
All-resolved-Without values (p ∷ ps) v (k, h) =
    (resolved-Without values p v k, All-resolved-Without values ps v h)

map-map :
    (values : Map Text) (ps : List Piece)
    → map piece_text (map (resolve values) ps) ≡ map (λ q. piece_text (resolve values q)) ps
map-map values [] = refl
map-map values (p ∷ ps) = ap (◌∷◌ (piece_text (resolve values p))) (map-map values ps)

fill-join :
    (values : Map Text) (ps : List Piece)
    → All IsTokenValue values
    → All IsToken ps
    → fill values (join b'.' (map piece_text ps))
      ≡ join b'.' (map (λ q. piece_text (resolve values q)) ps)
fill-join values ps v h =
    ap (fill values) (sym (render-interspersed ps))
    ∙ fill-render values (interspersed ps) (Fillable-of_value values v)
        (Clean-interspersed ps (Clean-of_token ps h))
    ∙ ap render (resolve-interspersed values ps)
    ∙ render-interspersed (map (resolve values) ps)
    ∙ ap (join b'.') (map-map values ps)

-- The tokens of the filled subject are those of the template, each literal kept and each
-- placeholder of a captured name replaced by that name's value as one whole token: no value adds
-- or removes a token, at any order of the map. Values hold no separator and no opening brace.
pub fill_tokens :
    (values : Map Text) (p : Piece) (ps : List Piece)
    → All IsTokenValue values
    → All IsToken (p ∷ ps)
    → split (fill values (join b'.' (map piece_text (p ∷ ps)))) b'.'
      ≡ map (λ q. piece_text (resolve values q)) (p ∷ ps)
fill_tokens values p ps v h =
    ap (λ s. split s b'.') (fill-join values (p ∷ ps) v h)
    ∙ split-join b'.' _ _ (All-resolved-Without values (p ∷ ps) v h)
