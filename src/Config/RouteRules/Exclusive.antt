-- ===== src/Config/RouteRules/Exclusive.antt =====
-- config.go and internal/routes/routes.go: two accepted routes and one request.
use nats_web_gateway.Base.{
  All, Bool-cases, List, [], ap, arith, false, inl, inr, length, none, not, ok, refl, subst, sym,
  true, ℕ, ◌&&◌, ◌==◌, ◌∙◌, ◌∷◌, ◌≡◌,
}
use nats_web_gateway.Base.Map.{Map}
use nats_web_gateway.Base.Text.{Text, contains, split, text_eq, text_eq_iff, text_ne}
use nats_web_gateway.Routes.Matching.{FitsSegment, match-Fits, Fits}
use nats_web_gateway.Routes.{Route, match, subject_of, Pattern, placeholder_name, segments}
use nats_web_gateway.Config.Template.Parts.{
  validate_template-IsPart, IsPart, IsPlainPart, has_placeholder-placeholder,
}
use nats_web_gateway.Config.Template.{
  starts_with, validate_template, has_placeholder, validate_path,
}
use nats_web_gateway.Config.RouteRules.Overlap.{methods_overlap, paths_overlap, segments_overlap}
use nats_web_gateway.Routes

validate_path-template :
    (path : Text) (params : List Text)
    → validate_path path ≡ ok params
    → (starts_with b'/' path ≡ true) × (validate_template b'/' path ≡ ok params)
unfolding validate_path
validate_path-template path params e = ground arith

-- The segments of an accepted path.
pub validate_path-IsPart :
    (path : Text) (params : List Text) → validate_path path ≡ ok params → All IsPart (segments path)
unfolding segments split
validate_path-IsPart [] params e = cc (validate_path-template [] params e).0
validate_path-IsPart (c ∷ s) params e =
    let (absolute, accepted) = validate_path-template (c ∷ s) params e in
    elim (Bool-cases (text_eq (c ∷ s) (b'/' ∷ []))) [
      | inl root ↦ rw (root, segments) tt
      | inr longer ↦
          rw (longer, absolute, segments)
            (parts_behind c s absolute (
              validate_template-IsPart b'/' (ground arith, ground arith, refl) (c ∷ s) params
                accepted))
    ]
  where
    apart : (d : ℕ) (u : Text) → d == b'/' ≡ true → split (d ∷ u) b'/' ≡ [] ∷ split u b'/'
    apart d u same = rw (same, split)

    parts_behind :
        (d : ℕ) (u : Text)
        → d == b'/' ≡ true
        → All IsPart (split (d ∷ u) b'/')
        → All IsPart (split u b'/')
    parts_behind d u same h =
        let q : All IsPart ([] ∷ split u b'/') = subst (All IsPart) (apart d u same) h in q.1

plain-placeholder_name : (s : Text) → IsPlainPart s → placeholder_name s ≡ none
unfolding placeholder_name
plain-placeholder_name [] h = refl
plain-placeholder_name (c ∷ s) ((p, _), _) = ground arith

-- A segment without a placeholder is compared as it is.
literal-placeholder_name :
    (s : Text) → IsPart s → has_placeholder s ≡ false → placeholder_name s ≡ none
literal-placeholder_name s (inl plain) h = plain-placeholder_name s plain
literal-placeholder_name s (inr (n, same, good)) h =
    absurd (cc (has_placeholder-placeholder n good))

literal_fits :
    (patterns : Map Pattern) (want value : Text)
    → IsPart want
    → has_placeholder want ≡ false
    → FitsSegment patterns (placeholder_name want) want value
    → want ≡ value
literal_fits patterns want value p h f =
    subst (λ o. FitsSegment patterns o want value) (literal-placeholder_name want p h) f

segments_apart :
    (patterns patterns' : Map Pattern) (lefts rights gots : List Text)
    → segments_overlap lefts rights ≡ false
    → All IsPart lefts
    → All IsPart rights
    → length lefts ≡ length gots
    → length rights ≡ length gots
    → Fits patterns lefts gots
    → Fits patterns' rights gots
    → ⊥
unfolding segments_overlap
segments_apart patterns patterns' [] rights gots e h k m n f g = cc
segments_apart patterns patterns' (l ∷ lefts) [] gots e h k m n f g = cc
segments_apart patterns patterns' (l ∷ lefts) (r ∷ rights) [] e h k m n f g = omega arith
segments_apart patterns patterns' (l ∷ lefts) (r ∷ rights) (x ∷ gots) e (p, h) (q, k) m n
      ((v, plain, f), fs) ((v', plain', g), gs) =
    elim (Bool-cases (not (has_placeholder l) && not (has_placeholder r) && not (text_eq l r))) [
      | inr on ↦
          segments_apart patterns patterns' lefts rights gots (ground arith) h k (omega arith)
            (omega arith) fs gs
      | inl apart ↦
          let left : l ≡ v = literal_fits patterns l v p (ground arith) f in
          let right : r ≡ v' = literal_fits patterns' r v' q (ground arith) g in
          let one : v ≡ v' = ground arith in text_ne l r (ground arith) (left ∙ one ∙ sym right)
    ]

contains-overlap :
    (left right : List Text) (method : Text)
    → contains left method ≡ true
    → contains right method ≡ true
    → methods_overlap left right ≡ true
unfolding methods_overlap contains
contains-overlap [] right method h k = cc
contains-overlap (m ∷ left) right method h k = elim (Bool-cases (text_eq m method)) [
  | inl same ↦
      let e : m ≡ method = (text_eq_iff m method).0 same in ground (arith, ap (contains right) e)
  | inr other ↦ ground (arith, contains-overlap left right method (ground arith) k)
]

-- Two compiled routes do not both make a subject of one request, if their paths are accepted and the
-- test of overlap passes them.
pub match_apart :
    (r r' : Routes.Route) (method path : Text) (query : Map (List Text)) (s s' : Text)
    → (methods_overlap r'.methods r.methods && paths_overlap r'.path r.path) ≡ false
    → All IsPart (segments r.path)
    → All IsPart (segments r'.path)
    → match r method path query ≡ subject_of s
    → match r' method path query ≡ subject_of s'
    → ⊥
unfolding paths_overlap
match_apart r r' method path query s s' e h k m m' =
    let (listed, same, fits, _, _, _, _) = match-Fits r method path query s m in
    let (listed', same', fits', _, _, _, _) = match-Fits r' method path query s' m' in
    segments_apart r'.patterns r.patterns (segments r'.path) (segments r.path) (segments path)
      (ground (arith, contains-overlap r'.methods r.methods method listed' listed)) k h same' same
      fits' fits
