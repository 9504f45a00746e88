-- ===== src/Caddyfile/Once.antt =====
-- config.go: what an accepted route block holds.
use nats_web_gateway.Base.{
  >>=-eq-ok, All, All-map, List, List-cases, Result, [], all, arith, err, false, inl, inr, ok, refl,
  true, ◌>>=◌, ◌↔◌, ◌∷◌, ◌≡◌, ◌≢◌, ◌⊎◌,
}
use nats_web_gateway.Base.Text.{Text, contains, text_eq_iff}
use nats_web_gateway.Caddyfile.{Segment, apply_option, read_lines, repeatable, see, unmarshal_route}
use nats_web_gateway.Config.{Route}
use nats_web_gateway.Profiles.Clear.{zero_route}
use nats_web_gateway.Caddyfile.Options.{BlockError, Parsers, option_repeated}

-- The option may repeat, or is not among those.
abbrev pub NotIn : List Text → Text → Type 0
NotIn seen option = (contains repeatable option ≡ true) ⊎ (contains seen option ≡ false)

-- An option that may not repeat stands in one line only.
abbrev pub IsOnce : List (Text × List Text) → Type 0
IsOnce [] = Unit {0}
IsOnce ((option, _) ∷ lines) =
    ((contains repeatable option ≡ true) ⊎ All (λ l. l.0 ≢ option) lines) × IsOnce lines

-- The cases of the lines, one after the other.
unfoldable pub applied : Parsers → List (Text × List Text) → Route → Result BlockError Route
applied p [] r = ok r
applied p ((option, args) ∷ lines) r = apply_option p option args r >>= (λ r'. applied p lines r')

see-cases :
    (seen : List Text) (option : Text)
    → ((see seen option ≡ ok seen) × (contains repeatable option ≡ true))
      ⊎ ((see seen option ≡ ok (option ∷ seen))
          × (contains repeatable option ≡ false)
          × (contains seen option ≡ false))
      ⊎ ((see seen option ≡ err (option_repeated option))
          × (contains repeatable option ≡ false)
          × (contains seen option ≡ true))
unfolding see
see-cases seen option = ground arith

NotIn-cons :
    (seen : List Text) (option : Text) (o : Text)
    → NotIn (option ∷ seen) o
    → contains repeatable option ≡ false
    → (o ≢ option) × NotIn seen o
unfolding contains
NotIn-cons seen option o free once = ground (arith, text_eq_iff option o)

NotIn-of_ne :
    (seen : List Text) (option : Text) (o : Text)
    → o ≢ option
    → NotIn seen o
    → NotIn (option ∷ seen) o
unfolding contains
NotIn-of_ne seen option o other free = ground (arith, text_eq_iff option o)

All-NotIn_cons :
    (seen : List Text) (option : Text) (lines : List (Text × List Text))
    → All (λ l. l.0 ≢ option) lines
    → All (λ l. NotIn seen l.0) lines
    → All (λ l. NotIn (option ∷ seen) l.0) lines
All-NotIn_cons seen option [] others free = tt
All-NotIn_cons seen option (l ∷ lines) (other, others) (fresh, free) =
    (NotIn-of_ne seen option l.0 other fresh, All-NotIn_cons seen option lines others free)

module _ (p : Parsers) where
  read_lines-applied :
      (seen : List Text) (lines : List (Text × List Text)) (r r' : Route)
      → read_lines p seen lines r ≡ ok r'
      → All (λ l. NotIn seen l.0) lines × IsOnce lines × (applied p lines r ≡ ok r')
  unfolding read_lines applied
  read_lines-applied seen [] r r' e = (tt, tt, e)
  read_lines-applied seen ((option, args) ∷ lines) r r' e =
      let (seen', saw, e') = >>=-eq-ok (see seen option) _ e in
      let (middle, set, rest) = >>=-eq-ok (apply_option p option args r) _ e' in
      let (free, once, all) = read_lines-applied seen' lines middle r' rest in
      let done : (apply_option p option args r >>= (λ m. applied p lines m)) ≡ ok r' = rw set all in
      elim (see-cases seen option) [
        | inl (kept, again) ↦
            let same : seen' ≡ seen = ground arith in
            ((inl again, rw same at free), (inl again, once), done)
        | inr (inl (added, single, new)) ↦
            let same : seen' ≡ option ∷ seen = ground arith in
            let free' : All (λ l. NotIn (option ∷ seen) l.0) lines = rw same at free in
            (
              (inr new, All-map (λ l h. (NotIn-cons seen option l.0 h single).1) lines free'),
              (inr (All-map (λ l h. (NotIn-cons seen option l.0 h single).0) lines free'), once),
              done,
            )
        | inr (inr (refused, _, _)) ↦ absurd (ground arith)
      ]

  applied-read_lines :
      (seen : List Text) (lines : List (Text × List Text)) (r r' : Route)
      → All (λ l. NotIn seen l.0) lines
      → IsOnce lines
      → applied p lines r ≡ ok r'
      → read_lines p seen lines r ≡ ok r'
  unfolding read_lines applied
  applied-read_lines seen [] r r' free once e = e
  applied-read_lines seen ((option, args) ∷ lines) r r' (fresh, free) (single, once) e =
      let (middle, set, rest) = >>=-eq-ok (apply_option p option args r) _ e in
      elim (see-cases seen option) [
        | inl (kept, again) ↦
            rw (kept, set) (applied-read_lines seen lines middle r' free once rest)
        | inr (inl (added, alone, new)) ↦ elim single [
          | inl again ↦ absurd (ground arith)
          | inr others ↦
              rw (added, set)
                (applied-read_lines (option ∷ seen) lines middle r'
                  (All-NotIn_cons seen option lines others free) once rest)
        ]
        | inr (inr (refused, alone, old)) ↦ absurd (ground arith)
      ]

All-NotIn : (lines : List (Text × List Text)) → All (λ l. NotIn [] l.0) lines
unfolding contains
All-NotIn [] = tt
All-NotIn (l ∷ lines) = (inr refl, All-NotIn lines)

-- A route block is accepted with a route exactly if the segment has a name, no option but the four
-- that add an entry stands in two of its lines, and the cases of its lines, applied in their order
-- to a route with that name and nothing else, give the route.
pub unmarshal_route_iff :
    (p : Parsers) (segment : Segment) (r : Route)
    → (unmarshal_route p segment ≡ ok r) ↔ (
        (label : Text) × (more : List Text) × (segment.first ≡ label ∷ more)
        × IsOnce segment.lines
        × (applied p segment.lines (record zero_route { name = label }) ≡ ok r))
unfolding unmarshal_route
unmarshal_route_iff p segment r = (there, back)
  where
    there :
        unmarshal_route p segment ≡ ok r
        → (label : Text) × (more : List Text) × (segment.first ≡ label ∷ more)
          × IsOnce segment.lines
          × (applied p segment.lines (record zero_route { name = label }) ≡ ok r)
    there e = elim (List-cases segment.first) [
      | inl none' ↦ absurd (ground arith)
      | inr (label, more, named) ↦
          let (_, once, done) =
            read_lines-applied p [] segment.lines (record zero_route { name = label }) r
              (rw (named, unmarshal_route) at e) in
          (label, more, named, once, done)
    ]

    back :
        ((label : Text) × (more : List Text) × (segment.first ≡ label ∷ more)
          × IsOnce segment.lines
          × (applied p segment.lines (record zero_route { name = label }) ≡ ok r))
        → unmarshal_route p segment ≡ ok r
    back (label, more, named, once, done) =
        rw (named, unmarshal_route)
          (applied-read_lines p [] segment.lines (record zero_route { name = label }) r
            (All-NotIn segment.lines) once done)
