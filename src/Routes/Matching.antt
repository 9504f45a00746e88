-- ===== src/Routes/Matching.antt =====
-- internal/routes/routes.go: what a matched request has passed.
use nats_web_gateway.Base.{
  All, Bool, Bool-cases, List, Option, Option-cases, [], ap, arith, false, inl, inr, length, none,
  refl, some, true, ◌∙◌, ◌∷◌, ◌≡◌, ◌⊎◌,
}
use nats_web_gateway.Base.Map.{Map, insert, lookup}
use nats_web_gateway.Base.Text.{Text, bytes, contains, text_eq, text_eq_iff, text_ne}
use nats_web_gateway.Routes.{
  Route, Parameter, Pattern, subject_of, Captured, captured, match, match_segments, match_query,
  matches_entire_value, segments, placeholder_name, fill, single, capture_panics, bad_value,
  literal_differs,
}
use nats_web_gateway.Routes.Unescape.{path_unescape}

-- A value that the pattern of its name accepts as a whole.
abbrev pub Accepted : Map Pattern → Text × Text → Type 0
Accepted patterns (name, value) = matches_entire_value (lookup name patterns) value ≡ some true

-- A request's segment fits a declared one: the same text, or an accepted value.
abbrev pub FitsSegment : Map Pattern → Option Text → Text → Text → Type 0
FitsSegment patterns none want value = want ≡ value
FitsSegment patterns (some name) want value = Accepted patterns (name, value)

abbrev pub Fits : Map Pattern → List Text → List Text → Type 0
Fits patterns [] gots = Unit {0}
Fits patterns (want ∷ wants) [] = Unit {0}
Fits patterns (want ∷ wants) (got ∷ gots) =
    ((value : Text) × (path_unescape got ≡ some value)
      × FitsSegment patterns (placeholder_name want) want value)
    × Fits patterns wants gots

-- Each query parameter stands in the query once, with an accepted value.
abbrev pub QueryFits : Map (List Text) → Map Pattern → Map Parameter → Type 0
QueryFits query patterns [] = Unit {0}
QueryFits query patterns ((name, parameter) ∷ rest) =
    (parameter.source ≡ bytes "query"
      → (item : Text) × (lookup parameter.name query ≡ some (item ∷ []))
        × Accepted patterns (name, item))
    × QueryFits query patterns rest

-- The names of the placeholders of a path, each with the unescaped segment in its place.
unfoldable pub path_values : List Text → List Text → List (Text × Text)
path_values [] gots = []
path_values (want ∷ wants) [] = []
path_values (want ∷ wants) (got ∷ gots) = elim (placeholder_name want) [
  | none ↦ path_values wants gots
  | some name ↦ elim (path_unescape got) [
    | none ↦ path_values wants gots
    | some value ↦ (name, value) ∷ path_values wants gots
  ]
]

-- The names of the declared query parameters, each with its value in the query.
unfoldable pub query_values : Map (List Text) → Map Parameter → List (Text × Text)
query_values query [] = []
query_values query ((name, parameter) ∷ rest) = elim (text_eq parameter.source (bytes "query")) [
  | false ↦ query_values query rest
  | true ↦ elim (single (lookup parameter.name query)) [
    | none ↦ query_values query rest
    | some item ↦ (name, item) ∷ query_values query rest
  ]
]

-- The entries are put into the map, one after the other.
unfoldable pub insert_all : List (Text × Text) → Map Text → Map Text
insert_all [] values = values
insert_all ((name, value) ∷ entries) values = insert_all entries (insert name value values)

matches-cases : (o : Option Bool) → (o ≡ some true) ⊎ (o ≡ some false) ⊎ (o ≡ none)
matches-cases none = inr (inr refl)
matches-cases (some true) = inl refl
matches-cases (some false) = inr (inl refl)

match_segments-Fits :
    (patterns : Map Pattern) (wants gots : List Text) (values values' : Map Text)
    → match_segments patterns wants gots values ≡ captured values'
    → Fits patterns wants gots
      × (values' ≡ insert_all (path_values wants gots) values)
      × All (Accepted patterns) (path_values wants gots)
unfolding match_segments path_values insert_all
match_segments-Fits patterns [] gots values values' e = (tt, ground arith, tt)
match_segments-Fits patterns (want ∷ wants) [] values values' e = (tt, ground arith, tt)
match_segments-Fits patterns (want ∷ wants) (got ∷ gots) values values' e =
    elim (Option-cases (path_unescape got)) [
      | inl none' ↦ absurd (ground arith)
      | inr (value, plain) ↦ elim (Option-cases (placeholder_name want)) [
        | inl literal ↦ elim (Bool-cases (text_eq want value)) [
          | inr differs ↦ absurd (ground arith)
          | inl same ↦
              let (fits, made, accepted) =
                match_segments-Fits patterns wants gots values values' (ground arith) in
              (
                ((value, plain, rw literal ((text_eq_iff want value).0 same)), fits),
                rw (literal, path_values) made,
                rw (literal, path_values) accepted,
              )
        ]
        | inr (name, is_hole) ↦
            elim (matches-cases (matches_entire_value (lookup name patterns) value)) [
              | inr (inl refused) ↦ absurd (ground arith)
              | inr (inr missing) ↦ absurd (ground arith)
              | inl ok' ↦
                  let (fits, made, accepted) =
                    match_segments-Fits patterns wants gots (insert name value values) values'
                      (ground arith) in
                  (
                    ((value, plain, rw is_hole ok'), fits),
                    rw (is_hole, plain, path_values, insert_all) made,
                    rw (is_hole, plain, path_values) (ok', accepted),
                  )
            ]
      ]
    ]

single-one :
    (found : Option (List Text)) (item : Text) → single found ≡ some item → found ≡ some (item ∷ [])
single-one none item e = absurd (ground arith)
single-one (some []) item e = absurd (ground arith)
single-one (some (x ∷ [])) item e = ground arith
single-one (some (x ∷ y ∷ zs)) item e = absurd (ground arith)

match_query-Fits :
    (query : Map (List Text)) (patterns : Map Pattern) (parameters : Map Parameter)
    (values values' : Map Text)
    → match_query query patterns parameters values ≡ captured values'
    → QueryFits query patterns parameters
      × (values' ≡ insert_all (query_values query parameters) values)
      × All (Accepted patterns) (query_values query parameters)
unfolding match_query query_values insert_all
match_query-Fits query patterns [] values values' e = (tt, ground arith, tt)
match_query-Fits query patterns ((name, parameter) ∷ rest) values values' e =
    elim (Bool-cases (text_eq parameter.source (bytes "query"))) [
      | inr path ↦
          let (fits, made, accepted) =
            match_query-Fits query patterns rest values values' (ground arith) in
          (
            ((λ same. absurd (text_ne _ _ path same)), fits),
            rw (path, query_values) made,
            rw (path, query_values) accepted,
          )
      | inl is_query ↦ elim (Option-cases (single (lookup parameter.name query))) [
        | inl none' ↦ absurd (ground arith)
        | inr (item, found) ↦
            elim (matches-cases (matches_entire_value (lookup name patterns) item)) [
              | inr (inl refused) ↦ absurd (ground arith)
              | inr (inr missing) ↦ absurd (ground arith)
              | inl ok' ↦
                  let (fits, made, accepted) =
                    match_query-Fits query patterns rest (insert name item values) values'
                      (ground arith) in
                  (
                    ((λ same. (item, single-one _ item found, ok')), fits),
                    rw (is_query, found, query_values, insert_all) made,
                    rw (is_query, found, query_values) (ok', accepted),
                  )
            ]
      ]
    ]

captured-of_match :
    (r : Route) (method path : Text) (query : Map (List Text)) (s : Text)
    → match r method path query ≡ subject_of s
    → (values : Map Text) × (values' : Map Text) × (match_segments r.patterns
          (segments r.path)
          (segments path)
          []
        ≡ captured values)
      × (match_query query r.patterns r.parameters values ≡ captured values')
      × (s ≡ fill values' r.subject)
unfolding match
captured-of_match r method path query s e =
    split_on (match_segments r.patterns (segments r.path) (segments path) []) refl
  where
    query_of :
        (values : Map Text)
        → match_segments r.patterns (segments r.path) (segments path) [] ≡ captured values
        → (c : Captured) → match_query query r.patterns r.parameters values ≡ c
        → (values' : Map Text) × (match_query query r.patterns r.parameters values
            ≡ captured values')
          × (s ≡ fill values' r.subject)
    query_of values q literal_differs q' = absurd (ground arith)
    query_of values q bad_value q' = absurd (ground arith)
    query_of values q capture_panics q' = absurd (ground arith)
    query_of values q (captured values') q' = (values', q', ground arith)

    split_on :
        (c : Captured)
        → match_segments r.patterns (segments r.path) (segments path) [] ≡ c
        → (values : Map Text) × (values' : Map Text) × (match_segments r.patterns
              (segments r.path)
              (segments path)
              []
            ≡ captured values)
          × (match_query query r.patterns r.parameters values ≡ captured values')
          × (s ≡ fill values' r.subject)
    split_on literal_differs q = absurd (ground arith)
    split_on bad_value q = absurd (ground arith)
    split_on capture_panics q = absurd (ground arith)
    split_on (captured values) q =
        let (values', q', filled) =
          query_of values q (match_query query r.patterns r.parameters values) refl in
        (values, values', q, q', filled)

guards-of_match :
    (r : Route) (method path : Text) (query : Map (List Text)) (s : Text)
    → match r method path query ≡ subject_of s
    → (contains r.methods method ≡ true) × (length (segments r.path) ≡ length (segments path))
unfolding match
guards-of_match r method path query s e = (ground arith, ground arith)

-- A request that a route turns into a subject has one of the route's methods, as many segments as
-- its path, in each place the literal text or a value that the parameter's own pattern accepts as a
-- whole, and each query parameter exactly once with an accepted value. The subject is the template
-- filled with the request's own values: those of the path's placeholders and then those of the query
-- parameters, each under its name and accepted by the name's pattern.
pub match-Fits :
    (r : Route) (method path : Text) (query : Map (List Text)) (s : Text)
    → match r method path query ≡ subject_of s
    → (contains r.methods method ≡ true)
      × (length (segments r.path) ≡ length (segments path))
      × Fits r.patterns (segments r.path) (segments path)
      × QueryFits query r.patterns r.parameters
      × All (Accepted r.patterns) (path_values (segments r.path) (segments path))
      × All (Accepted r.patterns) (query_values query r.parameters)
      × (s
          ≡ fill
              (insert_all
                (query_values query r.parameters)
                (insert_all (path_values (segments r.path) (segments path)) []))
              r.subject)
match-Fits r method path query s e =
    let (values, values', taken, queried, filled) = captured-of_match r method path query s e in
    let (listed, same_length) = guards-of_match r method path query s e in
    let (fits, made, accepted) =
      match_segments-Fits r.patterns (segments r.path) (segments path) [] values taken in
    let (query_fits, made', accepted') =
      match_query-Fits query r.patterns r.parameters values values' queried in
    (
      listed,
      same_length,
      fits,
      query_fits,
      accepted,
      accepted',
      filled
          ∙ ap (λ m. fill m r.subject)
              (made' ∙ ap (insert_all (query_values query r.parameters)) made),
    )
