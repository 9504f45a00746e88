-- ===== src/Negotiation/Chosen.antt =====
-- response.go: the representation that is chosen.
use nats_web_gateway.Base.{
  All, Bool-cases, List, Option, Option-cases, [], ap, arith, false, inl, inr, length, ltb, none,
  not, refl, some, subst, true, ℕ, ◌&&◌, ◌++◌, ◌<◌, ◌||◌, ◌∷◌, ◌≡◌, ◌≤◌, ◌⊎◌,
}
use nats_web_gateway.Base.Text.{Text}
use nats_web_gateway.Config.{Response, elements}
use nats_web_gateway.Negotiation.Selection.{
  not_acceptable, select_representation, selected, choose, keep_best, representation_quality,
}
use nats_web_gateway.Negotiation.Header.{is_blank}
use nats_web_gateway.Negotiation.Accept.{parse_accept, AcceptRange, MediaFunctions}

keep_best-some :
    (representation : Text) (quality : ℕ) (best : Option (Text × ℕ)) (r : Text) (q : ℕ)
    → keep_best representation quality best ≡ some (r, q)
    → ((best ≡ some (r, q)) × (quality ≤ q))
      ⊎ ((representation ≡ r)
          × (quality ≡ q)
          × (0 < q)
          × ((x : Text) (k : ℕ) → best ≡ some (x, k) → k < q))
unfolding keep_best
keep_best-some representation quality none r q e = elim (Bool-cases (ltb 0 quality)) [
  | inr zero' ↦ absurd (ground arith)
  | inl more ↦ inr (ground arith, ground arith, ground arith, λ x k h. absurd (ground arith))
]
keep_best-some representation quality (some (best, best_quality)) r q e =
    elim (Bool-cases (ltb 0 quality && ltb best_quality quality)) [
      | inr kept ↦ inl (ground arith, ground arith)
      | inl more ↦ inr (ground arith, ground arith, ground arith, λ x k h. ground arith)
    ]

-- What was best is not better than what is kept.
keep_best_mono :
    (representation : Text) (quality : ℕ) (best : Option (Text × ℕ)) (q : ℕ)
    → 0 < q
    → ((x : Text) (k : ℕ) → keep_best representation quality best ≡ some (x, k) → k < q)
    → (quality < q) × ((x : Text) (k : ℕ) → best ≡ some (x, k) → k < q)
unfolding keep_best
keep_best_mono representation quality none q more h = elim (Bool-cases (ltb 0 quality)) [
  | inr zero' ↦ (ground arith, λ x k e. absurd (ground arith))
  | inl some' ↦ (h representation quality (ground arith), λ x k e. absurd (ground arith))
]
keep_best_mono representation quality (some (best, best_quality)) q more h =
    elim (Bool-cases (ltb 0 quality && ltb best_quality quality)) [
      | inr kept ↦
          let below : best_quality < q = h best best_quality (ground arith) in
          (ground arith, λ x k e. ground arith)
      | inl better ↦
          let below : quality < q = h representation quality (ground arith) in
          (below, λ x k e. ground arith)
    ]

keep_best-none :
    (representation : Text) (quality : ℕ) (best : Option (Text × ℕ))
    → keep_best representation quality best ≡ none
    → (best ≡ none) × (quality ≡ 0)
unfolding keep_best
keep_best-none representation quality none e = ground arith
keep_best-none representation quality (some (best, best_quality)) e = absurd (ground arith)

module _ (functions : MediaFunctions) (ranges : List AcceptRange) where
  -- The ranges give each representation a quality, which is below or at most the number.
  abbrev pub Below : ℕ → List Text → Type 0
  Below q = All (λ d. (k : ℕ) × (representation_quality functions ranges d ≡ some k) × (k < q))

  abbrev pub UpTo : ℕ → List Text → Type 0
  UpTo q = All (λ d. (k : ℕ) × (representation_quality functions ranges d ≡ some k) × (k ≤ q))

  -- A representation of positive quality: no one has more, and those declared before it have less.
  abbrev pub IsFirstBest : List Text → Text → ℕ → Type 0
  IsFirstBest declared r q =
      (before : List Text) × (after : List Text) × (declared ≡ before ++ r ∷ after)
      × (representation_quality functions ranges r ≡ some q)
      × (0 < q)
      × Below q before
      × UpTo q after

  choose-best :
      (declared : List Text) (best : Option (Text × ℕ)) (r : Text) (q : ℕ)
      → choose functions ranges declared best ≡ some (some (r, q))
      → ((best ≡ some (r, q)) × UpTo q declared)
        ⊎ (IsFirstBest declared r q × ((x : Text) (k : ℕ) → best ≡ some (x, k) → k < q))
  unfolding choose
  choose-best [] best r q e = inl (ground arith, tt)
  choose-best (representation ∷ declared) best r q e =
      elim (Option-cases (representation_quality functions ranges representation)) [
        | inl panic ↦ absurd (ground arith)
        | inr (quality, rated) ↦
            elim (choose-best declared (keep_best representation quality best) r q
              (rw (rated, choose) at e)) [
                | inl (kept, rest) ↦ elim (keep_best-some representation quality best r q kept) [
                  | inl (old, few) ↦ inl (old, ((quality, rated, few), rest))
                  | inr (same, same', more, before) ↦ inr (
                    ([], declared, rw same refl, rw (same, same') at rated, more, tt, rest),
                    before,
                  )
                ]
                | inr ((before, after, split', rated', more, below, rest), less) ↦
                    let (under, less') = keep_best_mono representation quality best q more less in
                    inr (
                      (
                        representation ∷ before,
                        after,
                        ap (◌∷◌ representation) split',
                        rated',
                        more,
                        ((quality, rated, under), below),
                        rest,
                      ),
                      less',
                    )
              ]
      ]

  choose-none :
      (declared : List Text) (best : Option (Text × ℕ))
      → choose functions ranges declared best ≡ some none
      → (best ≡ none) × All (λ d. representation_quality functions ranges d ≡ some 0) declared
  unfolding choose
  choose-none [] best e = (ground arith, tt)
  choose-none (representation ∷ declared) best e =
      elim (Option-cases (representation_quality functions ranges representation)) [
        | inl panic ↦ absurd (ground arith)
        | inr (quality, rated) ↦
            let (nothing, zeros) =
              choose-none declared (keep_best representation quality best)
                (rw (rated, choose) at e) in
            let (nothing', zero') = keep_best-none representation quality best nothing in
            (nothing', (rw zero' at rated, zeros))
      ]

module _ (functions : MediaFunctions) (header : Text) (response : Response) where
  abbrev pub declared : List Text
  declared = response.content_type ∷ elements response.representations

  -- What is answered without negotiation, or without an `Accept` header.
  abbrev pub Unasked : Type 0
  Unasked = (response.negotiate_accept ≡ false) ⊎ (is_blank header ≡ true)

  -- A chosen representation is a declared one. Without negotiation or with a blank header it is the
  -- content type; otherwise the header is parsed, and the ranges give it a positive quality, no
  -- declared one a higher one, and those declared before it a lower one.
  pub select_representation-selected :
      (r : Text)
      → select_representation functions header response ≡ selected r
      → (Unasked × (r ≡ response.content_type))
        ⊎ ((ranges : List AcceptRange) × (q : ℕ) × (parse_accept functions header ≡ some ranges)
            × IsFirstBest functions ranges declared r q)
  unfolding select_representation
  select_representation-selected r e =
      elim (Bool-cases (not response.negotiate_accept || is_blank header)) [
        | inl unasked ↦ elim (Bool-cases response.negotiate_accept) [
          | inl negotiates ↦ inl (inr (ground arith), ground arith)
          | inr no_negotiation ↦ inl (inl no_negotiation, ground arith)
        ]
        | inr asked ↦ elim (Option-cases (parse_accept functions header)) [
          | inl refused ↦ absurd (ground arith)
          | inr (ranges, parsed) ↦ elim (Option-cases (choose functions ranges declared none)) [
            | inl panic ↦ absurd (ground arith)
            | inr (none, nothing) ↦ absurd (ground arith)
            | inr (some (x, q), best) ↦
                let same : x ≡ r = ground arith in
                elim (choose-best functions ranges declared none x q best) [
                  | inl (nothing, _) ↦ absurd (ground arith)
                  | inr (first, _) ↦ inr (
                    ranges,
                    q,
                    parsed,
                    subst (λ y. IsFirstBest functions ranges declared y q) same first,
                  )
                ]
          ]
        ]
      ]

  -- A refusal is one of a header that is too long or that does not parse, or all declared
  -- representations have the quality 0.
  pub select_representation-not_acceptable :
      select_representation functions header response ≡ not_acceptable
      → (8192 < length header)
        ⊎ (parse_accept functions header ≡ none)
        ⊎ ((ranges : List AcceptRange) × (parse_accept functions header ≡ some ranges)
            × All (λ d. representation_quality functions ranges d ≡ some 0) declared)
  unfolding select_representation
  select_representation-not_acceptable e = elim (Option-cases (parse_accept functions header)) [
    | inl refused ↦ inr (inl refused)
    | inr (ranges, parsed) ↦ elim (Option-cases (choose functions ranges declared none)) [
      | inl panic ↦ inl (ground arith)
      | inr (some (x, q), best) ↦ inl (ground arith)
      | inr (none, nothing) ↦
          inr (inr (ranges, parsed, (choose-none functions ranges declared none nothing).1))
    ]
  ]
