-- ===== src/Negotiation/Best.antt =====
-- response.go: what the chosen range and the chosen representation are among all of them.
use nats_web_gateway.Base.{
  All, Any, Bool, Bool-cases, List, Option, Option-cases, [], ap, arith, false, inl, inr, none,
  refl, some, true, ◌∙◌, ◌∷◌, ◌≡◌, ◌⊎◌,
}
use nats_web_gateway.Base.Map.{Map}
use nats_web_gateway.Base.Text.{Text}
use nats_web_gateway.Negotiation.Selection.{best_range, is_better, matches, next_best}
use nats_web_gateway.Negotiation.Accept.{AcceptRange}

-- The range applies, and no other that applies is better.
abbrev pub IsBest : List AcceptRange → Text → Text → Map Text → AcceptRange → Type 0
IsBest ranges type_name subtype parameters best =
    (matches best type_name subtype parameters ≡ true)
    × Any (λ range. range ≡ best) ranges
    × All
        (λ range. matches range type_name subtype parameters ≡ true → is_better range best ≡ false)
        ranges

is_better_irrefl : (r : AcceptRange) → is_better r r ≡ false
unfolding is_better
is_better_irrefl r = ground arith

-- Not to come before is transitive, and so is to come before with it.
not_better_trans :
    (a b c : AcceptRange) → is_better a b ≡ false → is_better b c ≡ false → is_better a c ≡ false
unfolding is_better
not_better_trans a b c h k = ground arith

better_trans :
    (a b c : AcceptRange) → is_better a b ≡ true → is_better a c ≡ false → is_better b c ≡ false
unfolding is_better
better_trans a b c h k = ground arith

module _ (type_name subtype : Text) (parameters : Map Text) where
  -- No range that applies comes before the best one.
  abbrev NoBetter : AcceptRange → List AcceptRange → Type 0
  NoBetter best ranges =
      All
        (λ range. matches range type_name subtype parameters ≡ true → is_better range best ≡ false)
        ranges

  -- A new best range is the old one or the candidate, and neither comes before it.
  next_best-cases :
      (applies : Bool) (candidate : AcceptRange) (best : Option AcceptRange) (r : AcceptRange)
      → next_best applies candidate best ≡ some r
      → ((best ≡ some r) ⊎ ((applies ≡ true) × (candidate ≡ r)))
        × (applies ≡ true → is_better candidate r ≡ false)
        × ((b : AcceptRange) → best ≡ some b → is_better b r ≡ false)
  unfolding next_best
  next_best-cases false candidate best r e =
      (inl e, λ q. ground arith, λ b k. ground (arith, is_better_irrefl r))
  next_best-cases true candidate none r e = (
    inr (refl, ground arith),
    λ _. let same : candidate ≡ r = ground arith in rw same (is_better_irrefl r),
    λ b k. ground arith,
  )
  next_best-cases true candidate (some best) r e = elim (Bool-cases (is_better candidate best)) [
    | inl better ↦
        let same : candidate ≡ r = ground arith in
        (
          inr (refl, same),
          λ _. rw same (is_better_irrefl r),
          λ b k.
              let one : best ≡ b = ground arith in
              better_trans candidate b r (rw one at better) (rw same (is_better_irrefl r)),
        )
    | inr worse ↦
        let same : best ≡ r = ground arith in
        (
          inl (ap some same),
          λ _. rw same at worse,
          λ b k. let one : b ≡ r = ground arith in rw one (is_better_irrefl r),
        )
  ]

  next_best-none :
      (applies : Bool) (candidate : AcceptRange) (best : Option AcceptRange)
      → next_best applies candidate best ≡ none
      → (best ≡ none) × (applies ≡ false)
  unfolding next_best
  next_best-none false candidate best e = (e, refl)
  next_best-none true candidate none e = absurd (ground arith)
  next_best-none true candidate (some best) e = absurd (ground arith)

  best_range-best :
      (ranges : List AcceptRange) (best : Option AcceptRange) (r : AcceptRange)
      → best_range ranges type_name subtype parameters best ≡ some r
      → ((best ≡ some r)
          ⊎ ((matches r type_name subtype parameters ≡ true) × Any (λ range. range ≡ r) ranges))
        × NoBetter r ranges
        × ((b : AcceptRange) → best ≡ some b → is_better b r ≡ false)
  unfolding best_range
  best_range-best [] best r e =
      (inl e, tt, λ b k. let one : b ≡ r = ground arith in rw one (is_better_irrefl r))
  best_range-best (candidate ∷ ranges) best r e =
      let applies = matches candidate type_name subtype parameters in
      let (origin, none_better, kept) =
        best_range-best ranges (next_best applies candidate best) r e in
      elim (Option-cases (next_best applies candidate best)) [
        | inl none' ↦
            let (nothing, unmatched) = next_best-none applies candidate best none' in
            (
              elim origin [
                | inl some' ↦ absurd (ground arith)
                | inr (m, found) ↦ inr (m, inr found)
              ],
              (λ m. ground arith, none_better),
              λ b k. ground arith,
            )
        | inr (b, now) ↦
            let (from, self, before) = next_best-cases applies candidate best b now in
            (
              elim origin [
                | inr (m, found) ↦ inr (m, inr found)
                | inl now' ↦
                    let same : b ≡ r = ground arith in
                    elim from [
                      | inl old ↦ inl (old ∙ ap some same)
                      | inr (m, is_candidate) ↦
                          let one : candidate ≡ r = is_candidate ∙ same in
                          inr (rw one at m, inl one)
                    ]
              ],
              (λ m. not_better_trans candidate b r (self m) (kept b now), none_better),
              λ b' k. not_better_trans b' b r (before b' k) (kept b now),
            )
      ]

  best_range-none :
      (ranges : List AcceptRange) (best : Option AcceptRange)
      → best_range ranges type_name subtype parameters best ≡ none
      → (best ≡ none) × All (λ range. matches range type_name subtype parameters ≡ false) ranges
  unfolding best_range
  best_range-none [] best e = (e, tt)
  best_range-none (candidate ∷ ranges) best e =
      let applies = matches candidate type_name subtype parameters in
      let (none', unmatched) = best_range-none ranges (next_best applies candidate best) e in
      let (none'', unmatched') = next_best-none applies candidate best none' in
      (none'', (unmatched', unmatched))

-- The range that the loop finds for a representation applies to it and stands in the header, and no
-- range that applies is more specific, or as specific with more parameters, or equal in both and
-- earlier.
pub best_range-IsBest :
    (ranges : List AcceptRange) (type_name subtype : Text) (parameters : Map Text)
    (best : AcceptRange)
    → best_range ranges type_name subtype parameters none ≡ some best
    → IsBest ranges type_name subtype parameters best
best_range-IsBest ranges type_name subtype parameters best e =
    let (origin, none_better, _) =
      best_range-best type_name subtype parameters ranges none best e in
    elim origin [ inl nothing ↦ absurd (ground arith) | inr (m, found) ↦ (m, found, none_better) ]
