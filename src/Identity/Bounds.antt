-- ===== src/Identity/Bounds.antt =====
-- identity.go: what an identity is that is passed on.
use nats_web_gateway.Base.{
  All, List-cases, Option, Option-cases, [], any, ap, arith, false, inl, inr, length, ltb, none, ok,
  refl, some, ℕ, ◌↔◌, ◌∙◌, ◌∷◌, ◌≡◌, ◌≢◌, ◌≤◌, ◌⊎◌,
}
use nats_web_gateway.Base.Int.{ltb_ℤ, negsuc, pos, ℤ}
use nats_web_gateway.Base.Text.{Text, is_empty}
use nats_web_gateway.Base.TextLaws.{nil-of_empty}
use nats_web_gateway.Base.Utf8.{runes}
use mathlib.Core.Path.{ap₂}
use nats_web_gateway.Config.{DownstreamIdentity}
use nats_web_gateway.Translation.{Message, Requester}
use nats_web_gateway.Identity.{
  UserInfo, check_value, is_refused, max_reply_bytes, resolve_downstream_identity,
  user_info_request,
}

-- A control character of ASCII.
abbrev pub IsAsciiControl : ℕ → Type 0
IsAsciiControl c = (c ≤ 31) ⊎ (c ≡ 127)

-- A text of valid UTF-8 within the bound, not empty, without a control character of ASCII.
abbrev pub IsPassable : Text → ℤ → Type 0
IsPassable value bound =
    (value ≢ [])
    × ((n : ℕ) × (bound ≡ pos n) × (length value ≤ n))
    × ((characters : Text) × (runes value ≡ some characters)
        × All (λ c. ¬ IsAsciiControl c) characters)

is_refused_lem : (c : ℕ) → (is_refused c ≡ false) ↔ (¬ IsAsciiControl c)
is_refused_lem c = ground arith

any-is_refused :
    (characters : Text)
    → (any is_refused characters ≡ false) ↔ All (λ c. ¬ IsAsciiControl c) characters
any-is_refused [] = ((λ e. tt), (λ h. refl))
any-is_refused (c ∷ characters) =
    let (there, back) = any-is_refused characters in
    let (free, pass) = is_refused_lem c in
    (
      (λ e. (free (ground arith), there (ground arith))),
      (λ (p, h). let kept = pass p in let rest = back h in ground arith),
    )

within : (bound : ℤ) (k : ℕ) → (ltb_ℤ bound (pos k) ≡ false) ↔ ((n : ℕ) × (bound ≡ pos n) × (k ≤ n))
within (pos n) k = ((λ e. (n, refl, ground arith)), (λ (m, same, le). ground arith))
within (negsuc n) k = ((λ e. absurd (ground arith)), (λ (m, same, le). absurd (ground arith)))

check_value_iff :
    (value : Text) (bound : ℤ) → (check_value value bound ≡ ok value) ↔ IsPassable value bound
unfolding check_value
check_value_iff value bound = (there, back)
  where
    there : check_value value bound ≡ ok value → IsPassable value bound
    there e = elim (Option-cases (runes value)) [
      | inl broken ↦ absurd (ground arith)
      | inr (characters, valid) ↦ (
        (λ q. ground arith),
        (within bound (length value)).0 (ground arith),
        (characters, valid, (any-is_refused characters).0 (ground arith)),
      )
    ]

    back : IsPassable value bound → check_value value bound ≡ ok value
    back (visible, fits, (characters, valid, plain)) =
        let e1 = (within bound (length value)).1 fits in
        let e2 = (any-is_refused characters).1 plain in
        elim (List-cases value) [
          | inl empty ↦ absurd (visible empty)
          | inr (x, more, full) ↦ ground arith
        ]

check_value-same : (value v : Text) (bound : ℤ) → check_value value bound ≡ ok v → value ≡ v
unfolding check_value
check_value-same value v bound e = elim (Option-cases (runes value)) [
  | inl broken ↦ absurd (ground arith)
  | inr (characters, valid) ↦ ground arith
]

-- An identity is passed on exactly if it is the user of a reply to the one request for the user's
-- information, which is not empty, has at most 64 KiB and no error in it, and if it is valid UTF-8,
-- not empty, within the configured bound, and has no control character of ASCII, a line end among
-- them.
pub resolve_downstream_identity_iff :
    (unmarshal : Text → Option UserInfo) (requester : Requester) (config : DownstreamIdentity)
    (value : Text)
    → (resolve_downstream_identity unmarshal requester config ≡ ok value) ↔ (
        IsPassable value config.max_value_bytes
        × ((reply : Message) × (requester user_info_request ≡ some (some reply))
            × (reply.payload ≢ [])
            × (length reply.payload ≤ max_reply_bytes)
            × (unmarshal reply.payload ≡ some (record { user = some value; error = [] }))))
unfolding resolve_downstream_identity
resolve_downstream_identity_iff unmarshal requester config value = (there, back)
  where
    there :
        resolve_downstream_identity unmarshal requester config ≡ ok value
        → IsPassable value config.max_value_bytes
          × ((reply : Message) × (requester user_info_request ≡ some (some reply))
              × (reply.payload ≢ [])
              × (length reply.payload ≤ max_reply_bytes)
              × (unmarshal reply.payload ≡ some (record { user = some value; error = [] })))
    there e = elim (Option-cases (requester user_info_request)) [
      | inl failed ↦ absurd (ground arith)
      | inr (none, empty) ↦ absurd (ground arith)
      | inr (some reply, answered) ↦ elim (Option-cases (unmarshal reply.payload)) [
        | inl broken ↦ absurd (ground arith)
        | inr (response, parsed) ↦ elim (Option-cases response.user) [
          | inl missing ↦ absurd (ground arith)
          | inr (user, given) ↦
              let checked : check_value user config.max_value_bytes ≡ ok value = ground arith in
              let same = check_value-same user value config.max_value_bytes checked in
              let no_error : response.error ≡ [] = nil-of_empty response.error (ground arith) in
              let whole : response ≡ record { user = some value; error = [] } =
                ap₂ (λ u x. record { user = u; error = x }) (given ∙ ap some same) no_error in
              (
                (check_value_iff value config.max_value_bytes).0 (rw same at checked),
                (reply, answered, (λ q. ground arith), ground arith, parsed ∙ ap some whole),
              )
        ]
      ]
    ]

    back :
        (IsPassable value config.max_value_bytes
          × ((reply : Message) × (requester user_info_request ≡ some (some reply))
              × (reply.payload ≢ [])
              × (length reply.payload ≤ max_reply_bytes)
              × (unmarshal reply.payload ≡ some (record { user = some value; error = [] }))))
        → resolve_downstream_identity unmarshal requester config ≡ ok value
    back (passable, (reply, answered, full, short, parsed)) =
        let checked = (check_value_iff value config.max_value_bytes).1 passable in
        elim (List-cases reply.payload) [
          | inl empty ↦ absurd (full empty)
          | inr (x, more, long) ↦
              let size : ltb max_reply_bytes (length reply.payload) ≡ false = ground arith in
              let seen : is_empty reply.payload ≡ false = rw long refl in
              rw (resolve_downstream_identity, answered, seen, size, parsed) checked
        ]
