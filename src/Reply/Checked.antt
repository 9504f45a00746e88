-- ===== src/Reply/Checked.antt =====
-- response.go and gateway.go: what an accepted reply and its headers are.
pub mod Statuses
use nats_web_gateway.Base.{
  >>-eq-ok, >>=-eq-ok, All, All-append, Bool-cases, List, Option-cases, [], ap, arith, false, inl,
  inr, length, not, ok, refl, reject_if, reject_if-eq-ok, some, true, ◌&&◌, ◌++◌, ◌||◌, ◌∷◌, ◌≡◌,
  ◌≢◌, ◌≤◌, ◌⊎◌,
}
use nats_web_gateway.Base.Int.{pos, to_nat, ℤ}
use nats_web_gateway.Base.Map.{lookup}
use nats_web_gateway.Base.Text.{Text, bytes, contains, is_empty, text_eq, text_eq_iff, text_eq_refl}
use nats_web_gateway.Base.TextLaws.{nil-of_empty}
use nats_web_gateway.Reply.Checked.Statuses.{service_status-error}
use nats_web_gateway.Reply.{
  checked_values, invalid_header, safe_response_headers, service_status, code_header,
  malformed_json, error_header, values_of, validate_reply, ReplyFunctions, check_content_type,
  service_error_code,
}
use mathlib.Core.Path.{ap₂}
use nats_web_gateway.Config.{Response, elements}
use nats_web_gateway.Config.Names.{valid_service_error_code}
use nats_web_gateway.Config.RouteRules.{validate_statuses}
use nats_web_gateway.Translation.{Message, copy_headers, header_entries}

module _ (functions : ReplyFunctions) where
  service_error_code-some :
      (texts codes : List Text) (code : Text)
      → service_error_code functions texts codes ≡ some code
      → (codes ≡ code ∷ [])
        × (valid_service_error_code code ≡ true)
        × ((text : Text) × (texts ≡ text ∷ [])
            × (text ≢ [])
            × (length text ≤ 1024)
            × (functions.valid_header_field_value text ≡ true))
  unfolding service_error_code
  service_error_code-some [] codes code e = absurd (ground arith)
  service_error_code-some (text ∷ other ∷ texts) codes code e = absurd (ground arith)
  service_error_code-some (text ∷ []) [] code e = absurd (ground arith)
  service_error_code-some (text ∷ []) (code' ∷ other ∷ codes) code e = absurd (ground arith)
  service_error_code-some (text ∷ []) (code' ∷ []) code e =
      (ground arith, ground arith, (text, refl, (λ q. ground arith), ground arith, ground arith))

  -- The content type of a reply is not given, or given once, parsed without an error and without
  -- parameters, as the representation.
  abbrev pub TypeAgrees : List Text → Text → Type 0
  TypeAgrees [] representation = Unit {0}
  TypeAgrees (value ∷ []) representation =
      let media = functions.parse_media_type value in
      (media.failed ≡ false) × (media.parameters ≡ []) × (media.media_type ≡ representation)
  TypeAgrees (value ∷ other ∷ values) representation = ⊥

  check_content_type-ok :
      (values : List Text) (representation : Text)
      → check_content_type functions values representation ≡ ok tt
      → TypeAgrees values representation
  unfolding check_content_type
  check_content_type-ok [] representation e = tt
  check_content_type-ok (value ∷ []) representation e =
      let passed = reject_if-eq-ok _ _ e in
      (ground arith, nil-of_empty _ (ground arith), (text_eq_iff _ representation).0 (ground arith))
  check_content_type-ok (value ∷ other ∷ values) representation e = absurd (ground arith)

  -- A reply without the headers of a service error is answered with 200 only if it is JSON in the
  -- mode of JSON, and its content type, if it has one, is the representation. A reply with one of
  -- these headers has both, once each: a text of 1 to 1024 bytes that is a valid header value, and a
  -- valid code. It is answered with the message and the status that the route's table has for the
  -- code, or the ones for an unknown code; if the table is an accepted one, the status is between 400
  -- and 599 and the message is not empty.
  pub validate_reply-ok :
      (reply : Message) (response : Response) (representation : Text) (status : ℤ) (message : Text)
      → validate_statuses (elements response.service_error_statuses) ≡ ok tt
      → validate_reply functions reply response representation ≡ ok (status, message)
      → ((values_of error_header reply.header ≡ [])
          × (values_of code_header reply.header ≡ [])
          × (status ≡ pos 200)
          × (message ≡ [])
          × (response.mode ≡ bytes "json" → functions.json_valid reply.payload ≡ true)
          × TypeAgrees (values_of (bytes "Content-Type") reply.header) representation)
        ⊎ ((text : Text) × (code : Text) × (values_of error_header reply.header ≡ text ∷ [])
            × (values_of code_header reply.header ≡ code ∷ [])
            × (text ≢ [])
            × (length text ≤ 1024)
            × (functions.valid_header_field_value text ≡ true)
            × (valid_service_error_code code ≡ true)
            × ((status, message) ≡ service_status response code)
            × (400 ≤ to_nat status)
            × (to_nat status ≤ 599)
            × (message ≢ []))
  unfolding validate_reply bytes
  validate_reply-ok reply response representation status message accepted e =
      elim (Bool-cases (
        not (is_empty (values_of error_header reply.header))
        || not (is_empty (values_of code_header reply.header)))) [
          | inl service ↦
              elim (Option-cases (
                service_error_code functions (values_of error_header reply.header)
                  (values_of code_header reply.header))) [
                    | inl refused ↦ absurd (ground arith)
                    | inr (code, taken) ↦
                        let (one_code, valid, (text, one_text, visible, short, printable)) =
                          service_error_code-some _ _ code taken in
                        let (low, high, some') =
                          service_status-error response code status message accepted
                            (ground (arith, (rw (service, taken, validate_reply) at e))) in
                        inr (
                          text,
                          code,
                          one_text,
                          one_code,
                          visible,
                          short,
                          printable,
                          valid,
                          ground (arith, (rw (service, taken, validate_reply) at e)),
                          low,
                          high,
                          some',
                        )
                  ]
          | inr plain ↦
              let (json, e') =
                >>-eq-ok
                  (reject_if
                    (text_eq response.mode (bytes "json")
                      && not (functions.json_valid reply.payload))
                    malformed_json)
                  _ (rw (plain, validate_reply) at e) in
              let (agrees, e2) =
                >>-eq-ok
                  (check_content_type functions (values_of (bytes "Content-Type") reply.header)
                    representation)
                  _ e' in
              inl (
                nil-of_empty _ (ground arith),
                nil-of_empty _ (ground arith),
                ground arith,
                ground arith,
                (λ same.
                    let passed = reject_if-eq-ok _ _ json in
                    let is_json = (text_eq_iff response.mode (bytes "json")).1 same in
                    ground arith),
                check_content_type-ok _ representation agrees,
              )
        ]

  -- The message is one of the two of a service error, or empty.
  pub validate_reply-message :
      (reply : Message) (response : Response) (representation : Text) (status : ℤ) (message : Text)
      → validate_reply functions reply response representation ≡ ok (status, message)
      → (message ≡ [])
        ⊎ (message ≡ bytes "upstream service error")
        ⊎ (message ≡ bytes "service request failed")
  unfolding validate_reply service_status
  validate_reply-message reply response representation status message e =
      elim (Bool-cases (
        not (is_empty (values_of error_header reply.header))
        || not (is_empty (values_of code_header reply.header)))) [
          | inl service ↦
              elim (Option-cases (
                service_error_code functions (values_of error_header reply.header)
                  (values_of code_header reply.header))) [
                    | inl refused ↦ absurd (ground arith)
                    | inr (code, taken) ↦
                        elim (Option-cases
                          (lookup code (elements response.service_error_statuses))) [
                            | inl missing ↦ inr (inl (ground arith))
                            | inr (known, found) ↦ inr (inr (ground arith))
                          ]
                  ]
          | inr plain ↦
              let (_, e') =
                >>-eq-ok
                  (reject_if
                    (text_eq response.mode (bytes "json")
                      && not (functions.json_valid reply.payload))
                    malformed_json)
                  _ (rw (plain, validate_reply) at e) in
              let (_, e2) =
                >>-eq-ok
                  (check_content_type functions (values_of (bytes "Content-Type") reply.header)
                    representation)
                  _ e' in
              inl (ground arith)
        ]

  -- An entry of the headers that are taken: its name is on the allowlist, its value is valid.
  abbrev pub Allowed : List Text → Text × Text → Type 0
  Allowed allowlist (name, value) =
      (contains allowlist name ≡ true) × (functions.valid_header_field_value value ≡ true)

  checked_values-ok :
      (name : Text) (values : List Text) (entries : List (Text × Text))
      → checked_values functions name values ≡ ok entries
      → (entries ≡ header_entries name values) × All (Allowed (name ∷ [])) entries
  unfolding contains
  checked_values-ok name [] entries e = let same : entries ≡ [] = ground arith in rw same (refl, tt)
  checked_values-ok name (value ∷ values) entries e =
      let (valid, e') =
        >>-eq-ok (reject_if (not (functions.valid_header_field_value value)) (invalid_header name))
          _ e in
      let (rest, others, e2) = >>=-eq-ok (checked_values functions name values) _ e' in
      let (same, allowed) = checked_values-ok name values rest others in
      let passed = reject_if-eq-ok _ _ valid in
      let now : entries ≡ (name, value) ∷ rest = ground arith in
      rw now (ap (◌∷◌ (name, value)) same, ((rw (text_eq_refl name) refl, ground arith), allowed))

  Allowed-more :
      (less more : List Text)
      → ((name : Text) → contains less name ≡ true → contains more name ≡ true)
      → (entries : List (Text × Text)) → All (Allowed less) entries
      → All (Allowed more) entries
  Allowed-more less more h [] a = tt
  Allowed-more less more h (entry ∷ entries) ((listed, valid), a) =
      ((h entry.0 listed, valid), Allowed-more less more h entries a)

  -- The headers that are taken from a reply are, in the order of the allowlist, all values that it
  -- has of the names there and no others, and each of them is valid.
  pub safe_response_headers-ok :
      (source : List (Text × Text)) (allowlist : List Text) (entries : List (Text × Text))
      → safe_response_headers functions source allowlist ≡ ok entries
      → (entries ≡ copy_headers (λ name. values_of name source) allowlist)
        × All (Allowed allowlist) entries
  unfolding safe_response_headers copy_headers contains
  safe_response_headers-ok source [] entries e =
      let same : entries ≡ [] = ground arith in rw same (refl, tt)
  safe_response_headers-ok source (name ∷ allowlist) entries e =
      let (own, taken, e') =
        >>=-eq-ok (checked_values functions name (values_of name source)) _ e in
      let (others, taken', e2) =
        >>=-eq-ok (safe_response_headers functions source allowlist) _ e' in
      let (same, allowed) = checked_values-ok name (values_of name source) own taken in
      let (same', allowed') = safe_response_headers-ok source allowlist others taken' in
      let now : entries ≡ own ++ others = ground arith in
      rw now (
        ap₂ ◌++◌ same same',
        All-append (Allowed (name ∷ allowlist)) own others
            (Allowed-more (name ∷ []) (name ∷ allowlist) (λ n h. ground arith) own allowed)
            (Allowed-more allowlist (name ∷ allowlist) (λ n h. ground arith) others allowed'),
      )
