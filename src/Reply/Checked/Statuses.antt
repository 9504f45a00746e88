-- ===== src/Reply/Checked/Statuses.antt =====
-- response.go: the status of a service error.
use nats_web_gateway.Base.{
  >>-eq-ok, Bool-cases, Option-cases, [], arith, false, inl, inr, not, ok, reject_if,
  reject_if-eq-ok, some, ◌||◌, ◌∷◌, ◌≡◌, ◌≢◌, ◌≤◌,
}
use nats_web_gateway.Base.Int.{ltb_ℤ, negsuc, pos, to_nat, ℤ}
use nats_web_gateway.Base.Map.{Map, lookup}
use nats_web_gateway.Base.Text.{Text, bytes, text_eq}
use nats_web_gateway.Reply.{service_status}
use nats_web_gateway.Config.{Response, elements}
use nats_web_gateway.Config.Names.{valid_service_error_code}
use nats_web_gateway.Config.RouteRules.{bad_service_code, bad_service_status, validate_statuses}

error_status :
    (status : ℤ)
    → (ltb_ℤ status (pos 400) || ltb_ℤ (pos 599) status) ≡ false
    → (400 ≤ to_nat status) × (to_nat status ≤ 599) × (status ≡ pos (to_nat status))
error_status (pos n) h = ground arith
error_status (negsuc n) h = ground arith

-- A status that an accepted table holds is one of an error.
lookup-status :
    (code : Text) (status : ℤ) (statuses : Map ℤ)
    → validate_statuses statuses ≡ ok tt
    → lookup code statuses ≡ some status
    → (400 ≤ to_nat status) × (to_nat status ≤ 599) × (status ≡ pos (to_nat status))
unfolding validate_statuses lookup
lookup-status code status [] e found = absurd (ground arith)
lookup-status code status ((code', status') ∷ statuses) e found =
    let (_, e') =
      >>-eq-ok (reject_if (not (valid_service_error_code code')) bad_service_code) _ e in
    let (within, rest) =
      >>-eq-ok (reject_if (ltb_ℤ status' (pos 400) || ltb_ℤ (pos 599) status') bad_service_status) _
        e' in
    let inside = reject_if-eq-ok _ _ within in
    elim (Bool-cases (text_eq code' code)) [
      | inl same ↦
          let one : status' ≡ status = ground arith in error_status status (rw one at inside)
      | inr other ↦ lookup-status code status statuses rest (rw (other, lookup) at found)
    ]

-- The status and the message for a code, by the table of a route.
pub service_status-error :
    (response : Response) (code : Text) (status : ℤ) (message : Text)
    → validate_statuses (elements response.service_error_statuses) ≡ ok tt
    → service_status response code ≡ (status, message)
    → (400 ≤ to_nat status) × (to_nat status ≤ 599) × (message ≢ [])
unfolding service_status bytes
service_status-error response code status message accepted e =
    elim (Option-cases (lookup code (elements response.service_error_statuses))) [
      | inl missing ↦
          let same : status ≡ pos 502 = ground arith in
          let same' : message ≡ bytes "upstream service error" = ground arith in
          (rw same (omega arith), rw same (omega arith), λ q. ground arith)
      | inr (status', found) ↦
          let same : status' ≡ status = ground arith in
          let same' : message ≡ bytes "service request failed" = ground arith in
          let (low, high, _) =
            lookup-status code status' (elements response.service_error_statuses) accepted found in
          (rw same at low, rw same at high, λ q. ground arith)
    ]
