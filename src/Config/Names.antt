-- ===== src/Config/Names.antt =====
-- config.go: the names of routes, HTTP methods and headers, and the codes of service errors.
use nats_web_gateway.Base.{
  Bool, List, Result, [], all, false, if◌then◌else◌, leb, length, ltb, map, none, not, ok,
  reject_if, some, true, ℕ, ◌&&◌, ◌*◌, ◌+◌, ◌-◌, ◌==◌, ◌>>◌, ◌||◌, ◌∷◌,
}
use nats_web_gateway.Base.Text.{
  Text, bytes, contains, contains_byte, has_prefix, is_empty, lower, text_eq, to_lower,
}
use nats_web_gateway.Base.Utf8.{runes}

pub data NameError : Type 0 where
  no_methods : NameError
  invalid_method duplicate_method : Text → NameError
  invalid_header forbidden duplicate_header : Text → NameError

abbrev one_of : List Text → Text → Bool
one_of [] s = false
one_of (t ∷ ts) s = text_eq s t || one_of ts s

abbrev pub upper : ℕ → ℕ
upper c = if leb b'a' c && leb c b'z' then c - 32 else c

-- `validHeaderFieldByte` of net/textproto: a token character.
abbrev header_byte : ℕ → Bool
header_byte c =
    leb b'A' c && leb c b'Z'
    || leb b'a' c && leb c b'z'
    || leb b'0' c && leb c b'9'
    || contains_byte c (bytes "!#$%&'*+-.^_`|~")

-- Upper case at the start and behind a dash, lower case elsewhere.
abbrev title_from : Bool → Text → Text
title_from up [] = []
title_from up (c ∷ s) = (if up then upper c else lower c) ∷ title_from (c == b'-') s

-- `http.CanonicalHeaderKey`
unfoldable pub canonical_header_key : Text → Text
unfolding contains_byte bytes
canonical_header_key s = if all header_byte s then title_from true s else s

unfoldable pub forbidden_prefix : Text → Bool
forbidden_prefix header =
    has_prefix (to_lower header) (bytes "nats-") || has_prefix (to_lower header) (bytes "x-nats-")

-- The list that `forbiddenGeneratedIdentityHeader` and `forbiddenHeader` share.
abbrev reserved_headers : List Text
reserved_headers =
    bytes "Authorization"
    ∷ bytes "Proxy-Authorization"
    ∷ bytes "Cookie"
    ∷ bytes "Set-Cookie"
    ∷ bytes "Connection"
    ∷ bytes "Content-Length"
    ∷ bytes "Host"
    ∷ bytes "Keep-Alive"
    ∷ bytes "Proxy-Authenticate"
    ∷ bytes "Proxy-Connection"
    ∷ bytes "Te"
    ∷ bytes "Trailer"
    ∷ bytes "Transfer-Encoding"
    ∷ bytes "Upgrade"
    ∷ []

abbrev gateway_headers : List Text
gateway_headers = bytes "X-Authenticated" ∷ bytes "X-Tenant" ∷ bytes "X-User" ∷ []

unfoldable pub forbidden_generated_identity_header : Text → Bool
unfolding forbidden_prefix
forbidden_generated_identity_header header =
    one_of reserved_headers header || forbidden_prefix header

unfoldable pub forbidden_header : Text → Bool
unfolding forbidden_prefix
forbidden_header header =
    one_of reserved_headers header
    || one_of gateway_headers header
    || forbidden_prefix header
    || has_prefix (to_lower header) (bytes "x-authenticated-")
    || has_prefix (to_lower header) (bytes "x-user-")
    || has_prefix (to_lower header) (bytes "x-tenant-")

-- `httpguts.ValidHeaderFieldName` is the argument.
module _ (valid_header_field_name : Text → Bool) where
  abbrev bad_method : Text → Bool
  bad_method method =
      is_empty method
      || not (text_eq method (map upper method))
      || not (valid_header_field_name method)

  -- The loop of `validateMethods`, with the methods seen.
  unfoldable pub distinct_methods : List Text → List Text → Result NameError (Unit {0})
  distinct_methods seen [] = ok tt
  distinct_methods seen (method ∷ methods) = do
    reject_if (bad_method method) (invalid_method method)
    reject_if (contains seen method) (duplicate_method method)
    distinct_methods (method ∷ seen) methods

  unfoldable pub validate_methods : List Text → Result NameError (Unit {0})
  validate_methods methods = do reject_if (is_empty methods) no_methods; distinct_methods [] methods

  -- The loop of `validateHeaderList`.
  unfoldable pub distinct_headers : List Text → List Text → Result NameError (Unit {0})
  distinct_headers seen [] = ok tt
  distinct_headers seen (header ∷ headers) = do
    reject_if
        (not (valid_header_field_name header) || not (text_eq (canonical_header_key header) header))
        (invalid_header header)
    reject_if (forbidden_header (canonical_header_key header)) (forbidden header)
    reject_if (contains seen (canonical_header_key header)) (duplicate_header header)
    distinct_headers (canonical_header_key header ∷ seen) headers

  abbrev pub validate_header_list : List Text → Result NameError (Unit {0})
  validate_header_list headers = distinct_headers [] headers

-- `unicode.IsLetter` and `unicode.IsDigit` are the arguments. An invalid byte is read as U+FFFD,
-- which is neither.
module _ (is_letter is_digit : ℕ → Bool) where
  abbrev name_rune : ℕ → Bool
  name_rune r = is_letter r || is_digit r || r == b'_' || r == b'-'

  unfoldable pub valid_name : Text → Bool
  valid_name value = elim (runes value) [
    | none ↦ false
    | some [] ↦ false
    | some (r ∷ rs) ↦ is_letter r && all name_rune rs
  ]

abbrev is_ascii_digit : ℕ → Bool
is_ascii_digit c = leb b'0' c && leb c b'9'

-- The value of a text of digits.
abbrev decimal : ℕ → Text → ℕ
decimal acc [] = acc
decimal acc (c ∷ s) = decimal (acc * 10 + (c - b'0')) s

abbrev leading_zero : Text → Bool
leading_zero (c ∷ d ∷ s) = c == b'0'
leading_zero _ = false

-- At most ten digits, so `strconv.ParseUint` does not overflow.
unfoldable pub valid_service_error_code : Text → Bool
valid_service_error_code code =
    if is_empty code || ltb 10 (length code) || leading_zero code
    then false
    else all is_ascii_digit code && ltb 0 (decimal 0 code)
