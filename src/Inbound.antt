-- ===== src/Inbound.antt =====
-- Admission of requests, of crates/github-oras-packages-proxy/src/inbound.rs.
pub mod Errors
pub mod Framing
pub mod Headers
pub mod Requests
use github_oras_packages.Base.{
  ℕ, Bool, true, false, not, ◌&&◌, ◌||◌, Option, none, some, List, [], ◌∷◌, Bytes, bytes, Result,
  ok, err, ok_or, map_err, ◌>>=◌, ◌>>◌, fail_if, ltb, ◌==◌, length, any, all, is_empty,
  is_ascii_digit, is_ascii_control, text_eq, split, trim_ascii, eq_ignore_ascii_case, and_then,
  checked_add, fold_digits, if◌then◌else◌,
}
use github_oras_packages.Http.{HeaderMap, Request}
use github_oras_packages.Protocols.{EnabledProtocols}
use github_oras_packages.Routing.{ValidatedRoute, is_read_method, parse_raw_target}
use github_oras_packages.Routing.Engine.{Base64}
use github_oras_packages.Routing.Errors.{unsupported_method, invalid_route}
use Errors.{
  InboundError, InboundLimits, request_target_too_large, header_count_exceeded,
  header_bytes_exceeded, invalid_header, request_body_not_allowed, request_body_too_large,
  invalid_content_length, conflicting_content_length, unsupported_transfer_encoding,
  unsupported_expectation, unsupported_upgrade, route,
}

unfoldable pub parse_content_length : Bytes → Result InboundError ℕ
unfolding fold_digits
parse_content_length value = do
  fail_if (is_empty value || not (all is_ascii_digit value)) invalid_content_length
  ok_or invalid_content_length (fold_digits 0 value)

unfoldable pub contains_forbidden_control : Bytes → Bool
contains_forbidden_control = any (λ c. is_ascii_control c && not (c == b'\t'))

-- The loop over the header fields; `serialized` is `serialized_bytes`.
unfoldable pub header_bytes : ℕ → List (Bytes × Bytes) → Result InboundError ℕ
header_bytes serialized [] = ok serialized
header_bytes serialized ((name, value) ∷ fields) = do
  fail_if (contains_forbidden_control value) invalid_header
  next ← ok_or header_bytes_exceeded (
      and_then (checked_add serialized (length name)) λ a.
        and_then (checked_add a 2)
          λ b. and_then (checked_add b (length value)) λ c. checked_add c 2)
  header_bytes next fields

-- The loop over the declared lengths; the first argument is `declared_length`.
unfoldable pub declared_length : Option ℕ → List Bytes → Result InboundError (Option ℕ)
declared_length declared [] = ok declared
declared_length none (value ∷ values) = do
  length ← parse_content_length value
  declared_length (some length) values
declared_length (some previous) (value ∷ values) = do
  length ← parse_content_length value
  fail_if (not (previous == length)) conflicting_content_length
  declared_length (some previous) values

abbrev pub is_nonzero : Option ℕ → Bool
is_nonzero none = false
is_nonzero (some n) = not (n == 0)

unfoldable pub validate_content_length : HeaderMap → Bool → Result InboundError (Unit {0})
validate_content_length headers allow_body = do
  declared ← declared_length none (headers.get_all (bytes "content-length"))
  fail_if (not allow_body && is_nonzero declared) request_body_not_allowed
  ok tt

abbrev pub is_upgrade_token : Bytes → Bool
is_upgrade_token token = eq_ignore_ascii_case (trim_ascii token) (bytes "upgrade")

unfoldable pub connection_requests_upgrade : HeaderMap → Bool
connection_requests_upgrade headers =
    any (λ value. any is_upgrade_token (split b',' value)) (headers.get_all (bytes "connection"))

unfoldable pub validate_headers_with_body :
    HeaderMap → InboundLimits → Bool → Result InboundError (Unit {0})
validate_headers_with_body headers limits allow_body = do
  fail_if (ltb limits.max_header_count headers.len) header_count_exceeded
  serialized ← header_bytes 2 headers.iter
  fail_if (ltb limits.max_header_bytes serialized) header_bytes_exceeded
  validate_content_length headers allow_body
  fail_if (headers.contains_key (bytes "transfer-encoding")) unsupported_transfer_encoding
  fail_if (headers.contains_key (bytes "expect")) unsupported_expectation
  fail_if (headers.contains_key (bytes "upgrade") || connection_requests_upgrade headers)
      unsupported_upgrade
  ok tt

unfoldable pub validate_headers : HeaderMap → InboundLimits → Result InboundError (Unit {0})
validate_headers headers limits = validate_headers_with_body headers limits false

unfoldable pub validate_request_head :
    Base64
    → Bytes
    → Bytes
    → HeaderMap
    → EnabledProtocols
    → InboundLimits
    → Result InboundError ValidatedRoute
validate_request_head engine method raw_target headers enabled limits = do
  fail_if (not (is_read_method method)) (route unsupported_method)
  fail_if (ltb limits.max_target_bytes (length raw_target)) request_target_too_large
  validate_headers headers limits
  map_err route (parse_raw_target engine method raw_target enabled)

unfoldable pub validate_request :
    Base64 → Request → EnabledProtocols → InboundLimits → Result InboundError ValidatedRoute
validate_request engine request enabled limits = do
  fail_if (request.has_scheme || request.has_authority) (route invalid_route)
  raw_target ← ok_or (route invalid_route) request.path_and_query
  fail_if (ltb limits.max_target_bytes (length raw_target)) request_target_too_large
  validated ← validate_request_head engine request.method raw_target request.headers enabled limits
  fail_if (not request.ended) request_body_not_allowed
  ok validated

abbrev pub allows_body : Bytes → Bool
allows_body method =
    text_eq method (bytes "POST") || text_eq method (bytes "PATCH") || text_eq method (bytes "PUT")

abbrev pub is_distribution_method : Bytes → Bool
is_distribution_method method =
    is_read_method method || allows_body method || text_eq method (bytes "DELETE")

-- The check of the declared length, for a method that may send a body.
unfoldable pub validate_upload :
    Option Bytes → Bool → InboundLimits → Result InboundError (Unit {0})
validate_upload none ended limits = fail_if (not ended) request_body_not_allowed
validate_upload (some value) ended limits = do
  length ← parse_content_length value
  fail_if (ltb limits.max_body_bytes length) request_body_too_large

unfoldable pub validate_distribution_request : Request → InboundLimits → Result InboundError Bytes
validate_distribution_request request limits = do
  fail_if (request.has_scheme || request.has_authority) (route invalid_route)
  fail_if (not (is_distribution_method request.method)) (route unsupported_method)
  target ← ok_or (route invalid_route) request.path_and_query
  fail_if (ltb limits.max_target_bytes (length target)) request_target_too_large
  validate_headers_with_body request.headers limits (allows_body request.method)
  (if allows_body request.method
      then validate_upload (request.headers.get (bytes "content-length")) request.ended limits
      else ok tt)
  ok target

unfoldable pub validate_autoindex_request : Request → InboundLimits → Result InboundError Bytes
validate_autoindex_request request limits = do
  fail_if (request.has_scheme || request.has_authority) (route invalid_route)
  fail_if (not (is_read_method request.method)) (route unsupported_method)
  target ← ok_or (route invalid_route) request.path_and_query
  fail_if (ltb limits.max_target_bytes (length target)) request_target_too_large
  validate_headers request.headers limits
  fail_if (not request.ended) request_body_not_allowed
  ok target
