-- ===== src/Errors.antt =====
-- Errors and the responses to them, of crates/github-oras-packages-proxy/src/errors.rs.
pub mod Relay
pub mod Shape
use github_oras_packages.Base.{
  ℕ, Bool, true, false, Option, none, some, List, [], ◌∷◌, ◌++◌, map, Bytes, bytes, length,
  to_string, if◌then◌else◌,
}
use github_oras_packages.Routing.Errors.{RouteError, unsupported_method}
use github_oras_packages.Inbound.Errors.{
  InboundError, request_target_too_large, header_count_exceeded, header_bytes_exceeded,
  invalid_header, request_body_not_allowed, request_body_too_large, invalid_content_length,
  conflicting_content_length, unsupported_transfer_encoding, unsupported_expectation,
  unsupported_upgrade, route, inbound_error_code,
}
use github_oras_packages.RetryAfter.{valid_retry_after}

pub data UpstreamResource : Type 0 where
  layout mapped_content : UpstreamResource

pub data UpstreamFailure : Type 0 where
  unauthorized : (challenges : List Bytes) → UpstreamFailure
  forbidden : UpstreamFailure
  not_found : (resource : UpstreamResource) → UpstreamFailure
  rate_limited : (retry_after : Option Bytes) → UpstreamFailure
  server : (temporary : Bool) → (retry_after : Option Bytes) → UpstreamFailure
  malformed : UpstreamFailure

pub data ProxyError : Type 0 where
  inbound : InboundError → ProxyError
  upstream : UpstreamFailure → ProxyError
  timeout cancelled unexpected : ProxyError

unfoldable pub proxy_error_code : ProxyError → Bytes
proxy_error_code (inbound error) = inbound_error_code error
proxy_error_code (upstream (unauthorized challenges)) = bytes "upstream_unauthorized"
proxy_error_code (upstream forbidden) = bytes "upstream_forbidden"
proxy_error_code (upstream (not_found resource)) = bytes "upstream_not_found"
proxy_error_code (upstream (rate_limited retry_after)) = bytes "upstream_rate_limited"
proxy_error_code (upstream (server true retry_after)) = bytes "upstream_unavailable"
proxy_error_code (upstream (server false retry_after)) = bytes "upstream_failure"
proxy_error_code (upstream malformed) = bytes "upstream_invalid_response"
proxy_error_code timeout = bytes "upstream_timeout"
proxy_error_code cancelled = bytes "request_cancelled"
proxy_error_code unexpected = bytes "internal_error"

-- What is done to the header map of a response: `header` of the builder and `append` add a field,
-- `insert` puts one in the place of those with its name.
pub data HeaderWrite : Type 0 where
  append insert : (name value : Bytes) → HeaderWrite

-- A response, by its status, the writes to its headers in their order, and its body.
pub record Response : Type 0 where
  pub status : ℕ
  pub writes : List HeaderWrite
  pub body : Bytes

abbrev pub error_body : Bytes → Bytes
error_body code =
    bytes "{\"error\":\""
    ++ code
    ++ bytes "\",\"message\":\""
    ++ bytes "Request could not be completed."
    ++ bytes "\"}"

abbrev pub fixed_writes : Bytes → List HeaderWrite
fixed_writes body =
    append (bytes "cache-control") (bytes "no-store")
    ∷ append (bytes "content-type") (bytes "application/json; charset=utf-8")
    ∷ append (bytes "content-length") (to_string (length body))
    ∷ append (bytes "x-content-type-options") (bytes "nosniff")
    ∷ []

abbrev pub allow_write : List HeaderWrite
allow_write = append (bytes "allow") (bytes "GET, HEAD") ∷ []

unfoldable pub response_plan : ℕ → Bytes → Bool → Response
response_plan status code allow_methods = record {
  status = status;
  writes =
      if allow_methods
      then fixed_writes (error_body code) ++ allow_write
      else fixed_writes (error_body code);
  body = error_body code;
}

unfoldable pub map_inbound : InboundError → Response
map_inbound request_target_too_large = response_plan 414 (bytes "request_target_too_large") false
map_inbound header_count_exceeded = response_plan 431 (bytes "request_headers_too_large") false
map_inbound header_bytes_exceeded = response_plan 431 (bytes "request_headers_too_large") false
map_inbound invalid_header = response_plan 400 (bytes "invalid_header") false
map_inbound request_body_not_allowed = response_plan 400 (bytes "request_body_not_allowed") false
map_inbound request_body_too_large = response_plan 413 (bytes "request_body_too_large") false
map_inbound invalid_content_length = response_plan 400 (bytes "invalid_request_framing") false
map_inbound conflicting_content_length = response_plan 400 (bytes "invalid_request_framing") false
map_inbound unsupported_transfer_encoding =
    response_plan 400 (bytes "unsupported_transfer_encoding") false
map_inbound unsupported_expectation = response_plan 417 (bytes "unsupported_expectation") false
map_inbound unsupported_upgrade = response_plan 400 (bytes "unsupported_upgrade") false
map_inbound (route unsupported_method) = response_plan 405 (bytes "method_not_allowed") true
map_inbound (route _) = response_plan 404 (bytes "not_found") false

unfoldable pub map_upstream : UpstreamFailure → Response
map_upstream (unauthorized challenges) = response_plan 401 (bytes "upstream_unauthorized") false
map_upstream forbidden = response_plan 403 (bytes "upstream_forbidden") false
map_upstream (not_found layout) = response_plan 404 (bytes "not_found") false
map_upstream (not_found mapped_content) = response_plan 502 (bytes "upstream_missing_content") false
map_upstream (rate_limited retry_after) = response_plan 503 (bytes "upstream_rate_limited") false
map_upstream (server true retry_after) = response_plan 503 (bytes "upstream_unavailable") false
map_upstream (server false retry_after) = response_plan 502 (bytes "upstream_failure") false
map_upstream malformed = response_plan 502 (bytes "upstream_invalid_response") false

-- The first response of `map_error`, by the error.
unfoldable pub planned : ProxyError → Response
planned (inbound error) = map_inbound error
planned (upstream failure) = map_upstream failure
planned timeout = response_plan 504 (bytes "upstream_timeout") false
planned cancelled = response_plan 500 (bytes "request_cancelled") false
planned unexpected = response_plan 500 (bytes "internal_error") false

abbrev pub with_write : HeaderWrite → Response → Response
with_write write response = record response { writes = response.writes ++ write ∷ [] }

-- The loop over the challenges.
unfoldable pub append_challenges : List Bytes → Response → Response
append_challenges [] response = response
append_challenges (challenge ∷ challenges) response =
    append_challenges challenges (with_write (append (bytes "www-authenticate") challenge) response)

unfoldable pub relay_challenges : ProxyError → Response → Response
relay_challenges (upstream (unauthorized challenges)) response =
    append_challenges challenges response
relay_challenges error response = response

unfoldable pub insert_retry_after : Option Bytes → Response → Response
insert_retry_after none response = response
insert_retry_after (some value) response =
    if valid_retry_after value
    then with_write (insert (bytes "retry-after") value) response
    else response

unfoldable pub relay_retry_after : ProxyError → Response → Response
relay_retry_after (upstream (rate_limited retry_after)) response =
    insert_retry_after retry_after response
relay_retry_after (upstream (server true retry_after)) response =
    insert_retry_after retry_after response
relay_retry_after error response = response

unfoldable pub map_error : ProxyError → Response
map_error error = relay_retry_after error (relay_challenges error (planned error))
