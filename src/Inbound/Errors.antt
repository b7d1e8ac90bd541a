-- ===== src/Inbound/Errors.antt =====
-- `InboundError` and `InboundLimits` of crates/github-oras-packages-proxy/src/inbound.rs.
use github_oras_packages.Base.{ℕ, ◌*◌, Bytes, bytes}
use github_oras_packages.Routing.Errors.{RouteError, route_error_code}

pub data InboundError : Type 0 where
  request_target_too_large header_count_exceeded header_bytes_exceeded : InboundError
  invalid_header request_body_not_allowed request_body_too_large : InboundError
  invalid_content_length conflicting_content_length : InboundError
  unsupported_transfer_encoding unsupported_expectation unsupported_upgrade : InboundError
  route : RouteError → InboundError

unfoldable pub inbound_error_code : InboundError → Bytes
unfolding route_error_code
inbound_error_code request_target_too_large = bytes "request_target_too_large"
inbound_error_code header_count_exceeded = bytes "header_count_exceeded"
inbound_error_code header_bytes_exceeded = bytes "header_bytes_exceeded"
inbound_error_code invalid_header = bytes "invalid_header"
inbound_error_code request_body_not_allowed = bytes "request_body_not_allowed"
inbound_error_code request_body_too_large = bytes "request_body_too_large"
inbound_error_code invalid_content_length = bytes "invalid_content_length"
inbound_error_code conflicting_content_length = bytes "conflicting_content_length"
inbound_error_code unsupported_transfer_encoding = bytes "unsupported_transfer_encoding"
inbound_error_code unsupported_expectation = bytes "unsupported_expectation"
inbound_error_code unsupported_upgrade = bytes "unsupported_upgrade"
inbound_error_code (route error) = route_error_code error

pub record InboundLimits : Type 0 where
  pub max_target_bytes : ℕ
  pub max_header_count : ℕ
  pub max_header_bytes : ℕ
  pub max_body_bytes : ℕ

abbrev pub default_limits : InboundLimits
default_limits = record {
  max_target_bytes = 8 * 1024;
  max_header_count = 64;
  max_header_bytes = 16 * 1024;
  max_body_bytes = 64 * 1024 * 1024;
}
