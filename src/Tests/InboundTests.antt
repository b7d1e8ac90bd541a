-- ===== src/Tests/InboundTests.antt =====
-- Tests of the inbound modules.
use github_oras_packages.Base.{
  ℕ, ◌≡◌, ◌⊎◌, ◌↔◌, refl, true, false, some, List, [], ◌∷◌, Bytes, bytes, ok, err, arith, ◌>>=◌,
  text_eq, split, trim_ascii, eq_ignore_ascii_case, starts_with, strip_prefix, split_once, is_utf8,
}
use github_oras_packages.Http.{HeaderMap, IsHeaderMap, Request, header_map, values_of}
use github_oras_packages.Protocols.{all_protocols, contains, parse_protocol}
use github_oras_packages.Repository.{parse_repository}
use github_oras_packages.Routing.{parse_raw_target, is_base64url_character, parse_protocol_path}
use github_oras_packages.Inbound.{
  parse_content_length, header_bytes, contains_forbidden_control, declared_length,
  validate_content_length, connection_requests_upgrade, validate_headers_with_body,
  validate_headers, validate_request_head, validate_request, validate_upload,
  validate_distribution_request, validate_autoindex_request,
}
use github_oras_packages.Inbound.Errors.{
  default_limits, header_bytes_exceeded, invalid_header, request_body_not_allowed,
  request_body_too_large, invalid_content_length, conflicting_content_length,
  unsupported_transfer_encoding, unsupported_upgrade,
}
use github_oras_packages.Inbound.Framing.{IsLength, parse_content_length_decides}
use github_oras_packages.Inbound.Headers.{IsAdmitted, validate_headers_with_body_iff}
use github_oras_packages.Inbound.Requests.{
  IsForwardable, IsBrowsable, validate_distribution_request_iff, validate_autoindex_request_iff,
  validate_request-IsBrowsable,
}
use github_oras_packages.Tests.Codec.{codec}
use github_oras_packages.Tests.RoutingTests.{foo_route, foo_target}

inbound : Unit {0}
unfolding parse_content_length header_bytes contains_forbidden_control declared_length
    validate_content_length connection_requests_upgrade validate_headers_with_body validate_headers
    validate_request_head validate_request validate_upload validate_distribution_request
    validate_autoindex_request ◌>>=◌ values_of text_eq split trim_ascii eq_ignore_ascii_case
    parse_raw_target parse_protocol_path parse_repository contains all_protocols codec starts_with
    strip_prefix split_once is_base64url_character is_utf8 parse_protocol
inbound = tt

abbrev upload_headers : HeaderMap
upload_headers = header_map (
    (bytes "host", bytes "localhost")
    ∷ (bytes "content-length", bytes "12")
    ∷ (bytes "content-length", bytes "012")
    ∷ [])

header_map-IsHeaderMap : (fields : List (Bytes × Bytes)) → IsHeaderMap (header_map fields)
header_map-IsHeaderMap fields = record {
  counts = refl;
  lists = λ name. refl;
  gets_first = λ name. refl;
  tells = λ name. refl;
}

abbrev upload : Request
upload = record {
  has_scheme = false;
  has_authority = false;
  path_and_query = some (bytes "/v2/acme/rpms/blobs/uploads/");
  method = bytes "POST";
  headers = upload_headers;
  ended = false;
}

abbrev browse : Bytes → List (Bytes × Bytes) → Request
browse target fields = record {
  has_scheme = false;
  has_authority = false;
  path_and_query = some target;
  method = bytes "GET";
  headers = header_map fields;
  ended = true;
}

length_tests :
    (parse_content_length (bytes "18446744073709551615") ≡ ok 18446744073709551615)
    × (parse_content_length (bytes "18446744073709551616") ≡ err invalid_content_length)
    × (parse_content_length (bytes "+1") ≡ err invalid_content_length)
    × (parse_content_length [] ≡ err invalid_content_length)
unfolding inbound
length_tests = (refl, refl, refl, refl)

header_tests :
    (validate_headers upload_headers default_limits ≡ err request_body_not_allowed)
    × (validate_headers_with_body upload_headers default_limits true ≡ ok tt)
    × (validate_headers
          (header_map
            ((bytes "content-length", bytes "0") ∷ (bytes "content-length", bytes "1") ∷ []))
          default_limits
        ≡ err conflicting_content_length)
    × (validate_headers
          (header_map ((bytes "connection", bytes "close, Upgrade ") ∷ []))
          default_limits
        ≡ err unsupported_upgrade)
    × (validate_headers (header_map ((bytes "x", 0 ∷ []) ∷ [])) default_limits ≡ err invalid_header)
    × (validate_headers
          (header_map ((bytes "x", bytes "12") ∷ []))
          (record default_limits { max_header_bytes = 8 })
        ≡ err header_bytes_exceeded)
    × (validate_headers
          (header_map ((bytes "transfer-encoding", bytes "chunked") ∷ []))
          default_limits
        ≡ err unsupported_transfer_encoding)
unfolding inbound
header_tests = (refl, refl, refl, refl, refl, refl, refl)

upload_passes :
    validate_distribution_request upload default_limits ≡ ok (bytes "/v2/acme/rpms/blobs/uploads/")
unfolding inbound
upload_passes = refl

upload_too_large :
    validate_distribution_request upload (record default_limits { max_body_bytes = 11 })
    ≡ err request_body_too_large
unfolding inbound
upload_too_large = refl

package_passes :
    validate_request codec (browse foo_target []) all_protocols default_limits ≡ ok foo_route
unfolding inbound
package_passes = refl

parse_content_length_decides_example :
    ((n : ℕ) × (parse_content_length (bytes "12") ≡ ok n) × IsLength (bytes "12") n)
    ⊎ ((parse_content_length (bytes "12") ≡ err invalid_content_length)
        × ((n : ℕ) → ¬ (IsLength (bytes "12") n)))
parse_content_length_decides_example = parse_content_length_decides (bytes "12")

validate_headers_with_body_iff_example :
    (validate_headers_with_body upload_headers default_limits true ≡ ok tt)
    ↔ IsAdmitted upload_headers default_limits true
validate_headers_with_body_iff_example =
    validate_headers_with_body_iff upload_headers default_limits true
      (header_map-IsHeaderMap upload_headers.iter) (omega arith)

validate_distribution_request_iff_example :
    (validate_distribution_request upload default_limits
      ≡ ok (bytes "/v2/acme/rpms/blobs/uploads/"))
    ↔ IsForwardable upload default_limits (bytes "/v2/acme/rpms/blobs/uploads/")
validate_distribution_request_iff_example =
    validate_distribution_request_iff upload default_limits (bytes "/v2/acme/rpms/blobs/uploads/")
      (header_map-IsHeaderMap upload_headers.iter) (omega arith)

validate_autoindex_request_iff_example :
    (validate_autoindex_request (browse (bytes "/a/") []) default_limits ≡ ok (bytes "/a/"))
    ↔ IsBrowsable (browse (bytes "/a/") []) default_limits (bytes "/a/")
validate_autoindex_request_iff_example =
    validate_autoindex_request_iff (browse (bytes "/a/") []) default_limits (bytes "/a/")
      (header_map-IsHeaderMap []) (omega arith)

validate_request-IsBrowsable_example :
    (target : Bytes) × IsBrowsable (browse foo_target []) default_limits target
    × (parse_raw_target codec (bytes "GET") target all_protocols ≡ ok foo_route)
validate_request-IsBrowsable_example =
    validate_request-IsBrowsable codec (browse foo_target []) all_protocols default_limits foo_route
      (header_map-IsHeaderMap []) package_passes
