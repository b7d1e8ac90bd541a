-- ===== src/Oci/Responses.antt =====
-- Responses of the registry and their classification, of
-- crates/github-oras-packages-proxy/src/oci.rs.
use github_oras_packages.Base.{
  ℕ, Bool, Option, none, some, List, [], ◌∷◌, ◌++◌, Bytes, bytes, Result, ok, err, ok_or, ltb, leb,
  ◌==◌, length, in_range, parse_unsigned, and_then, u64_bound, if◌then◌else◌,
}
use github_oras_packages.Http.{HeaderMap}
use github_oras_packages.Libraries.{Libraries}
use github_oras_packages.Oci.Errors.{
  OciError, not_found, unauthorized, forbidden, rate_limited, server, upstream, invalid_descriptor,
}
use github_oras_packages.Oci.Streams.{Item, chunk, failure}

-- A response; `stalled` tells that its body does not end within the timeout.
pub record UpstreamResponse : Type 0 where
  pub status : ℕ
  pub headers : HeaderMap
  pub body : List Item
  pub stalled : Bool

abbrev pub challenges_of : HeaderMap → List Bytes
challenges_of headers = headers.get_all (bytes "www-authenticate")

-- The error of `classify_response`, for a status other than 200.
unfoldable pub failure_of : ℕ → HeaderMap → OciError
failure_of status headers =
    if status == 404
    then not_found
    else if status == 401
    then unauthorized (challenges_of headers)
    else if status == 403
    then forbidden
    else if status == 429
    then rate_limited (headers.get (bytes "retry-after"))
    else if in_range 500 599 status
    then server (status == 503) (headers.get (bytes "retry-after"))
    else upstream

unfoldable pub classify_response : UpstreamResponse → Result OciError (Unit {0})
classify_response response =
    if response.status == 200 then ok tt else err (failure_of response.status response.headers)

-- `StatusCode::is_success`
abbrev pub is_success : ℕ → Bool
is_success = in_range 200 299

-- `get(name).and_then(to_str).and_then(parse::<u64>)`
abbrev pub number_field : Libraries → HeaderMap → Bytes → Option ℕ
number_field lib headers name =
    and_then (and_then (headers.get name) lib.to_str) (parse_unsigned u64_bound)

abbrev pub at_most : ℕ → Option ℕ → Option ℕ
at_most maximum none = none
at_most maximum (some n) = if leb n maximum then some n else none

unfoldable pub check_response_length : Libraries → UpstreamResponse → ℕ → Result OciError ℕ
check_response_length lib response maximum =
    ok_or invalid_descriptor
      (at_most maximum (number_field lib response.headers (bytes "content-length")))

-- `Limited::new(body, limit).collect()`: the bytes of a body that does not fail, if they are at most
-- `limit`; `taken` are those before.
unfoldable pub collect_limited : ℕ → Bytes → List Item → Option Bytes
collect_limited limit taken [] = some taken
collect_limited limit taken (failure ∷ items) = none
collect_limited limit taken (chunk content ∷ items) =
    let rest = collect_limited limit (taken ++ content) items in
    if ltb limit (length (taken ++ content)) then none else rest
