-- ===== src/Proxy/Distribution.antt =====
-- The dispatch of Distribution requests, `handle_distribution` of
-- crates/github-oras-packages-proxy/src/proxy.rs.
use github_oras_packages.Base.{
  ℕ, Bool, true, not, ◌||◌, Option, none, some, List, [], ◌∷◌, ◌++◌, Bytes, bytes, Result, ok, err,
  map_err, ◌>>=◌, ◌>>◌, fail_if, length, text_eq, to_string, and_then, if◌then◌else◌,
}
use github_oras_packages.Errors.{
  ProxyError, inbound, upstream, not_found, layout, HeaderWrite, append, insert, with_write,
  map_error,
}
use github_oras_packages.Gateway.{
  DistributionTarget, version, manifest, blob, blob_upload_start, blob_upload, parse_path,
}
use github_oras_packages.Http.{HeaderMap}
use github_oras_packages.Inbound.{validate_distribution_request}
use github_oras_packages.Inbound.Errors.{InboundLimits, route}
use github_oras_packages.Libraries.{Libraries, digest_bytes}
use github_oras_packages.Oci.{manifest_media_type}
use github_oras_packages.Oci.Client.{OciClient, World}
use github_oras_packages.Oci.Fetch as Fetch
use github_oras_packages.Oci.Fetch.{Documents, BlobBody}
use github_oras_packages.Oci.Forward.{Incoming, copy_fields, forward_distribution}
use github_oras_packages.Oci.Responses.{UpstreamResponse}
use github_oras_packages.Oci.Streams.{Item, chunk, failure}
use github_oras_packages.Oci.Errors as OciErrors
use github_oras_packages.Proxy.{
  ServiceResponse, Handler, fixed_body, into_service_response, answer, refuse, after, cache_control,
  inbound_authorization, is_authenticated, quoted,
}
use github_oras_packages.Proxy.Query.{valid_distribution_query}
use github_oras_packages.Routing.{is_read_method}
use github_oras_packages.Routing.Errors.{invalid_route, unsupported_method}

abbrev pub fields_as_writes : List (Bytes × Bytes) → List HeaderWrite
fields_as_writes [] = []
fields_as_writes ((name, value) ∷ fields) = append name value ∷ fields_as_writes fields

abbrev unwrap_or : Bytes → Option Bytes → Bytes
unwrap_or fallback none = fallback
unwrap_or fallback (some value) = value

abbrev digest_write : Option Bytes → Option Bytes → List HeaderWrite
digest_write (some value) fallback = []
digest_write none none = []
digest_write none (some digest) = append (bytes "docker-content-digest") digest ∷ []

unfoldable pub distribution_head_response :
    Libraries → HeaderMap → Bytes → Bytes → Option Bytes → ServiceResponse
distribution_head_response lib headers fallback_media_type cache fallback_digest = record {
  status = 200;
  writes =
      append (bytes "cache-control") cache
        ∷ fields_as_writes (
            copy_fields (bytes "content-length" ∷ bytes "etag" ∷ bytes "docker-content-digest" ∷ [])
              headers)
      ++ append (bytes "content-type")
          (unwrap_or fallback_media_type (and_then (headers.get (bytes "content-type")) lib.to_str))
        ∷ digest_write (headers.get (bytes "docker-content-digest")) fallback_digest;
  body = fixed_body [];
}

-- The `Allow` field of a target.
unfoldable pub allow_value : DistributionTarget → Bytes
allow_value version = bytes "GET, HEAD"
allow_value (manifest r reference) = bytes "GET, HEAD, PUT, DELETE"
allow_value (blob r digest) = bytes "GET, HEAD, DELETE"
allow_value (blob_upload_start r) = bytes "POST"
allow_value (blob_upload r upload_id) = bytes "PATCH, PUT, DELETE"

unfoldable pub distribution_method_not_allowed : DistributionTarget → ServiceResponse
distribution_method_not_allowed target = into_service_response (
    with_write (insert (bytes "allow") (allow_value target))
      (map_error (inbound (route unsupported_method))))

-- A forwarded body, as it is passed on.
abbrev relayed_item : Item → Result OciErrors.OciError Bytes
relayed_item (chunk content) = ok content
relayed_item failure = err OciErrors.transport

abbrev relayed_body : List Item → BlobBody
relayed_body [] = []
relayed_body (item ∷ items) = relayed_item item ∷ relayed_body items

-- The fields of a forwarded response that are passed on, in their order.
abbrev pub response_names : List Bytes
response_names =
    bytes "content-length"
    ∷ bytes "content-type"
    ∷ bytes "location"
    ∷ bytes "etag"
    ∷ bytes "retry-after"
    ∷ bytes "www-authenticate"
    ∷ bytes "docker-content-digest"
    ∷ bytes "docker-upload-uuid"
    ∷ bytes "docker-distribution-api-version"
    ∷ bytes "range"
    ∷ []

unfoldable pub forwarded_response : UpstreamResponse → ServiceResponse
forwarded_response response = record {
  status = response.status;
  writes =
      append (bytes "cache-control") (bytes "no-store")
      ∷ fields_as_writes (copy_fields response_names response.headers);
  body = relayed_body response.body;
}

abbrev pub version_response : ServiceResponse
version_response = record {
  status = 200;
  writes =
      append (bytes "docker-distribution-api-version") (bytes "registry/2.0")
      ∷ append (bytes "content-length") (bytes "0")
      ∷ [];
  body = fixed_body [];
}

unfoldable pub manifest_response : Libraries → Bytes → Bytes → ServiceResponse
manifest_response lib cache content =
    let digest = digest_bytes lib content in
    record {
      status = 200;
      writes =
          append (bytes "content-type") manifest_media_type
          ∷ append (bytes "content-length") (to_string (length content))
          ∷ append (bytes "docker-content-digest") digest
          ∷ append (bytes "etag") (quoted digest)
          ∷ append (bytes "cache-control") cache
          ∷ [];
      body = fixed_body content;
    }

unfoldable pub blob_response : Bytes → Bytes → BlobBody × (ℕ × Bytes) → ServiceResponse
blob_response cache digest (body, (size, media_type)) = record {
  status = 200;
  writes =
      append (bytes "content-type") media_type
      ∷ append (bytes "content-length") (to_string size)
      ∷ append (bytes "docker-content-digest") digest
      ∷ append (bytes "cache-control") cache
      ∷ [];
  body = body;
}

-- What is admitted: the target and the caller's credentials.
unfoldable pub admit_distribution :
    Incoming → Bytes → InboundLimits → Result ProxyError (DistributionTarget × Option Bytes)
admit_distribution request repository limits = do
  checked ← map_err inbound (validate_distribution_request request.head limits)
  target ← map_err (λ _. upstream (not_found layout)) (parse_path request.path repository)
  fail_if (not (valid_distribution_query target request.head.method request.query repository))
      (inbound (route invalid_route))
  authorization ← inbound_authorization request.head
  ok (target, authorization)

module _ (lib : Libraries) (docs : Documents) (world : World) (client : OciClient) where
  unfoldable pub forward_distribution_write : Incoming → Bytes → Bytes → Option Bytes → Handler
  forward_distribution_write request repository suffix authorization =
      after true (forward_distribution lib world client suffix request repository authorization)
        (λ response. answer (forwarded_response response))

  abbrev pub is_method : Incoming → Bytes → Bool
  is_method request method = text_eq request.head.method method

  -- The match on the target and the method.
  unfoldable pub dispatch_target : Incoming → Bytes → Option Bytes → DistributionTarget → Handler
  dispatch_target request repository authorization version =
      if is_read_method request.head.method
      then answer version_response
      else answer (distribution_method_not_allowed version)
  dispatch_target request repository authorization (manifest r reference) =
      let cache = cache_control (is_authenticated client authorization) in
      if is_method request (bytes "GET")
      then after true (Fetch.manifest lib docs world client repository reference authorization)
          (λ content. answer (manifest_response lib cache content))
      else if is_method request (bytes "HEAD")
      then after true (Fetch.manifest_head lib docs world client repository reference authorization)
          (λ headers.
            answer (distribution_head_response lib headers manifest_media_type cache none))
      else if is_method request (bytes "PUT") || is_method request (bytes "DELETE")
      then forward_distribution_write request repository (bytes "/manifests/" ++ reference)
          authorization
      else answer (distribution_method_not_allowed (manifest r reference))
  dispatch_target request repository authorization (blob r digest) =
      let cache = cache_control (is_authenticated client authorization) in
      if is_method request (bytes "GET")
      then after true (Fetch.blob_by_digest lib docs world client repository digest authorization)
          (λ found. answer (blob_response cache digest found))
      else if is_method request (bytes "HEAD")
      then after true (Fetch.blob_head lib docs world client repository digest authorization)
          (λ headers. answer (
            distribution_head_response lib headers (bytes "application/octet-stream") cache
              (some digest)))
      else if is_method request (bytes "DELETE")
      then forward_distribution_write request repository (bytes "/blobs/" ++ digest) authorization
      else answer (distribution_method_not_allowed (blob r digest))
  dispatch_target request repository authorization (blob_upload_start r) =
      if is_method request (bytes "POST")
      then forward_distribution_write request repository (bytes "/blobs/uploads/") authorization
      else answer (distribution_method_not_allowed (blob_upload_start r))
  dispatch_target request repository authorization (blob_upload r upload_id) =
      if is_method request (bytes "PATCH")
        || is_method request (bytes "PUT")
        || is_method request (bytes "DELETE")
      then forward_distribution_write request repository (bytes "/blobs/uploads/" ++ upload_id)
          authorization
      else answer (distribution_method_not_allowed (blob_upload r upload_id))

  abbrev pub by_admission :
      Incoming → Bytes → Result ProxyError (DistributionTarget × Option Bytes) → Handler
  by_admission request repository (err error) = refuse error
  by_admission request repository (ok (target, authorization)) =
      dispatch_target request repository authorization target

  unfoldable pub handle_distribution : Incoming → Bytes → InboundLimits → Handler
  handle_distribution request repository limits =
      by_admission request repository (admit_distribution request repository limits)
