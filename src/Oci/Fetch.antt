-- ===== src/Oci/Fetch.antt =====
-- The reads of `OciClient`, of crates/github-oras-packages-proxy/src/oci.rs.
use github_oras_packages.Base.{
  ℕ, ◌+◌, Bool, not, ◌||◌, Option, none, some, List, [], ◌∷◌, ◌++◌, Bytes, bytes, Result, ok, err,
  ok_or, fail_if, ltb, length, any, elem, is_empty, is_ascii, and_then, checked_add, if◌then◌else◌,
}
use github_oras_packages.Http.{HeaderMap}
use github_oras_packages.Libraries.{Libraries}
use github_oras_packages.Oci.{
  Descriptor, Manifest, AutoindexSnapshot, new_descriptor, layout_reference, auto_index_reference,
  manifest_media_type, max_metadata_bytes, max_artifact_bytes, valid_digest, validate_descriptor,
  verify_descriptor, parse_autoindex_manifest,
}
use github_oras_packages.Oci.Client.{
  OciClient, World, Action, lift, ◌>>=◌, ◌>>◌, request_response_method,
}
use github_oras_packages.Oci.Errors.{OciError, timeout, invalid_layout, invalid_descriptor}
use github_oras_packages.Oci.Responses.{
  UpstreamResponse, number_field, at_most, check_response_length, collect_limited,
}
use github_oras_packages.Oci.RouteMaps.{
  LayoutConfig, RouteMap, Snapshot, validate_manifest, validate_config, parse_route_map,
}
use github_oras_packages.Oci.Streams.{verified_body}

-- `serde_json::from_slice` for the documents of the client.
pub record Documents : Type 0 where
  pub read_manifest : Bytes → Option Manifest
  pub read_config : Bytes → Option LayoutConfig
  pub read_route_map : Bytes → Option RouteMap

-- A verified body is what it passes on: chunks and errors.
abbrev pub BlobBody : Type 0
BlobBody = List (Result OciError Bytes)

-- The tests of a reference in `manifest` and `manifest_head`.
unfoldable pub is_bad_reference : Bytes → Bool
is_bad_reference reference =
    is_empty reference
    || ltb 256 (length reference)
    || not (is_ascii reference)
    || any (elem (bytes "/?#%\\")) reference

-- A body collected within the timeout and a limit, with the error for each failure.
unfoldable pub collect_body : ℕ → OciError → UpstreamResponse → Result OciError Bytes
collect_body limit error response =
    if response.stalled then err timeout else ok_or error (collect_limited limit [] response.body)

abbrev unwrap_or : Bytes → Option Bytes → Bytes
unwrap_or fallback none = fallback
unwrap_or fallback (some value) = value

abbrev first_layer : List Descriptor → Option Descriptor
first_layer [] = none
first_layer (layer ∷ layers) = some layer

module _ (lib : Libraries) (docs : Documents) (world : World) (client : OciClient) where
  abbrev pub fetch : Bytes → Bytes → Bytes → Bytes → Option Bytes → Action UpstreamResponse
  fetch = request_response_method lib world client

  unfoldable pub get_json : Bytes → Bytes → Bytes → Option Bytes → Action Bytes
  get_json repository reference accept authorization = do
    response ←
        fetch (bytes "GET") repository (bytes "/manifests/" ++ reference) accept authorization
    lift (collect_body max_metadata_bytes invalid_layout response)

  unfoldable pub manifest : Bytes → Bytes → Option Bytes → Action Bytes
  manifest repository reference authorization = do
    lift (fail_if (is_bad_reference reference) invalid_descriptor)
    get_json repository reference manifest_media_type authorization

  unfoldable pub manifest_head : Bytes → Bytes → Option Bytes → Action HeaderMap
  manifest_head repository reference authorization = do
    lift (fail_if (is_bad_reference reference) invalid_descriptor)
    response ←
        fetch (bytes "HEAD") repository (bytes "/manifests/" ++ reference) manifest_media_type
          authorization
    length ← lift (check_response_length lib response max_metadata_bytes)
    lift (ok response.headers)

  unfoldable pub blob_head : Bytes → Bytes → Option Bytes → Action HeaderMap
  blob_head repository digest authorization = do
    valid ← lift (valid_digest digest)
    response ←
        fetch (bytes "HEAD") repository (bytes "/blobs/" ++ valid)
          (bytes "application/octet-stream") authorization
    length ← lift (check_response_length lib response max_artifact_bytes)
    lift (ok response.headers)

  -- The content type of a blob, which need not be stated.
  abbrev stated_type : UpstreamResponse → Bytes
  stated_type response =
      unwrap_or (bytes "application/octet-stream")
        (and_then (response.headers.get (bytes "content-type")) lib.to_str)

  unfoldable pub blob_by_digest : Bytes → Bytes → Option Bytes → Action (BlobBody × (ℕ × Bytes))
  blob_by_digest repository digest authorization = do
    valid ← lift (valid_digest digest)
    response ←
        fetch (bytes "GET") repository (bytes "/blobs/" ++ valid) (bytes "application/octet-stream")
          authorization
    size ← lift (
        ok_or invalid_descriptor
          (at_most max_artifact_bytes (number_field lib response.headers (bytes "content-length"))))
    let media_type = stated_type response
    lift (
        ok (
          verified_body lib (new_descriptor media_type valid size) response.body,
          (size, media_type),
        ))

  unfoldable pub blob : Bytes → Descriptor → Option Bytes → Action BlobBody
  blob repository descriptor authorization = do
    lift (validate_descriptor descriptor)
    valid ← lift (valid_digest descriptor.digest)
    response ←
        fetch (bytes "GET") repository (bytes "/blobs/" ++ valid) descriptor.media_type
          authorization
    lift (ok (verified_body lib descriptor response.body))

  unfoldable pub get_blob_bytes : Bytes → Descriptor → Option Bytes → Action Bytes
  get_blob_bytes repository descriptor authorization = do
    lift (validate_descriptor descriptor)
    valid ← lift (valid_digest descriptor.digest)
    response ←
        fetch (bytes "GET") repository (bytes "/blobs/" ++ valid) descriptor.media_type
          authorization
    limit ← lift (
        ok_or invalid_descriptor (at_most (max_artifact_bytes + 1) (checked_add descriptor.size 1)))
    content ← lift (collect_body limit invalid_descriptor response)
    lift (verify_descriptor lib descriptor content)
    lift (ok content)

  unfoldable pub autoindex_snapshot : Bytes → Option Bytes → Action AutoindexSnapshot
  autoindex_snapshot repository authorization = do
    text ← get_json repository auto_index_reference manifest_media_type authorization
    lift (parse_autoindex_manifest docs.read_manifest text)

  -- `snapshot` from the validated manifest on.
  unfoldable pub load_routes : Bytes → Manifest → Descriptor → Option Bytes → Action Snapshot
  load_routes repository document layer authorization = do
    config ← get_blob_bytes repository document.config authorization
    lift (verify_descriptor lib document.config config)
    lift (validate_config docs.read_config config)
    routes ← get_blob_bytes repository layer authorization
    lift (verify_descriptor lib layer routes)
    lift (parse_route_map docs.read_route_map routes)

  unfoldable pub snapshot : Bytes → Option Bytes → Action Snapshot
  snapshot repository authorization = do
    text ← get_json repository layout_reference manifest_media_type authorization
    document ← lift (ok_or invalid_layout (docs.read_manifest text))
    lift (validate_manifest document)
    layer ← lift (ok_or invalid_layout (first_layer document.layers))
    load_routes repository document layer authorization
