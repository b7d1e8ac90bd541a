-- ===== src/Oci/Forward.antt =====
-- The writes that `OciClient` forwards, `forward_distribution` of
-- crates/github-oras-packages-proxy/src/oci.rs.
use github_oras_packages.Base.{
  Option, none, some, List, [], ◌∷◌, ◌++◌, Bytes, bytes, Result, ok, ok_or, if◌then◌else◌,
}
use github_oras_packages.Http.{HeaderMap, Request, insert_header}
use github_oras_packages.Libraries.{Libraries}
use github_oras_packages.Oci.Client.{
  OciClient, OciRequest, World, Action, lift, ◌>>=◌, ◌>>◌, perform,
}
use github_oras_packages.Oci.Errors.{OciError, configuration}
use github_oras_packages.Oci.Locations.{rewrite_distribution_location}
use github_oras_packages.Oci.Responses.{UpstreamResponse, is_success, classify_response}
use github_oras_packages.Oci.Streams.{Item}

-- A request with what `uri().path()`, `uri().query()` and its body return.
pub record Incoming : Type 0 where
  pub head : Request
  pub path : Bytes
  pub query : Option Bytes
  pub body : List Item

-- The fields of the request that are forwarded, in their order.
abbrev pub forwarded_names : List Bytes
forwarded_names =
    bytes "accept"
    ∷ bytes "content-type"
    ∷ bytes "content-length"
    ∷ bytes "content-range"
    ∷ bytes "if-match"
    ∷ bytes "if-none-match"
    ∷ bytes "if-unmodified-since"
    ∷ bytes "if-modified-since"
    ∷ bytes "digest"
    ∷ bytes "oci-chunk-min-length"
    ∷ []

abbrev pub named_field : Bytes → Option Bytes → List (Bytes × Bytes)
named_field name none = []
named_field name (some value) = (name, value) ∷ []

-- The loop over the names: the first value of each that is there.
unfoldable pub copy_fields : List Bytes → HeaderMap → List (Bytes × Bytes)
copy_fields [] headers = []
copy_fields (name ∷ names) headers =
    named_field name (headers.get name) ++ copy_fields names headers

abbrev query_suffix : Option Bytes → Bytes
query_suffix none = []
query_suffix (some query) = b'?' ∷ query

module _ (lib : Libraries) (world : World) (client : OciClient) where
  abbrev pub forward_uri : Bytes → Bytes → Option Bytes → Bytes
  forward_uri repository suffix query =
      client.origin ++ (bytes "/v2/" ++ (repository ++ (suffix ++ query_suffix query)))

  -- The request that is sent upstream.
  unfoldable pub forwarded_request : Bytes → Incoming → Bytes → Option Bytes → OciRequest
  forwarded_request suffix request repository authorization = record {
    method = request.head.method;
    uri = forward_uri repository suffix request.query;
    headers =
        copy_fields forwarded_names request.head.headers
        ++ named_field (bytes "authorization") authorization;
    body = request.body;
  }

  -- The rewriting of the location, if there is one.
  unfoldable pub relocate :
      Bytes → UpstreamResponse → Option Bytes → Result OciError UpstreamResponse
  relocate repository response none = ok response
  relocate repository response (some location) =
      located (rewrite_distribution_location lib client.origin repository location)
    where
      located : Result OciError Bytes → Result OciError UpstreamResponse
      located (ok value) =
          ok (record response { headers = insert_header (bytes "location") value response.headers })
      located (Result.err error) = Result.err error

  unfoldable pub forward_distribution :
      Bytes → Incoming → Bytes → Option Bytes → Action UpstreamResponse
  forward_distribution suffix request repository authorization = do
    parsed ←
        lift (ok_or configuration (lib.parse_uri (forward_uri repository suffix request.query)))
    response ← perform lib world client (forwarded_request suffix request repository authorization)
    (if is_success response.status then lift (ok tt) else lift (classify_response response))
    lift (relocate repository response (response.headers.get (bytes "location")))
