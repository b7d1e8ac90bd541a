-- ===== src/Proxy.antt =====
-- Responses of the gateway, of crates/github-oras-packages-proxy/src/proxy.rs and server.rs there.
pub mod Query
pub mod Distribution
pub mod Browse
pub mod Reads
pub mod Admitted
pub mod Handlers
pub mod Contacts
pub mod Methods
use github_oras_packages.Base.{
  ℕ, Bool, true, false, ◌||◌, Option, none, some, List, [], ◌∷◌, ◌++◌, Bytes, bytes, Result, ok,
  err, ◌==◌, length, text_eq, to_string, if◌then◌else◌,
}
use github_oras_packages.Autoindex.{is_some}
use github_oras_packages.Errors.{
  UpstreamFailure, ProxyError, upstream, inbound, HeaderWrite, append, insert, Response, map_error,
}
use github_oras_packages.Errors
use github_oras_packages.Http.{HeaderMap, Request}
use github_oras_packages.Inbound.Errors.{invalid_header}
use github_oras_packages.Oci.{Descriptor}
use github_oras_packages.Oci.Client.{OciClient, ClientState, Action}
use github_oras_packages.Oci.Errors.{OciError}
use github_oras_packages.Oci.Errors as OciErrors
use github_oras_packages.Oci.Fetch.{BlobBody}

-- `Response<HealthBody>`: the status, the writes to the headers, and what the body yields.
pub record ServiceResponse : Type 0 where
  pub status : ℕ
  pub writes : List HeaderWrite
  pub body : BlobBody

abbrev pub fixed_body : Bytes → BlobBody
fixed_body content = ok content ∷ []

abbrev pub into_service_response : Response → ServiceResponse
into_service_response response = record {
  status = response.status;
  writes = response.writes;
  body = fixed_body response.body;
}

-- The match of `map_oci_error`.
unfoldable pub proxy_error_of : OciError → Bool → ProxyError
proxy_error_of OciErrors.not_found true = upstream (Errors.not_found Errors.layout)
proxy_error_of OciErrors.not_found false = upstream (Errors.not_found Errors.mapped_content)
proxy_error_of (OciErrors.unauthorized challenges) layout_operation =
    upstream (Errors.unauthorized challenges)
proxy_error_of OciErrors.forbidden layout_operation = upstream Errors.forbidden
proxy_error_of (OciErrors.rate_limited retry_after) layout_operation =
    upstream (Errors.rate_limited retry_after)
proxy_error_of (OciErrors.server temporary retry_after) layout_operation =
    upstream (Errors.server temporary retry_after)
proxy_error_of OciErrors.timeout layout_operation = Errors.timeout
proxy_error_of OciErrors.invalid_layout layout_operation = upstream Errors.malformed
proxy_error_of OciErrors.invalid_descriptor layout_operation = upstream Errors.malformed
proxy_error_of OciErrors.configuration layout_operation = upstream (Errors.server false none)
proxy_error_of OciErrors.transport layout_operation = upstream (Errors.server false none)
proxy_error_of OciErrors.upstream layout_operation = upstream (Errors.server false none)

unfoldable pub map_oci_error : OciError → Bool → ServiceResponse
map_oci_error error layout_operation =
    into_service_response (map_error (proxy_error_of error layout_operation))

abbrev pub cache_control : Bool → Bytes
cache_control true = bytes "private, no-store, no-transform"
cache_control false = bytes "public, max-age=0, must-revalidate, no-transform"

-- A handler answers with a response, whatever the client returns.
abbrev pub Handler : Type 0
Handler = ClientState → ServiceResponse × ClientState

abbrev pub answer : ServiceResponse → Handler
answer response s = (response, s)

abbrev pub refuse : ProxyError → Handler
refuse error = answer (into_service_response (map_error error))

abbrev pub settle :
    {A : Type 0}
    → Bool
    → (A → Handler)
    → Result OciError A
    → ClientState
    → ServiceResponse × ClientState
settle layout_operation handler (ok a) s = handler a s
settle layout_operation handler (err error) s = (map_oci_error error layout_operation, s)

-- `match client.….await`: the error of a call is mapped, with the kind of operation it was.
unfoldable pub after : {A : Type 0} → Bool → Action A → (A → Handler) → Handler
after layout_operation call handler s = settle layout_operation handler (call s).0 (call s).1

abbrev second_value : List Bytes → Result ProxyError (Option Bytes)
second_value [] = ok none
second_value (value ∷ []) = ok (some value)
second_value (value ∷ next ∷ values) = err (inbound invalid_header)

unfoldable pub inbound_authorization : Request → Result ProxyError (Option Bytes)
inbound_authorization request = second_value (request.headers.get_all (bytes "authorization"))

-- `has_token_broker`, and `authenticated`
abbrev pub has_token_broker : OciClient → Bool
has_token_broker client = is_some client.token_credentials

unfoldable pub is_authenticated : OciClient → Option Bytes → Bool
is_authenticated client authorization = is_some authorization || has_token_broker client

abbrev pub quoted : Bytes → Bytes
quoted text = b'"' ∷ (text ++ bytes "\"")

abbrev matches_etag : Bytes → Option Bytes → Bool
matches_etag etag none = false
matches_etag etag (some value) = text_eq value etag

unfoldable pub representation :
    Bytes → Bool → Option Bytes → Descriptor → BlobBody → ServiceResponse
representation method authenticated if_none_match descriptor body =
    let etag = quoted descriptor.digest in
    if matches_etag etag if_none_match
    then record {
      status = 304;
      writes =
          append (bytes "cache-control") (cache_control authenticated)
          ∷ append (bytes "content-type") descriptor.media_type
          ∷ append (bytes "etag") etag
          ∷ append (bytes "x-content-type-options") (bytes "nosniff")
          ∷ [];
      body = fixed_body [];
    }
    else record {
      status = 200;
      writes =
          append (bytes "cache-control") (cache_control authenticated)
          ∷ append (bytes "content-type") descriptor.media_type
          ∷ append (bytes "content-length") (to_string descriptor.size)
          ∷ append (bytes "etag") etag
          ∷ append (bytes "x-content-type-options") (bytes "nosniff")
          ∷ [];
      body = if text_eq method (bytes "HEAD") then fixed_body [] else body;
    }

unfoldable pub redirect_to_directory : Bytes → ServiceResponse
redirect_to_directory path = record {
  status = 308;
  writes =
      append (bytes "location") (b'/' ∷ path)
      ∷ append (bytes "cache-control") (bytes "public, max-age=0, must-revalidate")
      ∷ [];
  body = fixed_body [];
}
