-- ===== src/Proxy/Browse.antt =====
-- Autoindex requests, package requests and the choice between the frontends, of
-- crates/github-oras-packages-proxy/src/proxy.rs and server.rs there.
use github_oras_packages.Base.{
  Bool, true, false, not, ◌&&◌, ◌||◌, Option, none, some, List, [], ◌∷◌, ◌++◌, Bytes, bytes, Result,
  ok, err, map_err, ◌>>=◌, ◌>>◌, fail_if, length, is_empty, text_eq, starts_with, ends_with_byte,
  to_string, if◌then◌else◌,
}
use github_oras_packages.Autoindex.{
  PathError, invalid, directory_needs_trailing_slash, VisibleObject, DirectoryEntry,
  parse_request_path,
}
use github_oras_packages.Autoindex.Html.{render_directory_html}
use github_oras_packages.Errors.{
  ProxyError, inbound, upstream, not_found, layout, unexpected, append,
}
use github_oras_packages.Inbound.{validate_autoindex_request, validate_request}
use github_oras_packages.Inbound.Errors.{InboundLimits, route}
use github_oras_packages.Libraries.{Libraries}
use github_oras_packages.Oci.{
  AutoindexSnapshot, Descriptor, with_annotations, snapshot_object, snapshot_has_directory,
  snapshot_children,
}
use github_oras_packages.Oci.Client.{OciClient, World}
use github_oras_packages.Oci.Errors.{OciError}
use github_oras_packages.Oci.Fetch as Fetch
use github_oras_packages.Oci.Fetch.{Documents}
use github_oras_packages.Oci.Forward.{Incoming}
use github_oras_packages.Oci.RouteMaps.{snapshot_descriptor}
use github_oras_packages.Protocols.{EnabledProtocols, Protocol, pypi}
use github_oras_packages.Proxy.{
  ServiceResponse, Handler, fixed_body, answer, refuse, after, cache_control, inbound_authorization,
  is_authenticated, representation, redirect_to_directory,
}
use github_oras_packages.Proxy.Distribution.{handle_distribution}
use github_oras_packages.Routing.{ValidatedRoute, is_read_method}
use github_oras_packages.Routing.Engine.{Base64}
use github_oras_packages.Routing.Errors.{invalid_route}

-- The match on the error of a request path.
abbrev path_failure : PathError → ProxyError
path_failure invalid = inbound (route invalid_route)
path_failure directory_needs_trailing_slash = inbound (route invalid_route)
path_failure _ = unexpected

abbrev pub missing : Handler
missing = refuse (upstream (not_found layout))

unfoldable pub admit_autoindex : Incoming → InboundLimits → Result ProxyError (Bytes × Option Bytes)
admit_autoindex request limits = do
  target ← map_err inbound (validate_autoindex_request request.head limits)
  path ← map_err path_failure (parse_request_path target)
  authorization ← inbound_authorization request.head
  ok (path, authorization)

unfoldable pub directory_response : Bytes → Bool → Bytes → ServiceResponse
directory_response method authenticated html = record {
  status = 200;
  writes =
      append (bytes "cache-control") (cache_control authenticated)
      ∷ append (bytes "content-type") (bytes "text/html; charset=utf-8")
      ∷ append (bytes "content-length") (to_string (length html))
      ∷ append (bytes "x-content-type-options") (bytes "nosniff")
      ∷ [];
  body = fixed_body (if text_eq method (bytes "HEAD") then [] else html);
}

abbrev pub rendered : Bytes → Bool → Result PathError Bytes → Handler
rendered method authenticated (ok html) = answer (directory_response method authenticated html)
rendered method authenticated (err error) = refuse unexpected

abbrev pub listed : Bytes → Bool → Bytes → Result OciError (List DirectoryEntry) → Handler
listed method authenticated directory (ok entries) =
    rendered method authenticated (render_directory_html directory entries)
listed method authenticated directory (err error) = missing

-- A directory, by its path.
unfoldable pub serve_directory : Bytes → Bool → AutoindexSnapshot → Bytes → Handler
serve_directory method authenticated snapshot directory =
    listed method authenticated directory (snapshot_children snapshot directory)

abbrev pub holds : Result OciError Bool → Bool
holds (ok b) = b
holds (err error) = false

abbrev pub slashed : Bytes → Bytes
slashed path = path ++ bytes "/"

-- A path at which no object stands.
unfoldable pub serve_other : Bytes → Bool → AutoindexSnapshot → Bytes → Handler
serve_other method authenticated snapshot path =
    if is_empty path || ends_with_byte b'/' path
    then serve_directory method authenticated snapshot path
    else if holds (snapshot_has_directory snapshot (slashed path))
    then answer (redirect_to_directory (slashed path))
    else missing

abbrev pub descriptor_of : VisibleObject → Descriptor
descriptor_of object = with_annotations object.media_type object.digest object.size []

module _ (lib : Libraries) (docs : Documents) (world : World) (client : OciClient) where
  unfoldable pub serve_blob : Incoming → Bytes → Option Bytes → Descriptor → Handler
  serve_blob request repository authorization descriptor =
      after false (Fetch.blob lib docs world client repository descriptor authorization) (λ body.
        answer (
          representation request.head.method (is_authenticated client authorization)
            (request.head.headers.get (bytes "if-none-match")) descriptor body))

  abbrev pub by_object :
      Incoming → Bytes → Bytes → Option Bytes → AutoindexSnapshot → Option VisibleObject → Handler
  by_object request repository path authorization snapshot (some object) =
      serve_blob request repository authorization (descriptor_of object)
  by_object request repository path authorization snapshot none =
      serve_other request.head.method (is_authenticated client authorization) snapshot path

  -- `handle_autoindex` behind its checks
  unfoldable pub serve_path : Incoming → Bytes → Bytes → Option Bytes → Handler
  serve_path request repository path authorization =
      after true (Fetch.autoindex_snapshot lib docs world client repository authorization)
        (λ snapshot.
          by_object request repository path authorization snapshot (snapshot_object snapshot path))

  abbrev pub by_path : Incoming → Bytes → Result ProxyError (Bytes × Option Bytes) → Handler
  by_path request repository (err error) = refuse error
  by_path request repository (ok (path, authorization)) =
      serve_path request repository path authorization

  unfoldable pub handle_autoindex : Incoming → Bytes → InboundLimits → Handler
  handle_autoindex request repository limits =
      by_path request repository (admit_autoindex request limits)

  unfoldable pub handle_gateway : Incoming → Bytes → InboundLimits → Handler
  handle_gateway request repository limits =
      if text_eq request.path (bytes "/v2/") || starts_with (bytes "/v2/") request.path
      then handle_distribution lib docs world client request repository limits
      else handle_autoindex request repository limits

  abbrev is_pypi : Protocol → Bool
  is_pypi pypi = true
  is_pypi _ = false

  unfoldable pub admit_package :
      Base64
      → Incoming
      → EnabledProtocols
      → InboundLimits
      → Result ProxyError (ValidatedRoute × Option Bytes)
  admit_package engine request enabled limits = do
    validated ← map_err inbound (validate_request engine request.head enabled limits)
    fail_if (not (is_pypi validated.protocol)) unexpected
    authorization ← inbound_authorization request.head
    ok (validated, authorization)

  abbrev pub by_descriptor : Incoming → Bytes → Option Bytes → Option Descriptor → Handler
  by_descriptor request repository authorization none = missing
  by_descriptor request repository authorization (some descriptor) =
      serve_blob request repository authorization descriptor

  unfoldable pub serve_package : Incoming → ValidatedRoute → Option Bytes → Handler
  serve_package request validated authorization =
      after true (Fetch.snapshot lib docs world client validated.repository.name authorization)
        (λ snapshot.
          by_descriptor request validated.repository.name authorization
            (snapshot_descriptor snapshot (bytes "pypi") validated.protocol_path.path))

  abbrev pub by_package : Incoming → Result ProxyError (ValidatedRoute × Option Bytes) → Handler
  by_package request (err error) = refuse error
  by_package request (ok (validated, authorization)) = serve_package request validated authorization

  unfoldable pub handle : Base64 → Incoming → EnabledProtocols → InboundLimits → Handler
  handle engine request enabled limits =
      by_package request (admit_package engine request enabled limits)

unfoldable pub health_response : Bool → Bytes → ServiceResponse
health_response ready method =
    let body = if ready then bytes "ok\n" else bytes "not ready\n" in
    record {
      status = if ready then 200 else 503;
      writes =
          append (bytes "cache-control") (bytes "no-store")
          ∷ append (bytes "content-type") (bytes "text/plain; charset=utf-8")
          ∷ append (bytes "content-length") (to_string (length body))
          ∷ append (bytes "x-content-type-options") (bytes "nosniff")
          ∷ [];
      body = fixed_body (if text_eq method (bytes "HEAD") then [] else body);
    }

abbrev is_health_path : Bytes → Bool
is_health_path path = text_eq path (bytes "/healthz") || text_eq path (bytes "/readyz")

-- `dispatch` of the server
unfoldable pub dispatch : (Incoming → Handler) → Incoming → Handler
dispatch handler request =
    if is_read_method request.head.method && is_health_path request.path
    then answer (health_response true request.head.method)
    else handler request
