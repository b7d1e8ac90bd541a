-- ===== src/Proxy/Methods.antt =====
-- The methods that the gateway serves on each Distribution target, and its answer to the others.
use mathlib.Core.List.{Memᴰ}
use github_oras_packages.Base.{◌≡◌, List, [], ◌∷◌, ◌++◌, Bytes, bytes}
use github_oras_packages.Gateway.{
  DistributionTarget, version, manifest, blob, blob_upload_start, blob_upload,
}
use github_oras_packages.Errors.{inbound, Response, insert, map_error}
use github_oras_packages.Inbound.Errors.{route}
use github_oras_packages.Libraries.{Libraries}
use github_oras_packages.Proxy.{ServiceResponse}
use github_oras_packages.Routing.Errors.{unsupported_method}

-- The methods of a target, of the Distribution specification.
abbrev pub methods_of : DistributionTarget → List Bytes
methods_of version = bytes "GET" ∷ bytes "HEAD" ∷ []
methods_of (manifest r reference) = bytes "GET" ∷ bytes "HEAD" ∷ bytes "PUT" ∷ bytes "DELETE" ∷ []
methods_of (blob r digest) = bytes "GET" ∷ bytes "HEAD" ∷ bytes "DELETE" ∷ []
methods_of (blob_upload_start r) = bytes "POST" ∷ []
methods_of (blob_upload r upload_id) = bytes "PATCH" ∷ bytes "PUT" ∷ bytes "DELETE" ∷ []

-- A list of methods, as a field states it.
abbrev pub comma_separated : List Bytes → Bytes
comma_separated [] = []
comma_separated (method ∷ []) = method
comma_separated (method ∷ next ∷ methods) = method ++ bytes ", " ++ comma_separated (next ∷ methods)

-- The answer to a method that is not served.
abbrev pub IsRefusal : DistributionTarget → ServiceResponse → Type 0
IsRefusal target response =
    (response.status ≡ 405)
    × Memᴰ (insert (bytes "allow") (comma_separated (methods_of target))) response.writes

abbrev unsupported : Response
unsupported = map_error (inbound (route unsupported_method))
