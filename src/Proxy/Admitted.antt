-- ===== src/Proxy/Admitted.antt =====
-- What is known of a Distribution request that is admitted.
use github_oras_packages.Base.{
  ◌≡◌, ◌⊎◌, ap, ◌∙◌, true, Option, ◌++◌, Bytes, bytes, ok, arith, fail_if-eq-ok, >>=-eq-ok,
  map_err-eq-ok,
}
use github_oras_packages.Gateway.{
  DistributionTarget, version, manifest, blob, blob_upload_start, blob_upload, parse_path,
}
use github_oras_packages.Inbound.{validate_distribution_request}
use github_oras_packages.Inbound.Errors.{InboundLimits}
use github_oras_packages.Oci.Forward.{Incoming}
use github_oras_packages.Proxy.Query.{valid_distribution_query, is_session_method}
use github_oras_packages.Proxy.Distribution.{admit_distribution}

-- The methods that write to a target, and the place that they write to.
abbrev pub IsWriteTo : DistributionTarget → Bytes → Bytes → Type 0
IsWriteTo version method suffix = ⊥
IsWriteTo (manifest r reference) method suffix =
    ((method ≡ bytes "PUT") ⊎ (method ≡ bytes "DELETE"))
    × (suffix ≡ bytes "/manifests/" ++ reference)
IsWriteTo (blob r digest) method suffix =
    (method ≡ bytes "DELETE") × (suffix ≡ bytes "/blobs/" ++ digest)
IsWriteTo (blob_upload_start r) method suffix =
    (method ≡ bytes "POST") × (suffix ≡ bytes "/blobs/uploads/")
IsWriteTo (blob_upload r upload_id) method suffix =
    (is_session_method method ≡ true) × (suffix ≡ bytes "/blobs/uploads/" ++ upload_id)

-- A request that was admitted, with its target.
pub record IsAdmittedFor (request : Incoming) (repository : Bytes) (limits : InboundLimits)
    (target : DistributionTarget) : Type 0 where
  pub checked : Bytes
  pub validated : validate_distribution_request request.head limits ≡ ok checked
  pub addressed : parse_path request.path repository ≡ ok target
  pub queried : valid_distribution_query target request.head.method request.query repository ≡ true

pub admit_sound :
    (request : Incoming) (repository : Bytes) (limits : InboundLimits) (target : DistributionTarget)
    (authorization : Option Bytes)
    → admit_distribution request repository limits ≡ ok (target, authorization)
    → IsAdmittedFor request repository limits target
unfolding admit_distribution
admit_sound request repository limits target authorization h =
    let (checked, a, h₁) = >>=-eq-ok _ _ h in
    let (t, b, h₂) = >>=-eq-ok _ _ h₁ in
    let (c, h₃) = fail_if-eq-ok _ _ _ h₂ in
    let (u, d, h₄) = >>=-eq-ok _ _ h₃ in
    let same : t ≡ target = ground (arith, h₄) in
    record {
      checked = checked;
      validated = map_err-eq-ok _ _ a;
      addressed = map_err-eq-ok _ _ b ∙ ap ok same;
      queried = rw (← same) (ground (arith, c));
    }
