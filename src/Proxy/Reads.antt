-- ===== src/Proxy/Reads.antt =====
-- The requests that the reads of the client cause, of crates/github-oras-packages-proxy/src/oci.rs.
use github_oras_packages.Base.{
  ℕ, ◌≡◌, ◌⊎◌, inl, inr, refl, Option, Bytes, bytes, ok, fail_if, All-map,
}
use github_oras_packages.Libraries.{Libraries}
use github_oras_packages.Oci.{
  Descriptor, auto_index_reference, manifest_media_type, max_metadata_bytes, max_artifact_bytes,
  valid_digest, validate_descriptor, parse_autoindex_manifest,
}
use github_oras_packages.Oci.Client.{OciClient, OciRequest, World, ClientState, Action, ◌>>=◌}
use github_oras_packages.Oci.Confined.{
  Sends, Within, IsContact, request_response_method-IsContact, silent, Within->>=, Within-lift,
  Within-lift_then,
}
use github_oras_packages.Oci.Errors.{invalid_layout, invalid_descriptor}
use github_oras_packages.Oci.Fetch.{
  Documents, is_bad_reference, collect_body, fetch, get_json, manifest, manifest_head, blob_head,
  blob_by_digest, blob, autoindex_snapshot,
}
use github_oras_packages.Oci.Responses.{UpstreamResponse, check_response_length}

pub Sends-map {κ ν} :
    (P : OciRequest → Type κ) (Q : OciRequest → Type ν) (k : ℕ) (before after : ClientState)
    → ((r : OciRequest) → P r → Q r)
    → Sends P k before after
    → Sends Q k before after
Sends-map P Q k before after h p = record {
  new = p.new;
  grows = p.grows;
  few = p.few;
  each = All-map P Q h p.new p.each;
}

abbrev pub IsReadVerb : Bytes → Type 0
IsReadVerb method = (method ≡ bytes "GET") ⊎ (method ≡ bytes "HEAD")

module _ (lib : Libraries) (docs : Documents) (world : World) (client : OciClient) where
  -- A GET or HEAD below the repository at the origin, or a GET to obtain a token there.
  abbrev pub IsReadOf : Bytes → OciRequest → Type 0
  IsReadOf repository r =
      (method : Bytes) × ((suffix : Bytes) × (IsReadVerb method
          × IsContact lib world client method repository suffix r))

  module _ {κ} (P : OciRequest → Type κ) (repository : Bytes)
      (allowed : (r : OciRequest) → IsReadOf repository r → P r) where
    fetch-Within :
        (method suffix accept : Bytes) (authorization : Option Bytes)
        → IsReadVerb method
        → Within P 3 (fetch lib docs world client method repository suffix accept authorization)
    fetch-Within method suffix accept authorization v s =
        Sends-map (IsContact lib world client method repository suffix) P 3 s _
          (λ r c. allowed r (method, (suffix, (v, c))))
          (request_response_method-IsContact lib world client method repository suffix accept
            authorization s)

    -- A fetch with something computed from its response.
    fetch_then :
        {A : Type 0} (method suffix accept : Bytes) (authorization : Option Bytes)
        (f : UpstreamResponse → Action A)
        → IsReadVerb method
        → ((response : UpstreamResponse) → Within P 0 (f response))
        → Within P 3
            (fetch lib docs world client method repository suffix accept authorization >>= f)
    fetch_then method suffix accept authorization f v h =
        Within->>= P 3 0 _ f (fetch-Within method suffix accept authorization v)
          (λ s response e. h response)

    pub get_json-Within :
        (reference accept : Bytes) (authorization : Option Bytes)
        → Within P 3 (get_json lib docs world client repository reference accept authorization)
    unfolding get_json
    get_json-Within reference accept authorization =
        fetch_then (bytes "GET") _ accept authorization _ (inl refl)
          (λ response. Within-lift P (collect_body max_metadata_bytes invalid_layout response))

    pub manifest-Within :
        (reference : Bytes) (authorization : Option Bytes)
        → Within P 3 (manifest lib docs world client repository reference authorization)
    unfolding manifest
    manifest-Within reference authorization =
        Within-lift_then P 3 (fail_if (is_bad_reference reference) invalid_descriptor) _
          λ u e. get_json-Within reference manifest_media_type authorization

    pub manifest_head-Within :
        (reference : Bytes) (authorization : Option Bytes)
        → Within P 3 (manifest_head lib docs world client repository reference authorization)
    unfolding manifest_head
    manifest_head-Within reference authorization =
        Within-lift_then P 3 (fail_if (is_bad_reference reference) invalid_descriptor) _ λ u e.
          fetch_then (bytes "HEAD") _ manifest_media_type authorization _ (inr refl) λ response.
            Within-lift_then P 0 (check_response_length lib response max_metadata_bytes) _
              λ n f. Within-lift P (ok response.headers)

    pub blob_head-Within :
        (digest : Bytes) (authorization : Option Bytes)
        → Within P 3 (blob_head lib docs world client repository digest authorization)
    unfolding blob_head
    blob_head-Within digest authorization = Within-lift_then P 3 (valid_digest digest) _ λ valid e.
        fetch_then (bytes "HEAD") _ (bytes "application/octet-stream") authorization _ (inr refl)
          λ response.
            Within-lift_then P 0 (check_response_length lib response max_artifact_bytes) _
              λ n f. Within-lift P (ok response.headers)

    pub blob_by_digest-Within :
        (digest : Bytes) (authorization : Option Bytes)
        → Within P 3 (blob_by_digest lib docs world client repository digest authorization)
    unfolding blob_by_digest
    blob_by_digest-Within digest authorization =
        Within-lift_then P 3 (valid_digest digest) _ λ valid e.
          fetch_then (bytes "GET") _ (bytes "application/octet-stream") authorization _ (inl refl)
            λ response. Within-lift_then P 0 _ _ λ size f. λ s. silent P s s 0 refl

    pub blob-Within :
        (descriptor : Descriptor) (authorization : Option Bytes)
        → Within P 3 (blob lib docs world client repository descriptor authorization)
    unfolding blob
    blob-Within descriptor authorization =
        Within-lift_then P 3 (validate_descriptor descriptor) _ λ u e.
          Within-lift_then P 3 (valid_digest descriptor.digest) _ λ valid f.
            fetch_then (bytes "GET") _ descriptor.media_type authorization _ (inl refl)
              λ response. λ s. silent P s s 0 refl

    pub autoindex_snapshot-Within :
        (authorization : Option Bytes)
        → Within P 3 (autoindex_snapshot lib docs world client repository authorization)
    unfolding autoindex_snapshot
    autoindex_snapshot-Within authorization =
        Within->>= P 3 0 _ _
          (get_json-Within auto_index_reference manifest_media_type authorization)
          λ s text e. Within-lift P (parse_autoindex_manifest docs.read_manifest text)
