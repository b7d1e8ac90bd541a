-- ===== src/Oci/Errors.antt =====
-- `OciError` of crates/github-oras-packages-proxy/src/oci.rs.
use github_oras_packages.Base.{Bool, Option, List, Bytes, bytes}

pub data OciError : Type 0 where
  configuration timeout transport not_found : OciError
  unauthorized : (challenges : List Bytes) → OciError
  forbidden : OciError
  rate_limited : (retry_after : Option Bytes) → OciError
  server : (temporary : Bool) → (retry_after : Option Bytes) → OciError
  upstream invalid_layout invalid_descriptor : OciError

-- `Display`
unfoldable pub oci_error_text : OciError → Bytes
oci_error_text configuration = bytes "configuration"
oci_error_text timeout = bytes "timeout"
oci_error_text transport = bytes "transport"
oci_error_text not_found = bytes "not_found"
oci_error_text (unauthorized challenges) = bytes "unauthorized"
oci_error_text forbidden = bytes "forbidden"
oci_error_text (rate_limited retry_after) = bytes "rate_limited"
oci_error_text (server temporary retry_after) = bytes "server"
oci_error_text upstream = bytes "upstream"
oci_error_text invalid_layout = bytes "invalid_layout"
oci_error_text invalid_descriptor = bytes "invalid_descriptor"
