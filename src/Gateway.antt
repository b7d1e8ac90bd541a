-- ===== src/Gateway.antt =====
-- Paths of the OCI Distribution API, of crates/github-oras-packages-proxy/src/oci_gateway.rs.
pub mod Targets
use github_oras_packages.Base.{
  ℕ, Bool, true, false, not, ◌&&◌, ◌||◌, Option, none, some, List, [], ◌∷◌, ◌++◌, Bytes, bytes,
  Result, ok, err, ◌>>=◌, ◌>>◌, fail_if, ok_or, leb, ◌==◌, length, any, all, elem, is_empty,
  is_ascii, is_ascii_alphanumeric, is_ascii_control, is_ascii_hexdigit, is_ascii_uppercase, text_eq,
  starts_with, strip_prefix, ends_with_byte, contains_byte, split_once, if◌then◌else◌,
}

pub data DistributionTarget : Type 0 where
  version : DistributionTarget
  manifest : Bytes → Bytes → DistributionTarget
  blob : Bytes → Bytes → DistributionTarget
  blob_upload_start : Bytes → DistributionTarget
  blob_upload : Bytes → Bytes → DistributionTarget

pub data DistributionPathError : Type 0 where
  invalid repository_mismatch : DistributionPathError

abbrev pub is_reference_byte : ℕ → Bool
is_reference_byte c = is_ascii_alphanumeric c || elem (bytes "._-:") c

unfoldable pub valid_reference : Bytes → Bool
valid_reference value =
    leb (length value) 256
    && is_ascii value
    && not (is_empty value)
    && not (starts_with (bytes ".") value)
    && not (ends_with_byte b'.' value)
    && all is_reference_byte value

abbrev pub is_upload_byte : ℕ → Bool
is_upload_byte c = is_ascii_alphanumeric c || elem (bytes "._-") c

unfoldable pub valid_upload_id : Bytes → Bool
valid_upload_id value =
    not (is_empty value)
    && leb (length value) 512
    && is_ascii value
    && all is_upload_byte value
    && not (text_eq value (bytes "."))
    && not (text_eq value (bytes ".."))

abbrev pub is_digest_byte : ℕ → Bool
is_digest_byte c = is_ascii_hexdigit c && not (is_ascii_uppercase c)

abbrev pub valid_hex : Option Bytes → Bool
valid_hex none = false
valid_hex (some hex) = length hex == 64 && all is_digest_byte hex

unfoldable pub valid_digest : Bytes → Bool
valid_digest value = valid_hex (strip_prefix (bytes "sha256:") value)

-- The part of `parse_path` behind the upload sessions.
unfoldable pub parse_content : Bytes → Bytes → Result DistributionPathError DistributionTarget
parse_content repository operation = do
  (kind, value) ← ok_or invalid (split_once b'/' operation)
  fail_if (is_empty value || contains_byte b'/' value || any is_ascii_control value) invalid
  if text_eq kind (bytes "manifests") && valid_reference value
      then ok (manifest repository value)
      else if text_eq kind (bytes "blobs") && valid_digest value
      then ok (blob repository value)
      else err invalid

-- The part of `parse_path` on the operation, by what is left behind `blobs/uploads/`.
unfoldable pub parse_session :
    Bytes → Bytes → Option Bytes → Result DistributionPathError DistributionTarget
parse_session repository operation (some upload_id) =
    if valid_upload_id upload_id then ok (blob_upload repository upload_id) else err invalid
parse_session repository operation none = parse_content repository operation

unfoldable pub parse_operation : Bytes → Bytes → Result DistributionPathError DistributionTarget
parse_operation repository operation = do
  fail_if (is_empty operation || any (elem (bytes "?#%\\")) operation) invalid
  if text_eq operation (bytes "blobs/uploads") || text_eq operation (bytes "blobs/uploads/")
      then ok (blob_upload_start repository)
      else parse_session repository operation (strip_prefix (bytes "blobs/uploads/") operation)

unfoldable pub parse_scoped : Bytes → Bytes → Result DistributionPathError DistributionTarget
parse_scoped path repository = do
  remainder ← ok_or invalid (strip_prefix (bytes "/v2/") path)
  fail_if (text_eq remainder repository) invalid
  operation ← ok_or repository_mismatch (strip_prefix (repository ++ bytes "/") remainder)
  parse_operation repository operation

unfoldable pub parse_path : Bytes → Bytes → Result DistributionPathError DistributionTarget
parse_path path repository =
    if text_eq path (bytes "/v2/") then ok version else parse_scoped path repository
