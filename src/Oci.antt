-- ===== src/Oci.antt =====
-- Descriptors, manifests and snapshots, of crates/github-oras-packages-proxy/src/oci.rs.
pub mod Errors
pub mod Checks
pub mod Projected
pub mod Accepted
pub mod Streams
pub mod Verified
pub mod Responses
pub mod Locations
pub mod Client
pub mod Confined
pub mod Recovered
pub mod RouteMaps
pub mod Fetch
pub mod Forward
use github_oras_packages.Base.{
  ℕ, ◌+◌, ◌*◌, Bool, true, false, not, ◌&&◌, ◌||◌, Option, none, some, List, [], ◌∷◌, map, Bytes,
  bytes, Result, ok, err, map_err, ok_or, ◌>>=◌, ◌>>◌, fail_if, ltb, ◌==◌, length, any, all, elem,
  is_empty, is_ascii, is_ascii_control, is_ascii_hexdigit, is_ascii_uppercase, text_eq, text_lt,
  starts_with, strip_prefix, ends_with_byte, contains_byte, split, trim, map_get, if◌then◌else◌,
}
use github_oras_packages.Autoindex.{
  VisibleObject, Index, DirectoryEntry, empty_index, new_object, insert_object, find_object,
  has_directory, children, is_some,
}
use github_oras_packages.Libraries.{Libraries, digest_bytes}
use github_oras_packages.MediaTypes.{media_type_for}
use Errors.{OciError, invalid_layout, invalid_descriptor}

abbrev pub layout_reference : Bytes
layout_reference = bytes "oras-packages.v1"

abbrev pub auto_index_reference : Bytes
auto_index_reference = bytes "autoindex.v1"

abbrev pub manifest_media_type : Bytes
manifest_media_type = bytes "application/vnd.oci.image.manifest.v1+json"

abbrev pub empty_config_media_type : Bytes
empty_config_media_type = bytes "application/vnd.oci.empty.v1+json"

abbrev pub empty_config_digest : Bytes
empty_config_digest =
    bytes "sha256:44136fa355b3678a1146ad16f7e8649e94fb4fc21fe77e8310c060f61caaff8a"

abbrev pub config_media_type : Bytes
config_media_type = bytes "application/vnd.github.oras-packages.layout.v1+json"

abbrev pub route_map_media_type : Bytes
route_map_media_type = bytes "application/vnd.github.oras-packages.route-map.v1+json"

abbrev pub max_metadata_bytes : ℕ
max_metadata_bytes = 4 * 1024 * 1024

abbrev pub max_artifact_bytes : ℕ
max_artifact_bytes = 64 * 1024 * 1024

abbrev pub visibility_annotation : Bytes
visibility_annotation = bytes "io.github.djha-skin.github-oras-packages.autoindex.visible"

abbrev pub title_annotation : Bytes
title_annotation = bytes "org.opencontainers.image.title"

abbrev pub publisher_annotation : Bytes
publisher_annotation = bytes "io.github.djha-skin.github-oras-packages.autoindex.publisher"

abbrev pub publisher_version : Bytes
publisher_version = bytes "v1"

-- An unknown field of the JSON object stands in `extra` with the text of its value.
pub record Descriptor : Type 0 where
  pub media_type : Bytes
  pub digest : Bytes
  pub size : ℕ
  pub annotations : List (Bytes × Bytes)
  pub extra : List (Bytes × Bytes)

abbrev pub with_annotations : Bytes → Bytes → ℕ → List (Bytes × Bytes) → Descriptor
with_annotations media_type digest size annotations = record {
  media_type = media_type;
  digest = digest;
  size = size;
  annotations = annotations;
  extra = [];
}

-- `new`, and `for_blob`
abbrev pub new_descriptor : Bytes → Bytes → ℕ → Descriptor
new_descriptor media_type digest size = with_annotations media_type digest size []

abbrev pub title : Descriptor → Option Bytes
title descriptor = map_get title_annotation descriptor.annotations

abbrev pub is_text : Bytes → Option Bytes → Bool
is_text expected none = false
is_text expected (some value) = text_eq value expected

unfoldable pub is_autoindex_visible : Descriptor → Bool
is_autoindex_visible descriptor =
    is_text (bytes "true") (map_get visibility_annotation descriptor.annotations)

pub record Manifest : Type 0 where
  pub schema_version : ℕ
  pub media_type : Bytes
  pub annotations : List (Bytes × Bytes)
  pub config : Descriptor
  pub layers : List Descriptor
  pub extra : List (Bytes × Bytes)

pub record AutoindexSnapshot : Type 0 where
  pub index : Index
  pub crud_compatible : Bool

unfoldable pub snapshot_object : AutoindexSnapshot → Bytes → Option VisibleObject
snapshot_object snapshot path = find_object snapshot.index path

unfoldable pub snapshot_has_directory : AutoindexSnapshot → Bytes → Result OciError Bool
snapshot_has_directory snapshot directory =
    map_err (λ _. invalid_layout) (has_directory snapshot.index directory)

unfoldable pub snapshot_children : AutoindexSnapshot → Bytes → Result OciError (List DirectoryEntry)
snapshot_children snapshot directory =
    map_err (λ _. invalid_layout) (children snapshot.index directory)

-- The objects of a snapshot in the order of their paths.
abbrev pub snapshot_objects : AutoindexSnapshot → List VisibleObject
snapshot_objects snapshot = map (λ e. e.1) snapshot.index.objects

abbrev bad_hex : Bytes → Bool
bad_hex hex =
    not (length hex == 64) || not (all is_ascii_hexdigit hex) || any is_ascii_uppercase hex

unfoldable pub valid_digest : Bytes → Result OciError Bytes
valid_digest value = do
  hex ← ok_or invalid_descriptor (strip_prefix (bytes "sha256:") value)
  fail_if (bad_hex hex) invalid_descriptor
  ok value

abbrev is_bad_media_byte : ℕ → Bool
is_bad_media_byte c = ltb c 32 || c == 127

unfoldable pub is_bad_media_type : Bytes → Bool
is_bad_media_type media_type =
    is_empty media_type
    || ltb 256 (length media_type)
    || not (is_ascii media_type)
    || not (text_eq (trim media_type) media_type)
    || any is_bad_media_byte media_type

unfoldable pub validate_descriptor : Descriptor → Result OciError (Unit {0})
validate_descriptor descriptor = do
  digest ← valid_digest descriptor.digest
  fail_if (ltb max_artifact_bytes descriptor.size) invalid_descriptor
  fail_if (is_bad_media_type descriptor.media_type) invalid_descriptor

unfoldable pub verify_descriptor : Libraries → Descriptor → Bytes → Result OciError (Unit {0})
verify_descriptor lib descriptor content = do
  fail_if (not (descriptor.size == length content)) invalid_descriptor
  digest ← valid_digest descriptor.digest
  fail_if (not (text_eq (digest_bytes lib content) digest)) invalid_descriptor

-- The loop's body in `parse_autoindex_manifest`, for a visible descriptor.
unfoldable pub insert_visible : Descriptor → Index → Result OciError Index
insert_visible descriptor index = do
  name ← ok_or invalid_layout (title descriptor)
  validate_descriptor descriptor
  object ←
      map_err (λ _. invalid_layout)
        (new_object name descriptor.digest descriptor.media_type descriptor.size)
  map_err (λ _. invalid_layout) (insert_object object index)

unfoldable pub place_layer : Descriptor → Index → Result OciError Index
place_layer descriptor index =
    if is_autoindex_visible descriptor then insert_visible descriptor index else ok index

-- The loop of `parse_autoindex_manifest` over the layers.
unfoldable pub project_layers : List Descriptor → Index → Result OciError Index
project_layers [] index = ok index
project_layers (descriptor ∷ layers) index = do
  next ← place_layer descriptor index
  project_layers layers next

abbrev has_native_type : Bytes → Option Bytes → Bool
has_native_type media_type none = false
has_native_type media_type (some name) = text_eq media_type (media_type_for name)

unfoldable pub is_native_publisher_layer : Descriptor → Bool
is_native_publisher_layer descriptor =
    is_autoindex_visible descriptor
    && is_empty descriptor.extra
    && length descriptor.annotations == 2
    && has_native_type descriptor.media_type (title descriptor)

abbrev is_before : Option Bytes → Option Bytes → Bool
is_before (some left) (some right) = text_lt left right
is_before (some left) none = false
is_before none right = false

-- `windows(2).all(…)` over the titles
unfoldable pub titles_ascend : List Descriptor → Bool
titles_ascend [] = true
titles_ascend (d ∷ []) = true
titles_ascend (d ∷ e ∷ layers) = is_before (title d) (title e) && titles_ascend (e ∷ layers)

unfoldable pub is_crud_manifest : Manifest → Bool
is_crud_manifest manifest =
    length manifest.annotations == 1
    && is_text publisher_version (map_get publisher_annotation manifest.annotations)
    && is_empty manifest.extra
    && not (is_empty manifest.layers)
    && all is_native_publisher_layer manifest.layers
    && titles_ascend manifest.layers
    && is_empty manifest.config.extra
    && is_empty manifest.config.annotations
    && text_eq manifest.config.media_type empty_config_media_type
    && text_eq manifest.config.digest empty_config_digest
    && manifest.config.size == 2

unfoldable pub validate_standard_manifest : Manifest → Result OciError (Unit {0})
validate_standard_manifest manifest = do
  fail_if
      (not (manifest.schema_version == 2) || not (text_eq manifest.media_type manifest_media_type))
      invalid_layout
  validate_descriptor manifest.config

-- `parse_autoindex_manifest` behind the reading of the JSON text
unfoldable pub project_manifest : Manifest → Result OciError AutoindexSnapshot
project_manifest manifest = do
  validate_standard_manifest manifest
  index ← project_layers manifest.layers empty_index
  ok (record { index = index; crud_compatible = is_crud_manifest manifest })

-- `read` is `serde_json::from_slice` for a manifest.
unfoldable pub parse_autoindex_manifest :
    (Bytes → Option Manifest) → Bytes → Result OciError AutoindexSnapshot
parse_autoindex_manifest read text = do
  manifest ← ok_or invalid_layout (read text)
  project_manifest manifest
