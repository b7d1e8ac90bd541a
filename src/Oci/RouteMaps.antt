-- ===== src/Oci/RouteMaps.antt =====
-- The layout of version 1: its manifest, its configuration and its route map, of
-- crates/github-oras-packages-proxy/src/oci.rs.
use github_oras_packages.Base.{
  ℕ, Bool, false, not, ◌&&◌, ◌||◌, Option, none, some, List, [], ◌∷◌, Bytes, bytes, Result, ok, err,
  ok_or, ◌>>=◌, ◌>>◌, fail_if, ◌==◌, any, elem, is_empty, is_ascii, is_ascii_control, starts_with,
  ends_with_byte, text_eq, split, if◌then◌else◌,
}
use github_oras_packages.Autoindex.{is_some}
use github_oras_packages.Oci.{
  Descriptor, Manifest, manifest_media_type, config_media_type, route_map_media_type,
  validate_descriptor,
}
use github_oras_packages.Oci.Errors.{OciError, invalid_layout}

pub record LayoutConfig : Type 0 where
  pub kind : Bytes
  pub version : ℕ

pub record RouteEntry : Type 0 where
  pub protocol : Bytes
  pub path : Bytes
  pub descriptor : Descriptor

pub record RouteMap : Type 0 where
  pub version : ℕ
  pub routes : List RouteEntry

-- The map of a snapshot, by its pairs of a protocol and a path; its order is not modelled.
pub record Snapshot : Type 0 where
  pub routes : List RouteEntry

abbrev is_route : Bytes → Bytes → RouteEntry → Bool
is_route protocol path entry = text_eq entry.protocol protocol && text_eq entry.path path

unfoldable pub route_descriptor : Bytes → Bytes → List RouteEntry → Option Descriptor
route_descriptor protocol path [] = none
route_descriptor protocol path (entry ∷ entries) =
    if is_route protocol path entry
    then some entry.descriptor
    else route_descriptor protocol path entries

-- The checks of the layers of a manifest, of which there must be one.
unfoldable pub validate_layers : Manifest → List Descriptor → Result OciError (Unit {0})
validate_layers manifest (layer ∷ []) = do
  fail_if
      (not (manifest.schema_version == 2)
        || not (text_eq manifest.media_type manifest_media_type)
        || not (text_eq manifest.config.media_type config_media_type)
        || not (text_eq layer.media_type route_map_media_type)
        || text_eq manifest.config.digest layer.digest)
      invalid_layout
  validate_descriptor manifest.config
  validate_descriptor layer
validate_layers manifest [] = err invalid_layout
validate_layers manifest (layer ∷ next ∷ layers) = err invalid_layout

unfoldable pub validate_manifest : Manifest → Result OciError (Unit {0})
validate_manifest manifest = validate_layers manifest manifest.layers

-- `read` is `serde_json::from_slice`.
unfoldable pub validate_config : (Bytes → Option LayoutConfig) → Bytes → Result OciError (Unit {0})
validate_config read text = do
  config ← ok_or invalid_layout (read text)
  if text_eq config.kind (bytes "github-oras-packages-layout") && config.version == 1
      then ok tt
      else err invalid_layout

unfoldable pub has_double_slash : Bytes → Bool
has_double_slash [] = false
has_double_slash (c ∷ s) = starts_with (bytes "//") (c ∷ s) || has_double_slash s

abbrev is_known_protocol : Bytes → Bool
is_known_protocol protocol =
    text_eq protocol (bytes "pypi")
    || text_eq protocol (bytes "rpm")
    || text_eq protocol (bytes "apt")
    || text_eq protocol (bytes "pacman")

abbrev is_dot_segment : Bytes → Bool
is_dot_segment segment =
    not (is_empty segment) && (text_eq segment (bytes ".") || text_eq segment (bytes ".."))

-- The test of one entry in `parse_route_map`.
unfoldable pub is_bad_entry : RouteEntry → Bool
is_bad_entry entry =
    not (is_known_protocol entry.protocol)
    || is_empty entry.path
    || starts_with (bytes "/") entry.path
    || has_double_slash entry.path
    || any (elem (bytes "\\%?#")) entry.path
    || not (is_ascii entry.path)
    || any is_ascii_control entry.path
    || any is_dot_segment (split b'/' entry.path)
    || (any is_empty (split b'/' entry.path) && not (ends_with_byte b'/' entry.path))

unfoldable pub insert_route : RouteEntry → List RouteEntry → Result OciError (List RouteEntry)
insert_route entry routes = do
  fail_if (is_bad_entry entry) invalid_layout
  validate_descriptor entry.descriptor
  fail_if (is_some (route_descriptor entry.protocol entry.path routes)) invalid_layout
  ok (entry ∷ routes)

unfoldable pub insert_routes : List RouteEntry → List RouteEntry → Result OciError (List RouteEntry)
insert_routes [] routes = ok routes
insert_routes (entry ∷ entries) routes = do
  next ← insert_route entry routes
  insert_routes entries next

unfoldable pub parse_route_map : (Bytes → Option RouteMap) → Bytes → Result OciError Snapshot
parse_route_map read text = do
  map ← ok_or invalid_layout (read text)
  fail_if (not (map.version == 1) || is_empty map.routes) invalid_layout
  routes ← insert_routes map.routes []
  ok (record { routes = routes })

unfoldable pub snapshot_descriptor : Snapshot → Bytes → Bytes → Option Descriptor
snapshot_descriptor snapshot protocol path = route_descriptor protocol path snapshot.routes
