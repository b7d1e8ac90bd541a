-- ===== src/Tests/ClientTests.antt =====
-- Tests of the registry client.
use github_oras_packages.Base.{
  ◌≤◌, ◌≡◌, ◌↔◌, refl, true, false, none, some, List, [], ◌∷◌, ◌++◌, Bytes, bytes, ok, err, arith,
  length, ◌>>=◌, text_eq, text_lt, starts_with, strip_prefix, split, map_get, map_insert, trim,
  trim_end, trim_start, split_once,
}
use github_oras_packages.Autoindex.{
  VisibleObject, insert_object, new_object, find_object, parse_relative, is_directory,
  is_safe_path_byte, collides,
}
use github_oras_packages.Autoindex.Paths.{made}
use github_oras_packages.Routing.{meaningful_segments}
use github_oras_packages.Autoindex.Collisions.{IsWellFormed}
use github_oras_packages.Libraries.{PathAndQuery, Uri, digest_bytes}
use github_oras_packages.Oci.{
  Descriptor, Manifest, AutoindexSnapshot, new_descriptor, manifest_media_type,
  empty_config_media_type, empty_config_digest, visibility_annotation, title_annotation,
  project_manifest, project_layers, place_layer, insert_visible, is_autoindex_visible,
  validate_standard_manifest, validate_descriptor, is_bad_media_type, valid_digest,
  is_crud_manifest, is_native_publisher_layer, snapshot_object,
}
use github_oras_packages.Oci.Errors.{invalid_descriptor}
use github_oras_packages.Oci.Projected.{AmongLayers, project_manifest-shows}
use github_oras_packages.Oci.Verified.{verified_body_lem}
use github_oras_packages.Oci.Streams.{
  Item, chunk, verify_item, final_check, verify_items, verified_body, is_clean, delivered, Arrives,
}
use github_oras_packages.Oci.Locations.{
  rewrite_distribution_location, check_origin, check_place, is_bad_session, IsOwnOrigin, IsOwnPlace,
  rewrite_distribution_location_sound,
}
use github_oras_packages.Tests.Registry.{zeros, lib}

abbrev parcel : Descriptor
parcel = record {
  media_type = bytes "text/plain";
  digest = bytes "sha256:" ++ zeros;
  size = 5;
  annotations = [];
  extra = [];
}

abbrev two_chunks : List Item
two_chunks = chunk (bytes "hel") ∷ chunk (bytes "lo") ∷ []

stream_tests :
    (is_clean (verified_body lib parcel two_chunks) ≡ true)
    × (is_clean (verified_body lib parcel (chunk (bytes "hel") ∷ [])) ≡ false)
    × (delivered (verified_body lib parcel (chunk (bytes "hello") ∷ chunk (bytes "!") ∷ []))
        ≡ bytes "hello")
unfolding verified_body verify_items verify_item final_check text_eq
stream_tests = (refl, refl, refl)

verified_body_lem_example :
    ((is_clean (verified_body lib parcel two_chunks) ≡ true) ↔ (
      (content : Bytes) × (Arrives two_chunks content
        × ((length content ≡ 5)
            × ((digest_bytes lib content ≡ bytes "sha256:" ++ zeros)
                × (delivered (verified_body lib parcel two_chunks) ≡ content))))))
    × (length (delivered (verified_body lib parcel two_chunks)) ≤ 5)
verified_body_lem_example = verified_body_lem lib parcel two_chunks (omega arith)

-- The place of an upload session, as the registry states it.
abbrev session : Bytes
session = bytes "/v2/acme/rpms/blobs/uploads/session-1"

abbrev session_target : PathAndQuery
session_target = record { text = session; path = session; query = none }

location_tests :
    (rewrite_distribution_location lib (bytes "https://ghcr.io") (bytes "acme/rpms") session
      ≡ ok session)
    × (rewrite_distribution_location lib (bytes "https://ghcr.io") (bytes "acme/debs") session
        ≡ err invalid_descriptor)
unfolding rewrite_distribution_location check_origin check_place is_bad_session strip_prefix split
    text_eq ◌>>=◌
location_tests = (refl, refl)

rewrite_distribution_location_sound_example :
    (text : Bytes) × ((some session ≡ some text)
      × ((uri : Uri) × ((lib.parse_uri text ≡ some uri)
            × (IsOwnOrigin lib (bytes "https://ghcr.io") uri
                × ((target : PathAndQuery) × ((uri.path_and_query ≡ some target)
                      × (IsOwnPlace (bytes "acme/rpms") target
                          × (lib.from_str target.text ≡ some session))))))))
rewrite_distribution_location_sound_example =
    rewrite_distribution_location_sound lib (bytes "https://ghcr.io") (bytes "acme/rpms") session
      session location_tests.0

abbrev text_layer : List (Bytes × Bytes) → Descriptor
text_layer annotations = record {
  media_type = bytes "text/plain";
  digest = bytes "sha256:" ++ zeros;
  size = 5;
  annotations = annotations;
  extra = [];
}

abbrev shown : VisibleObject
shown = made (bytes "a/b") (bytes "sha256:" ++ zeros) (bytes "text/plain") 5

-- One layer is marked visible, the other is not.
abbrev two_layers : Manifest
two_layers = record {
  schema_version = 2;
  media_type = manifest_media_type;
  annotations = [];
  config = new_descriptor empty_config_media_type empty_config_digest 2;
  layers =
      text_layer ((visibility_annotation, bytes "true") ∷ (title_annotation, bytes "a/b") ∷ [])
      ∷ text_layer ((title_annotation, bytes "secret") ∷ [])
      ∷ [];
  extra = [];
}

abbrev of_two_layers : AutoindexSnapshot
of_two_layers = record {
  index = record { objects = (bytes "a/b", shown) ∷ [] };
  crud_compatible = false;
}

projection_tests :
    (project_manifest two_layers ≡ ok of_two_layers)
    × (snapshot_object of_two_layers (bytes "secret") ≡ none)
unfolding project_manifest project_layers place_layer insert_visible is_autoindex_visible
    validate_standard_manifest validate_descriptor is_bad_media_type valid_digest is_crud_manifest
    snapshot_object find_object insert_object new_object parse_relative is_directory
    is_safe_path_byte collides meaningful_segments split split_once starts_with
    is_native_publisher_layer map_get map_insert strip_prefix text_eq text_lt trim trim_end
    trim_start ◌>>=◌
projection_tests = (refl, refl)

project_manifest-shows_example :
    IsWellFormed of_two_layers.index
    × ((snapshot_object of_two_layers (bytes "a/b") ≡ some shown)
        ↔ AmongLayers two_layers.layers (bytes "a/b") shown)
project_manifest-shows_example =
    project_manifest-shows two_layers of_two_layers (bytes "a/b") shown projection_tests.0

abbrev acme : Bytes
acme = bytes "acme/rpms"

abbrev manifest_suffix : Bytes
manifest_suffix = bytes "/manifests/autoindex.v1"
