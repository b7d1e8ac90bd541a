-- ===== src/Tests/PublisherTests.antt =====
-- Tests of the publisher.
use github_oras_packages.Base.{
  ◌≡◌, refl, ap, sym, inl, inr, Bool, true, false, ◌&&◌, Option, none, some, List, [], ◌∷◌, ◌++◌,
  Bytes, bytes, ok, All, arith, ◌==◌, text_eq, text_eq_iff, text_lt, join, split, ◌>>=◌, is_utf8,
  map_get, map_insert, if◌then◌else◌, Bool-cases, starts_with,
}
use github_oras_packages.Publisher.{normal, PathBuf, Metadata, FileSystem, file, directory}
use github_oras_packages.Publisher.{
  validate_root, relative_title, title_parts, walk_components, validate_source_path,
}
use github_oras_packages.Publisher.Build.{
  Descriptor, Manifest, Publication, from_files, add_files, add_file, add_source, read_file,
  record_file, finish, manifest_of, layer_of, annotations_of, sort_layers, insert_layer,
  layer_paths, sort_blobs, insert_blob,
}
use github_oras_packages.Publisher.Outcome.{IsPublication, from_files-IsPublication}
use github_oras_packages.Publisher.Roundtrip.{IsServed, from_files-IsServed}
use github_oras_packages.Autoindex.{parse_relative, is_safe_path_byte}
use github_oras_packages.Routing.{meaningful_segments}
use github_oras_packages.MediaTypes.{media_type_for}
use github_oras_packages.Oci.{AutoindexSnapshot, parse_autoindex_manifest}
use github_oras_packages.Publisher.Apart.{IsPathBuf, IsTree}
use github_oras_packages.Publisher.Reread.{IsJson, reread}
use github_oras_packages.Tests.Registry.{zeros, digest_of_empty, lib, lib-IsSha256}

-- One file below the root.
abbrev entry : Bytes → Option Metadata
entry name =
    if text_eq name (bytes "hello.txt") then some (record { file_type = file; len = 5 }) else none

abbrev metadata_at : List Bytes → Option Metadata
metadata_at [] = some (record { file_type = directory; len = 0 })
metadata_at (name ∷ []) = entry name
metadata_at (name ∷ next ∷ rest) = none

abbrev fs : FileSystem
fs = record {
  symlink_metadata = metadata_at;
  read = λ names. some (bytes "hello");
  read_dir = λ names. some (some (bytes "hello.txt") ∷ []);
}

fs-IsTree : IsTree fs
fs-IsTree [] metadata name rest h f = cc
fs-IsTree (part ∷ []) metadata name rest h f = refl
fs-IsTree (part ∷ next ∷ parts) metadata name rest h f = cc

abbrev hello : PathBuf
hello = record { is_absolute = false; components = normal (bytes "hello.txt") ∷ [] }

hello-IsPathBuf : All IsPathBuf (hello ∷ [])
hello-IsPathBuf = (((refl, refl), tt), tt)

-- A writer of JSON that writes one manifest.
same_pairs : List (Bytes × Bytes) → List (Bytes × Bytes) → Bool
same_pairs [] [] = true
same_pairs [] (q ∷ qs) = false
same_pairs (p ∷ ps) [] = false
same_pairs ((a, b) ∷ ps) ((c, d) ∷ qs) = text_eq a c && text_eq b d && same_pairs ps qs

same_descriptor : Descriptor → Descriptor → Bool
same_descriptor d e =
    text_eq d.media_type e.media_type
    && text_eq d.digest e.digest
    && d.size == e.size
    && same_pairs d.annotations e.annotations

same_descriptors : List Descriptor → List Descriptor → Bool
same_descriptors [] [] = true
same_descriptors [] (e ∷ es) = false
same_descriptors (d ∷ ds) [] = false
same_descriptors (d ∷ ds) (e ∷ es) = same_descriptor d e && same_descriptors ds es

same_manifest : Manifest → Manifest → Bool
same_manifest m n =
    m.schema_version == n.schema_version
    && text_eq m.media_type n.media_type
    && same_pairs m.annotations n.annotations
    && same_descriptor m.config n.config
    && same_descriptors m.layers n.layers

same_pairs_sound : (ps qs : List (Bytes × Bytes)) → same_pairs ps qs ≡ true → ps ≡ qs
unfolding same_pairs
same_pairs_sound [] [] h = refl
same_pairs_sound [] (q ∷ qs) h = cc
same_pairs_sound (p ∷ ps) [] h = cc
same_pairs_sound ((a, b) ∷ ps) ((c, d) ∷ qs) h =
    let e : a ≡ c = ground (arith, h, text_eq_iff a c) in
    let f : b ≡ d = ground (arith, h, text_eq_iff b d) in
    let g = same_pairs_sound ps qs (ground (arith, h)) in rw (e, f, g) refl

same_descriptor_sound : (d e : Descriptor) → same_descriptor d e ≡ true → d ≡ e
unfolding same_descriptor
same_descriptor_sound d e h =
    let a : d.media_type ≡ e.media_type =
      ground (arith, h, text_eq_iff d.media_type e.media_type) in
    let b : d.digest ≡ e.digest = ground (arith, h, text_eq_iff d.digest e.digest) in
    let c : d.size ≡ e.size = ground (arith, h) in
    let f = same_pairs_sound d.annotations e.annotations (ground (arith, h)) in cc

same_descriptors_sound : (ds es : List Descriptor) → same_descriptors ds es ≡ true → ds ≡ es
unfolding same_descriptors
same_descriptors_sound [] [] h = refl
same_descriptors_sound [] (e ∷ es) h = cc
same_descriptors_sound (d ∷ ds) [] h = cc
same_descriptors_sound (d ∷ ds) (e ∷ es) h =
    let a = same_descriptor_sound d e (ground (arith, h)) in
    let b = same_descriptors_sound ds es (ground (arith, h)) in cc

same_manifest_sound : (m n : Manifest) → same_manifest m n ≡ true → m ≡ n
unfolding same_manifest
same_manifest_sound m n h =
    let a : m.schema_version ≡ n.schema_version = ground (arith, h) in
    let b : m.media_type ≡ n.media_type =
      ground (arith, h, text_eq_iff m.media_type n.media_type) in
    let c = same_pairs_sound m.annotations n.annotations (ground (arith, h)) in
    let d = same_descriptor_sound m.config n.config (ground (arith, h)) in
    let e = same_descriptors_sound m.layers n.layers (ground (arith, h)) in cc

abbrev expected : Manifest
expected = manifest_of lib (layer_of lib (bytes "hello.txt") (bytes "hello") 5 ∷ [])

abbrev to_vec : Manifest → Option Bytes
to_vec m = if same_manifest m expected then some (bytes "{\"layers\":1}") else none

abbrev read : Bytes → Option github_oras_packages.Oci.Manifest
read text = some (reread expected)

codec-IsJson : IsJson to_vec read
codec-IsJson m text h = elim (Bool-cases (same_manifest m expected)) [
  | inl e ↦ ap (λ n. some (reread n)) (sym (same_manifest_sound m expected e))
  | inr e ↦ absurd (written m e text h)
]
  where
    written :
        (m : Manifest)
        → same_manifest m expected ≡ false
        → (text : Bytes) → to_vec m ≡ some text
        → ⊥
    written m e text = rw e λ k. cc

abbrev publication : Publication
publication = record {
  manifest = bytes "{\"layers\":1}";
  manifest_digest = bytes "sha256:" ++ zeros;
  manifest_size = 12;
  blobs =
      record { digest = bytes "sha256:" ++ zeros; content = bytes "hello" }
      ∷ record { digest = bytes "sha256:" ++ digest_of_empty; content = bytes "{}" }
      ∷ [];
  paths = bytes "hello.txt" ∷ [];
}

published : from_files lib to_vec fs (hello ∷ []) ≡ ok publication
unfolding from_files add_files add_file add_source read_file record_file finish manifest_of layer_of
    annotations_of sort_layers insert_layer layer_paths sort_blobs insert_blob validate_root
    relative_title title_parts walk_components validate_source_path parse_relative media_type_for
    is_utf8 join split text_eq text_lt map_get map_insert ◌>>=◌ same_manifest same_descriptors
    same_descriptor same_pairs starts_with is_safe_path_byte meaningful_segments
published = refl

from_files-IsPublication_example : IsPublication lib publication
from_files-IsPublication_example =
    from_files-IsPublication lib to_vec fs (hello ∷ []) publication published

from_files-IsServed_example :
    (snapshot : AutoindexSnapshot) × ((parse_autoindex_manifest read publication.manifest
        ≡ ok snapshot)
      × IsServed lib fs (hello ∷ []) publication snapshot)
from_files-IsServed_example =
    from_files-IsServed lib to_vec read fs (hello ∷ []) publication lib-IsSha256 codec-IsJson
      fs-IsTree hello-IsPathBuf published
