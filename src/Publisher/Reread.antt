-- ===== src/Publisher/Reread.antt =====
-- The manifest of a publication, as `parse_autoindex_manifest` of
-- crates/github-oras-packages-proxy/src/oci.rs reads it.
use github_oras_packages.Base.{
  ℕ, ◌≤◌, ◌≡◌, refl, ap, true, false, Option, some, List, [], ◌++◌, map, Bytes, bytes, ok, arith,
  trim, trim_start, trim_end, text_eq, text_eq_iff, text_lt, map_get, map_insert, ◌>>=◌,
}
use github_oras_packages.Libraries.{Libraries, IsSha256, digest_bytes}
use github_oras_packages.MediaTypes.{media_type_for}
use github_oras_packages.Oci.{
  title, is_autoindex_visible, is_bad_media_type, validate_descriptor, validate_standard_manifest,
  is_native_publisher_layer, empty_config_media_type, empty_config_digest,
}
use github_oras_packages.Oci.Checks.{IsSha256Digest, IsDescriptor, validate_descriptor_complete}
use github_oras_packages.Publisher.Build.{
  Descriptor, Manifest, annotations_of, layer_of, manifest_of, empty_config,
}

-- The records of the two sides have the same fields, but for the unknown ones, of which the writer
-- has none.
abbrev pub reread_descriptor : Descriptor → github_oras_packages.Oci.Descriptor
reread_descriptor d = record {
  media_type = d.media_type;
  digest = d.digest;
  size = d.size;
  annotations = d.annotations;
  extra = [];
}

abbrev pub reread : Manifest → github_oras_packages.Oci.Manifest
reread m = record {
  schema_version = m.schema_version;
  media_type = m.media_type;
  annotations = m.annotations;
  config = reread_descriptor m.config;
  layers = map reread_descriptor m.layers;
  extra = [];
}

-- `serde_json` reads what it has written.
abbrev pub IsJson :
    (Manifest → Option Bytes) → (Bytes → Option github_oras_packages.Oci.Manifest) → Type 0
IsJson to_vec read =
    (m : Manifest) (text : Bytes) → to_vec m ≡ some text → read text ≡ some (reread m)

digest-IsSha256Digest :
    (lib : Libraries) (content : Bytes) → IsSha256 lib → IsSha256Digest (digest_bytes lib content)
digest-IsSha256Digest lib content s = record {
  hex = lib.sha256_hex content;
  spelled = refl;
  long = s.long content;
  digits = s.spelled content;
}

abbrev IsGood : Bytes → Type 0
IsGood media_type = is_bad_media_type media_type ≡ false

IsGood-types :
    IsGood (bytes "text/html")
    × IsGood (bytes "application/json")
    × IsGood (bytes "application/xml")
    × IsGood (bytes "text/plain; charset=utf-8")
    × IsGood (bytes "application/vnd.rpm")
    × IsGood (bytes "application/vnd.debian.binary-package")
    × IsGood (bytes "application/zstd")
    × IsGood (bytes "application/gzip")
    × IsGood (bytes "application/octet-stream")
unfolding is_bad_media_type trim trim_start trim_end text_eq
IsGood-types = (refl, refl, refl, refl, refl, refl, refl, refl, refl)

-- Every type that the publisher gives to a file is one that the client accepts.
media_type_for-IsGood : (name : Bytes) → IsGood (media_type_for name)
unfolding media_type_for
media_type_for-IsGood name = ground (arith, IsGood-types)

module _ (lib : Libraries) (s : IsSha256 lib) where
  pub layer-IsDescriptor :
      (name content : Bytes) (size : ℕ)
      → size ≤ 67108864
      → IsDescriptor (reread_descriptor (layer_of lib name content size))
  unfolding layer_of
  layer-IsDescriptor name content size h = record {
    addressed = digest-IsSha256Digest lib content s;
    bounded = h;
    typed = media_type_for-IsGood name;
  }

  config_typed : is_bad_media_type empty_config_media_type ≡ false
  unfolding is_bad_media_type trim trim_start trim_end text_eq
  config_typed = refl

  config-IsDescriptor : IsDescriptor (reread_descriptor (manifest_of lib []).config)
  unfolding manifest_of
  config-IsDescriptor = record {
    addressed = digest-IsSha256Digest lib empty_config s;
    bounded = omega arith;
    typed = config_typed;
  }

  pub manifest-standard :
      (layers : List Descriptor)
      → validate_standard_manifest (reread (manifest_of lib layers)) ≡ ok tt
  unfolding validate_standard_manifest manifest_of ◌>>=◌ text_eq
  manifest-standard layers =
      validate_descriptor_complete (reread_descriptor (manifest_of lib []).config)
        config-IsDescriptor

  pub config_digest_lem : digest_bytes lib empty_config ≡ empty_config_digest
  config_digest_lem = ap (λ t. bytes "sha256:" ++ t) s.of_empty_config

pub layer-visible :
    (lib : Libraries) (name content : Bytes) (size : ℕ)
    → is_autoindex_visible (reread_descriptor (layer_of lib name content size)) ≡ true
unfolding layer_of annotations_of is_autoindex_visible map_insert map_get text_eq text_lt
layer-visible lib name content size = refl

pub layer-title :
    (lib : Libraries) (name content : Bytes) (size : ℕ)
    → title (reread_descriptor (layer_of lib name content size)) ≡ some name
unfolding layer_of annotations_of map_insert map_get text_eq text_lt
layer-title lib name content size = refl

pub layer-native :
    (lib : Libraries) (name content : Bytes) (size : ℕ)
    → is_native_publisher_layer (reread_descriptor (layer_of lib name content size)) ≡ true
unfolding is_native_publisher_layer is_autoindex_visible layer_of annotations_of map_insert map_get
    text_eq text_lt
layer-native lib name content size =
    (text_eq_iff (media_type_for name) (media_type_for name)).1 refl
