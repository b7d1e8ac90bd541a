-- ===== src/Publisher/Build.antt =====
-- `Publication::from_files` of crates/github-oras-packages-proxy/src/publisher.rs.
use github_oras_packages.Base.{
  ℕ, ◌+◌, Bool, true, false, not, ◌||◌, Option, none, some, List, [], ◌∷◌, ◌++◌, map, Bytes, bytes,
  Result, ok, map_err, ok_or, ◌>>=◌, ◌>>◌, fail_if, ltb, ◌==◌, length, is_empty, text_lt,
  checked_add, map_get, map_insert, if◌then◌else◌,
}
use github_oras_packages.Autoindex.{parse_relative, is_some}
use github_oras_packages.Libraries.{Libraries, digest_bytes}
use github_oras_packages.MediaTypes.{media_type_for}
use github_oras_packages.Oci.{
  manifest_media_type, empty_config_media_type, title_annotation, visibility_annotation,
  publisher_annotation, publisher_version,
}
use github_oras_packages.Publisher.{
  PublisherError, io, unsupported_file_type, invalid_path, duplicate_path, limit_exceeded,
  empty_publication, max_publication_bytes, max_publication_files, PathBuf, FileSystem, is_file,
  is_symlink, relative_title, validate_source_path, validate_root,
}

abbrev pub empty_config : Bytes
empty_config = bytes "{}"

pub record PublicationBlob : Type 0 where
  pub digest : Bytes
  pub content : Bytes

pub record Descriptor : Type 0 where
  pub media_type : Bytes
  pub digest : Bytes
  pub size : ℕ
  pub annotations : List (Bytes × Bytes)

pub record Manifest : Type 0 where
  pub schema_version : ℕ
  pub media_type : Bytes
  pub annotations : List (Bytes × Bytes)
  pub config : Descriptor
  pub layers : List Descriptor

pub record Publication : Type 0 where
  pub manifest : Bytes
  pub manifest_digest : Bytes
  pub manifest_size : ℕ
  pub blobs : List PublicationBlob
  pub paths : List Bytes

abbrev pub plain : Bytes → Bytes → ℕ → Descriptor
plain media_type digest size = record {
  media_type = media_type;
  digest = digest;
  size = size;
  annotations = [];
}

-- The variables of the loop: `titles`, `file_blobs`, `layers` and `total_bytes`.
pub record Loop : Type 0 where
  pub titles : List (Bytes × Unit {0})
  pub file_blobs : List (Bytes × PublicationBlob)
  pub layers : List Descriptor
  pub total_bytes : ℕ

abbrev pub start : Loop
start = record { titles = []; file_blobs = []; layers = []; total_bytes = 0 }

unfoldable pub annotations_of : Bytes → List (Bytes × Bytes)
annotations_of name =
    map_insert visibility_annotation (bytes "true") (map_insert title_annotation name [])

unfoldable pub layer_of : Libraries → Bytes → Bytes → ℕ → Descriptor
layer_of lib name content size = record {
  media_type = media_type_for name;
  digest = digest_bytes lib content;
  size = size;
  annotations = annotations_of name;
}

-- The end of the loop's body: a blob for a digest not seen before, and a layer.
unfoldable pub record_file : Libraries → Bytes → Bytes → ℕ → Loop → Loop
record_file lib name content size loop =
    let digest = digest_bytes lib content in
    let known = is_some (map_get digest loop.file_blobs) in
    record {
      titles = loop.titles;
      file_blobs =
          if known
          then loop.file_blobs
          else map_insert digest (record { digest = digest; content = content }) loop.file_blobs;
      layers = loop.layers ++ layer_of lib name content size ∷ [];
      total_bytes = if known then loop.total_bytes else loop.total_bytes + size;
    }

abbrev is_over : Option ℕ → Bool
is_over none = true
is_over (some size) = ltb max_publication_bytes size

-- The loop's body from the size of the file on.
unfoldable pub read_file :
    Libraries → FileSystem → Bytes → List Bytes → ℕ → Loop → Result PublisherError Loop
read_file lib fs name source size loop = do
  fail_if (ltb max_publication_bytes size || is_over (checked_add loop.total_bytes size))
      limit_exceeded
  content ← ok_or io (fs.read source)
  fail_if (not (length content == size)) io
  ok (record_file lib name content size loop)

-- The loop's body from the source path on.
unfoldable pub add_source :
    Libraries → FileSystem → Bytes → PathBuf → Loop → Result PublisherError Loop
add_source lib fs name relative loop = do
  source ← validate_source_path fs relative
  metadata ← ok_or io (fs.symlink_metadata source)
  fail_if (is_symlink metadata.file_type || not (is_file metadata.file_type)) unsupported_file_type
  read_file lib fs name source metadata.len loop

-- The loop's body.
unfoldable pub add_file : Libraries → FileSystem → PathBuf → Loop → Result PublisherError Loop
add_file lib fs relative loop = do
  name ← relative_title relative
  parsed ← map_err (λ _. invalid_path) (parse_relative name)
  fail_if (is_some (map_get name loop.titles)) duplicate_path
  let titles = map_insert name tt loop.titles
  fail_if (ltb max_publication_files (length titles)) limit_exceeded
  add_source lib fs name relative (record loop { titles = titles })

unfoldable pub add_files : Libraries → FileSystem → List PathBuf → Loop → Result PublisherError Loop
add_files lib fs [] loop = ok loop
add_files lib fs (relative ∷ paths) loop = do
  next ← add_file lib fs relative loop
  add_files lib fs paths next

abbrev pub layer_title : Descriptor → Option Bytes
layer_title layer = map_get title_annotation layer.annotations

-- The order of `Option`: `none` is the least.
abbrev pub option_lt : Option Bytes → Option Bytes → Bool
option_lt left none = false
option_lt none (some right) = true
option_lt (some left) (some right) = text_lt left right

-- `sort_by` is stable: a layer goes before the first that is not less.
unfoldable pub insert_layer : Descriptor → List Descriptor → List Descriptor
insert_layer layer [] = layer ∷ []
insert_layer layer (next ∷ layers) =
    let rest = insert_layer layer layers in
    if option_lt (layer_title next) (layer_title layer) then next ∷ rest else layer ∷ next ∷ layers

unfoldable pub sort_layers : List Descriptor → List Descriptor
sort_layers [] = []
sort_layers (layer ∷ layers) = insert_layer layer (sort_layers layers)

-- `filter_map` over the titles
abbrev pub push_title : Option Bytes → List Bytes → List Bytes
push_title none names = names
push_title (some name) names = name ∷ names

unfoldable pub layer_paths : List Descriptor → List Bytes
layer_paths [] = []
layer_paths (layer ∷ layers) = push_title (layer_title layer) (layer_paths layers)

unfoldable pub insert_blob : PublicationBlob → List PublicationBlob → List PublicationBlob
insert_blob blob [] = blob ∷ []
insert_blob blob (next ∷ blobs) =
    let rest = insert_blob blob blobs in
    if text_lt next.digest blob.digest then next ∷ rest else blob ∷ next ∷ blobs

unfoldable pub sort_blobs : List PublicationBlob → List PublicationBlob
sort_blobs [] = []
sort_blobs (blob ∷ blobs) = insert_blob blob (sort_blobs blobs)

unfoldable pub manifest_of : Libraries → List Descriptor → Manifest
manifest_of lib layers = record {
  schema_version = 2;
  media_type = manifest_media_type;
  annotations = (publisher_annotation, publisher_version) ∷ [];
  config = plain empty_config_media_type (digest_bytes lib empty_config) (length empty_config);
  layers = layers;
}

abbrev pub all_blobs : Libraries → Loop → List PublicationBlob
all_blobs lib loop =
    map (λ e. e.1) loop.file_blobs
    ++ record { digest = digest_bytes lib empty_config; content = empty_config } ∷ []

-- `from_files` behind its loop; `to_vec` is `serde_json::to_vec`.
unfoldable pub finish :
    Libraries → (Manifest → Option Bytes) → Loop → Result PublisherError Publication
finish lib to_vec loop = do
  fail_if (is_empty loop.layers) empty_publication
  let layers = sort_layers loop.layers
  text ← ok_or io (to_vec (manifest_of lib layers))
  ok (record {
    manifest = text;
    manifest_digest = digest_bytes lib text;
    manifest_size = length text;
    blobs = sort_blobs (all_blobs lib loop);
    paths = layer_paths layers;
  })

unfoldable pub from_files :
    Libraries
    → (Manifest → Option Bytes)
    → FileSystem
    → List PathBuf
    → Result PublisherError Publication
from_files lib to_vec fs paths = do
  validate_root fs
  loop ← add_files lib fs paths start
  finish lib to_vec loop
