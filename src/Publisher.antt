-- ===== src/Publisher.antt =====
-- Paths, references and the file system of the publisher, of
-- crates/github-oras-packages-proxy/src/publisher.rs.
pub mod Build
pub mod Collect
pub mod Steps
pub mod Invariant
pub mod Sorted
pub mod Apart
pub mod Contents
pub mod Outcome
pub mod Reread
pub mod Published
pub mod Roundtrip
use github_oras_packages.Base.{
  ℕ, ◌*◌, Bool, true, false, not, ◌&&◌, ◌||◌, Option, none, some, List, [], ◌∷◌, ◌++◌, Bytes, bytes,
  Result, ok, err, map_err, ok_or, ◌>>=◌, ◌>>◌, fail_if, ltb, ◌==◌, length, all, elem, is_empty,
  is_ascii_alphanumeric, is_utf8, join, if◌then◌else◌,
}
use github_oras_packages.Autoindex.{parse_relative}

pub data PublisherError : Type 0 where
  invalid_root io unsupported_file_type invalid_path duplicate_path : PublisherError
  limit_exceeded empty_publication destination_exists : PublisherError
  invalid_reference invalid_arguments : PublisherError

-- `Display`
unfoldable pub publisher_error_text : PublisherError → Bytes
publisher_error_text invalid_root = bytes "publisher input root is invalid"
publisher_error_text io = bytes "publisher filesystem operation failed"
publisher_error_text unsupported_file_type =
    bytes "publisher accepts regular files and directories only"
publisher_error_text invalid_path = bytes "publisher file path is not safe for autoindex"
publisher_error_text duplicate_path = bytes "publisher input contains a duplicate relative path"
publisher_error_text limit_exceeded = bytes "publisher input exceeds configured limits"
publisher_error_text empty_publication = bytes "publisher input contains no files"
publisher_error_text destination_exists = bytes "OCI layout destination already exists"
publisher_error_text invalid_reference = bytes "OCI layout reference is invalid"
publisher_error_text invalid_arguments = bytes "publisher arguments are invalid"

abbrev pub max_publication_bytes : ℕ
max_publication_bytes = 64 * 1024 * 1024

abbrev pub max_publication_files : ℕ
max_publication_files = 10000

-- `std::path::Component`: a name, or one of a prefix, the root, `.` and `..`.
pub data Component : Type 0 where
  normal : Bytes → Component
  special : Component

pub record PathBuf : Type 0 where
  pub is_absolute : Bool
  pub components : List Component

pub data FileType : Type 0 where
  symlink file directory other : FileType

pub record Metadata : Type 0 where
  pub file_type : FileType
  pub len : ℕ

-- The file system below the root, by the names that lead from the root to an entry. A failed call
-- is `none`; a directory that is read lists entries of which each may fail too.
pub record FileSystem : Type 0 where
  pub symlink_metadata : List Bytes → Option Metadata
  pub read : List Bytes → Option Bytes
  pub read_dir : List Bytes → Option (List (Option Bytes))

abbrev pub is_symlink : FileType → Bool
is_symlink symlink = true
is_symlink _ = false

abbrev pub is_file : FileType → Bool
is_file file = true
is_file _ = false

abbrev pub is_dir : FileType → Bool
is_dir directory = true
is_dir _ = false

unfoldable pub validate_root : FileSystem → Result PublisherError (Unit {0})
validate_root fs = do
  metadata ← ok_or invalid_root (fs.symlink_metadata [])
  fail_if (is_symlink metadata.file_type || not (is_dir metadata.file_type)) invalid_root

-- The loop of `relative_title`; `to_str` of a name is its UTF-8 check.
unfoldable pub title_parts : List Component → Result PublisherError (List Bytes)
title_parts [] = ok []
title_parts (special ∷ components) = err invalid_path
title_parts (normal part ∷ components) = do
  fail_if (not (is_utf8 part)) invalid_path
  parts ← title_parts components
  ok (part ∷ parts)

unfoldable pub relative_title : PathBuf → Result PublisherError Bytes
relative_title path = do
  fail_if path.is_absolute invalid_path
  parts ← title_parts path.components
  fail_if (is_empty parts) invalid_path
  ok (join b'/' parts)

-- The loop of `validate_source_path`; `current` are the names of the path walked so far.
unfoldable pub walk_components :
    FileSystem → List Bytes → List Component → Result PublisherError (List Bytes)
walk_components fs current [] = ok current
walk_components fs current (special ∷ components) = err invalid_path
walk_components fs current (normal part ∷ components) = do
  let next = current ++ part ∷ []
  metadata ← ok_or io (fs.symlink_metadata next)
  fail_if (is_symlink metadata.file_type) unsupported_file_type
  walk_components fs next components

unfoldable pub validate_source_path : FileSystem → PathBuf → Result PublisherError (List Bytes)
validate_source_path fs relative = do
  name ← relative_title relative
  parsed ← map_err (λ _. invalid_path) (parse_relative name)
  walk_components fs [] relative.components

abbrev is_tag_byte : ℕ → Bool
is_tag_byte c = is_ascii_alphanumeric c || elem (bytes "_.-") c

unfoldable pub validate_reference : Bytes → Result PublisherError (Unit {0})
validate_reference [] = err invalid_reference
validate_reference (first ∷ rest) =
    fail_if
      (ltb 128 (length (first ∷ rest))
        || (not (is_ascii_alphanumeric first) && not (first == b'_'))
        || not (all is_tag_byte rest))
      invalid_reference
