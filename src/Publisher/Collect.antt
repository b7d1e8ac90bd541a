-- ===== src/Publisher/Collect.antt =====
-- `Publication::from_directory` of crates/github-oras-packages-proxy/src/publisher.rs.
use github_oras_packages.Base.{
  ℕ, zero, suc, Bool, true, false, ◌&&◌, ◌||◌, Option, none, some, List, [], ◌∷◌, ◌++◌, map, Bytes,
  Result, ok, err, ok_or, ◌>>=◌, ◌>>◌, fail_if, ltb, length, text_lt, text_eq, if◌then◌else◌,
}
use github_oras_packages.Autoindex.{max_path_segments}
use github_oras_packages.Libraries.{Libraries}
use github_oras_packages.Publisher.{
  PublisherError, io, unsupported_file_type, limit_exceeded, max_publication_files, normal, PathBuf,
  FileType, symlink, file, directory, other, FileSystem, relative_title, validate_root,
}
use github_oras_packages.Publisher.Build.{Manifest, Publication, from_files}

-- A collected path, by its names.
abbrev pub relative_path : List Bytes → PathBuf
relative_path names = record { is_absolute = false; components = map normal names }

unfoldable pub insert_name : Bytes → List Bytes → List Bytes
insert_name name [] = name ∷ []
insert_name name (next ∷ names) =
    let rest = insert_name name names in
    if text_lt next name then next ∷ rest else name ∷ next ∷ names

-- `sort_by_key` by the file names
unfoldable pub sort_names : List Bytes → List Bytes
sort_names [] = []
sort_names (name ∷ names) = insert_name name (sort_names names)

-- `collect::<Result<Vec<_>, _>>()`
unfoldable pub all_entries {ℓ} : {A : Type ℓ} → List (Option A) → Option (List A)
all_entries [] = some []
all_entries (none ∷ entries) = none
all_entries (some entry ∷ entries) = elim (all_entries entries) [
  | none ↦ none
  | some rest ↦ some (entry ∷ rest)
]

unfoldable pub push_file :
    List Bytes → List (List Bytes) → Result PublisherError (List (List Bytes))
push_file path files = do
  name ← relative_title (relative_path path)
  let collected = files ++ path ∷ []
  fail_if (ltb max_publication_files (length collected)) limit_exceeded
  ok collected

-- One entry, with `collect_files` one level deeper.
unfoldable pub collect_entry :
    (List Bytes → List (List Bytes) → Result PublisherError (List (List Bytes)))
    → FileType
    → List Bytes
    → List (List Bytes)
    → Result PublisherError (List (List Bytes))
collect_entry deeper symlink path files = err unsupported_file_type
collect_entry deeper directory path files = deeper path files
collect_entry deeper file path files = push_file path files
collect_entry deeper other path files = err unsupported_file_type

-- The loop over the entries of one directory.
unfoldable pub collect_entries :
    FileSystem
    → (List Bytes → List (List Bytes) → Result PublisherError (List (List Bytes)))
    → List Bytes
    → List Bytes
    → List (List Bytes)
    → Result PublisherError (List (List Bytes))
collect_entries fs deeper parent [] files = ok files
collect_entries fs deeper parent (name ∷ names) files = do
  let path = parent ++ name ∷ []
  metadata ← ok_or io (fs.symlink_metadata path)
  next ← collect_entry deeper metadata.file_type path files
  collect_entries fs deeper parent names next

-- The first argument is how many levels are left: one more than `max_path_segments - depth`, and none
-- if `depth > max_path_segments`.
unfoldable pub collect_files :
    ℕ → FileSystem → List Bytes → List (List Bytes) → Result PublisherError (List (List Bytes))
collect_files zero fs parent files = err limit_exceeded
collect_files (suc levels) fs parent files = do
  entries ← ok_or io (fs.read_dir parent)
  names ← ok_or io (all_entries entries)
  collect_entries fs (collect_files levels fs) parent (sort_names names) files

-- The order of paths: by their components.
unfoldable pub path_lt : List Bytes → List Bytes → Bool
path_lt p [] = false
path_lt [] (d ∷ q) = true
path_lt (c ∷ p) (d ∷ q) = text_lt c d || (text_eq c d && path_lt p q)

unfoldable pub insert_path : List Bytes → List (List Bytes) → List (List Bytes)
insert_path path [] = path ∷ []
insert_path path (next ∷ paths) =
    let rest = insert_path path paths in
    if path_lt next path then next ∷ rest else path ∷ next ∷ paths

unfoldable pub sort_paths : List (List Bytes) → List (List Bytes)
sort_paths [] = []
sort_paths (path ∷ paths) = insert_path path (sort_paths paths)

unfoldable pub from_directory :
    Libraries → (Manifest → Option Bytes) → FileSystem → Result PublisherError Publication
from_directory lib to_vec fs = do
  validate_root fs
  files ← collect_files (suc max_path_segments) fs [] []
  from_files lib to_vec fs (map relative_path (sort_paths files))
