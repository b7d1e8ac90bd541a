-- ===== src/Autoindex.antt =====
-- Paths and the directory projection, of crates/github-oras-packages-proxy/src/autoindex.rs.
pub mod Html
pub mod Paths
pub mod Collisions
pub mod Listing
pub mod Projection
pub mod Completeness
pub mod Children
pub mod Navigation
use github_oras_packages.Base.{
  ℕ, Bool, true, false, not, ◌&&◌, ◌||◌, Option, none, some, List, [], ◌∷◌, ◌++◌, map, Bytes, bytes,
  Result, ok, err, ◌>>=◌, ◌>>◌, fail_if, ltb, ◌==◌, length, any, elem, is_empty, is_ascii,
  is_ascii_alphanumeric, text_eq, starts_with, strip_prefix, ends_with_byte, split_once,
  trim_end_where, map_get, map_insert, if◌then◌else◌,
}
use github_oras_packages.Routing.{meaningful_segments}

abbrev pub max_path_bytes : ℕ
max_path_bytes = 4096

abbrev pub max_path_segments : ℕ
max_path_segments = 128

pub data PathError : Type 0 where
  invalid duplicate collision directory_needs_trailing_slash : PathError

unfoldable pub is_safe_path_byte : ℕ → Bool
is_safe_path_byte c = is_ascii_alphanumeric c || elem (bytes "/-._~!$&'()*+,=:@") c

pub record RelativePath : Type 0 where
  pub path : Bytes

abbrev pub forbidden : ℕ → Bool
forbidden = elem (bytes "?#%\\;")

abbrev pub bad_segment : Bytes → Bool
bad_segment segment =
    is_empty segment || (text_eq segment (bytes ".") || text_eq segment (bytes ".."))

unfoldable pub parse_relative : Bytes → Result PathError RelativePath
parse_relative value = do
  fail_if
      (is_empty value
        || ltb max_path_bytes (length value)
        || not (is_ascii value)
        || starts_with (bytes "/") value
        || any forbidden value
        || any (λ c. not (is_safe_path_byte c)) value)
      invalid
  let segments = meaningful_segments value
  fail_if (is_empty segments || ltb max_path_segments (length segments) || any bad_segment segments)
      invalid
  ok (record { path = value })

unfoldable pub is_directory : RelativePath → Bool
is_directory p = ends_with_byte b'/' p.path

-- `&raw_target[1..]`
abbrev pub behind_first : Bytes → Bytes
behind_first [] = []
behind_first (c ∷ s) = s

abbrev pub relative_or_root : Bytes → Result PathError Bytes
relative_or_root [] = ok []
relative_or_root (c ∷ s) = do p ← parse_relative (c ∷ s); ok p.path

unfoldable pub parse_request_path : Bytes → Result PathError Bytes
parse_request_path raw_target = do
  fail_if
      (is_empty raw_target
        || not (starts_with (bytes "/") raw_target)
        || any forbidden raw_target
        || any (λ c. not (is_safe_path_byte c)) raw_target)
      invalid
  fail_if (starts_with (bytes "//") raw_target) invalid
  relative_or_root (behind_first raw_target)

pub record VisibleObject : Type 0 where
  pub title : RelativePath
  pub digest : Bytes
  pub media_type : Bytes
  pub size : ℕ

unfoldable pub new_object : Bytes → Bytes → Bytes → ℕ → Result PathError VisibleObject
new_object path digest media_type size = do
  parsed ← parse_relative path
  fail_if (is_directory parsed) invalid
  ok (record { title = parsed; digest = digest; media_type = media_type; size = size })

-- The map of `Index`, by the text of its `RelativePath` keys, whose order is that of the texts.
pub record Index : Type 0 where
  pub objects : List (Bytes × VisibleObject)

abbrev pub empty_index : Index
empty_index = record { objects = [] }

-- `trim_end_matches('/')`
abbrev pub trim_slashes : Bytes → Bytes
trim_slashes = trim_end_where (λ c. c == b'/')

abbrev pub is_within : Bytes → Bytes → Bool
is_within directory s = starts_with (directory ++ bytes "/") s

-- The test of two paths without their trailing slashes.
unfoldable pub collides : Bytes → Bytes → Bool
collides new existing = text_eq existing new || is_within new existing || is_within existing new

abbrev pub is_some {ℓ} : {A : Type ℓ} → Option A → Bool
is_some none = false
is_some (some a) = true

-- `Index::insert`; the map is returned only if nothing is refused.
unfoldable pub insert_object : VisibleObject → Index → Result PathError Index
insert_object object index = do
  let path = object.title.path
  fail_if (is_some (map_get path index.objects)) duplicate
  fail_if (any (λ e. collides (trim_slashes path) (trim_slashes e.0)) index.objects) collision
  ok (record { objects = map_insert path object index.objects })

unfoldable pub find_object : Index → Bytes → Option VisibleObject
find_object index path = map_get path index.objects

unfoldable pub has_directory : Index → Bytes → Result PathError Bool
has_directory index [] = ok true
has_directory index (c ∷ s) = do
  p ← parse_relative (c ∷ s)
  fail_if (not (is_directory p)) directory_needs_trailing_slash
  ok (any (λ e. starts_with (c ∷ s) e.0) index.objects)

pub data DirectoryEntry : Type 0 where
  directory : Bytes → DirectoryEntry
  file : VisibleObject → DirectoryEntry

-- The end of the loop's body in `children`, by what `split_once` finds in the rest of the path.
unfoldable pub place_child :
    Bytes
    → VisibleObject
    → Bytes
    → Option (Bytes × Bytes)
    → List (Bytes × DirectoryEntry)
    → List (Bytes × DirectoryEntry)
place_child parent object trimmed none entries =
    if not (is_empty trimmed) then map_insert trimmed (file object) entries else entries
place_child parent object trimmed (some (name, rest)) entries =
    if not (is_empty name) && not (is_empty rest)
    then if is_some (map_get name entries)
      then entries
      else map_insert name (directory (parent ++ name ++ bytes "/")) entries
    else entries

-- The part of `children`'s loop behind a matching prefix.
unfoldable pub add_child :
    Bytes → VisibleObject → Bytes → List (Bytes × DirectoryEntry) → List (Bytes × DirectoryEntry)
unfolding place_child
add_child parent object remainder entries =
    if is_empty remainder
    then entries
    else let trimmed = trim_slashes remainder in
      place_child parent object trimmed (split_once b'/' trimmed) entries

unfoldable pub visit_object :
    Bytes → VisibleObject → List (Bytes × DirectoryEntry) → List (Bytes × DirectoryEntry)
visit_object parent object entries = elim (strip_prefix parent object.title.path) [
  | none ↦ entries
  | some remainder ↦ add_child parent object remainder entries
]

-- The loop of `children` over the objects.
unfoldable pub collect_children :
    Bytes
    → List (Bytes × VisibleObject)
    → List (Bytes × DirectoryEntry)
    → List (Bytes × DirectoryEntry)
collect_children parent [] entries = entries
collect_children parent ((path, object) ∷ objects) entries =
    collect_children parent objects (visit_object parent object entries)

abbrev pub values {ℓ} : {A : Type ℓ} → List (Bytes × A) → List A
values m = map (λ e. e.1) m

-- The checks that `children`, `has_directory` and `render_directory_html` make of a directory.
unfoldable pub checked_directory : Bytes → Result PathError Bytes
checked_directory [] = ok []
checked_directory (c ∷ s) = do
  p ← parse_relative (c ∷ s)
  fail_if (not (is_directory p)) directory_needs_trailing_slash
  ok p.path

unfoldable pub children : Index → Bytes → Result PathError (List DirectoryEntry)
children index name = do
  parent ← checked_directory name
  ok (values (collect_children parent index.objects []))
