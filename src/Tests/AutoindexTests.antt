-- ===== src/Tests/AutoindexTests.antt =====
-- Tests of the autoindex modules.
use mathlib.Core.List.{Memᴰ}
use github_oras_packages.Base.{
  ◌+◌, ◌*◌, ◌≡◌, ◌⊎◌, ◌↔◌, refl, true, false, some, [], ◌∷◌, ◌++◌, Bytes, bytes, ok, err, All,
  ◌>>=◌, text_eq, text_lt, split, starts_with, strip_prefix, split_once, trim_end_where, map_get,
  map_insert, if◌then◌else◌,
}
use github_oras_packages.Autoindex.{
  VisibleObject, Index, empty_index, invalid, duplicate, collision, directory_needs_trailing_slash,
  parse_relative, parse_request_path, is_directory, is_safe_path_byte, new_object, collides,
  insert_object, find_object, has_directory, directory, file, place_child, add_child, visit_object,
  collect_children, checked_directory, children,
}
use github_oras_packages.Routing.{meaningful_segments}
use github_oras_packages.Autoindex.Paths.{
  IsRelativePath, IsFilePath, parse_request_path_iff, new_object_iff,
}
use github_oras_packages.Autoindex.Collisions.{
  AreApart, IsWellFormed, empty_index-IsWellFormed, insert_object_iff, insert_object-IsWellFormed,
}
use github_oras_packages.Autoindex.Listing.{find_object-not_directory}
use github_oras_packages.Autoindex.Children.{IsListed, children_iff}
use github_oras_packages.Autoindex.Html.{
  escape_html, escaped, through_last_slash, parent_directory, rsplit, entry_name, entry_path,
  entry_label, render_entry, render_entries, render_parent, render_directory_html, count, links,
  render_directory_html-marks,
}
use github_oras_packages.Autoindex.Navigation.{LeadsBack, children-navigation}

autoindex : Unit {0}
unfolding meaningful_segments parse_relative parse_request_path is_directory is_safe_path_byte
    new_object collides insert_object find_object has_directory place_child add_child visit_object
    collect_children checked_directory children escape_html escaped through_last_slash
    parent_directory rsplit entry_name entry_path entry_label render_entry render_entries
    render_parent render_directory_html ◌>>=◌ text_eq text_lt split starts_with strip_prefix
    split_once trim_end_where map_get map_insert
autoindex = tt

abbrev object_at : Bytes → VisibleObject
object_at p = record {
  title = record { path = p };
  digest = bytes "sha256:0";
  media_type = bytes "text/plain";
  size = 1;
}

abbrev readme : VisibleObject
readme = object_at (bytes "pkg/readme.txt")

abbrev source : VisibleObject
source = object_at (bytes "pkg/src/a.rs")

abbrev one : Index
one = record { objects = (bytes "pkg/readme.txt", readme) ∷ [] }

abbrev two : Index
two = record { objects = (bytes "pkg/readme.txt", readme) ∷ (bytes "pkg/src/a.rs", source) ∷ [] }

readme_made :
    new_object (bytes "pkg/readme.txt") (bytes "sha256:0") (bytes "text/plain") 1 ≡ ok readme
unfolding autoindex
readme_made = refl

source_made :
    new_object (bytes "pkg/src/a.rs") (bytes "sha256:0") (bytes "text/plain") 1 ≡ ok source
unfolding autoindex
source_made = refl

readme-IsFilePath : IsFilePath (bytes "pkg/readme.txt")
readme-IsFilePath =
    ((new_object_iff (bytes "pkg/readme.txt") (bytes "sha256:0") (bytes "text/plain") 1 readme).0
      readme_made).0

source-IsFilePath : IsFilePath (bytes "pkg/src/a.rs")
source-IsFilePath =
    ((new_object_iff (bytes "pkg/src/a.rs") (bytes "sha256:0") (bytes "text/plain") 1 source).0
      source_made).0

readme_inserted : insert_object readme empty_index ≡ ok one
unfolding autoindex
readme_inserted = refl

source_inserted : insert_object source one ≡ ok two
unfolding autoindex
source_inserted = refl

one-IsWellFormed : IsWellFormed one
one-IsWellFormed =
    (insert_object-IsWellFormed readme empty_index one [] readme-IsFilePath empty_index-IsWellFormed
      readme_inserted).0

two-IsWellFormed : IsWellFormed two
two-IsWellFormed =
    (insert_object-IsWellFormed source one two [] source-IsFilePath one-IsWellFormed
      source_inserted).0

path_tests :
    (parse_request_path (bytes "/") ≡ ok [])
    × (parse_request_path (bytes "/a/b/") ≡ ok (bytes "a/b/"))
    × (parse_request_path (bytes "//a") ≡ err invalid)
    × (parse_request_path (bytes "/a/../b") ≡ err invalid)
    × (parse_request_path (bytes "/a?b") ≡ err invalid)
    × (new_object (bytes "a/") [] [] 0 ≡ err invalid)
unfolding autoindex
path_tests = (refl, refl, refl, refl, refl, refl)

index_tests :
    (insert_object readme one ≡ err duplicate)
    × (insert_object (object_at (bytes "pkg")) two ≡ err collision)
    × (insert_object (object_at (bytes "pkg/readme.txt/x")) two ≡ err collision)
    × (has_directory two (bytes "pkg/src/") ≡ ok true)
    × (has_directory two (bytes "pkg/s/") ≡ ok false)
    × (has_directory two (bytes "pkg") ≡ err directory_needs_trailing_slash)
    × (children two [] ≡ ok (directory (bytes "pkg/") ∷ []))
    × (children two (bytes "pkg/") ≡ ok (file readme ∷ directory (bytes "pkg/src/") ∷ []))
unfolding autoindex
index_tests = (refl, refl, refl, refl, refl, refl, refl, refl)

page_test :
    render_directory_html (bytes "a/") (directory (bytes "a/b&c/") ∷ [])
    ≡ ok (
        bytes
          "<!doctype html><html><head><meta charset=\"utf-8\"><title>Index of /a/</title></head><body><h1>Index of /a/</h1><ul><li><a href=\"/\">../</a></li><li><a href=\"/a/b&amp;c/\">b&amp;c/</a></li></ul></body></html>\n")
unfolding autoindex
page_test = refl

listed : children two (bytes "pkg/") ≡ ok (file readme ∷ directory (bytes "pkg/src/") ∷ [])
unfolding autoindex
listed = refl

parse_request_path_iff_example : (parse_request_path (bytes "/pkg/") ≡ ok (bytes "pkg/")) ↔ (
    (bytes "/pkg/" ≡ b'/' ∷ bytes "pkg/") × ((bytes "pkg/" ≡ []) ⊎ IsRelativePath (bytes "pkg/")))
parse_request_path_iff_example = parse_request_path_iff (bytes "/pkg/") (bytes "pkg/")

insert_object_iff_example :
    ((index' : Index) × (insert_object source one ≡ ok index'))
    ↔ All (λ e. AreApart (bytes "pkg/src/a.rs") e.0) one.objects
insert_object_iff_example = insert_object_iff source one source-IsFilePath one-IsWellFormed

insert_object-IsWellFormed_example :
    IsWellFormed two
    × (find_object two (bytes "pkg/readme.txt") ≡ (
        if text_eq (bytes "pkg/src/a.rs") (bytes "pkg/readme.txt")
        then some source
        else find_object one (bytes "pkg/readme.txt")))
insert_object-IsWellFormed_example =
    insert_object-IsWellFormed source one two (bytes "pkg/readme.txt") source-IsFilePath
      one-IsWellFormed source_inserted

readme_found : find_object two (bytes "pkg/readme.txt") ≡ some readme
unfolding autoindex
readme_found = refl

find_object-not_directory_example :
    ¬ (has_directory two (bytes "pkg/readme.txt" ++ bytes "/") ≡ ok true)
find_object-not_directory_example =
    find_object-not_directory two (bytes "pkg/readme.txt") readme two-IsWellFormed readme_found

children_iff_example :
    Memᴰ (file readme) (file readme ∷ directory (bytes "pkg/src/") ∷ [])
    ↔ IsListed two (bytes "pkg/") (file readme)
children_iff_example =
    children_iff two (bytes "pkg/") (file readme ∷ directory (bytes "pkg/src/") ∷ []) (file readme)
      two-IsWellFormed listed

children-navigation_example :
    (entry_path (directory (bytes "pkg/src/"))
      ≡ bytes "pkg/" ++ entry_label (directory (bytes "pkg/src/")))
    × LeadsBack (bytes "pkg/") (directory (bytes "pkg/src/"))
children-navigation_example =
    children-navigation two (bytes "pkg/") (file readme ∷ directory (bytes "pkg/src/") ∷ [])
      (directory (bytes "pkg/src/")) two-IsWellFormed listed (Memᴰ.tail (Memᴰ.head refl))

abbrev odd_page : Bytes
odd_page =
    bytes
      "<!doctype html><html><head><meta charset=\"utf-8\"><title>Index of /a/</title></head><body><h1>Index of /a/</h1><ul><li><a href=\"/\">../</a></li><li><a href=\"/a/b&amp;c/\">b&amp;c/</a></li></ul></body></html>\n"

render_directory_html-marks_example :
    (count b'<' odd_page ≡ 14 + 4 * links (bytes "a/") (directory (bytes "a/b&c/") ∷ []))
    × (count b'"' odd_page ≡ 2 + 2 * links (bytes "a/") (directory (bytes "a/b&c/") ∷ []))
render_directory_html-marks_example =
    render_directory_html-marks (bytes "a/") odd_page (directory (bytes "a/b&c/") ∷ []) page_test
