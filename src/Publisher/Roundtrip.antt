-- ===== src/Publisher/Roundtrip.antt =====
-- What is published is served: the manifest of a publication projects to its files.
use github_oras_packages.Base.{
  ◌≡◌, ◌↔◌, ◌∙◌, true, false, Option, some, List, map, Bytes, ok, arith, All, is_empty, text_eq_iff,
  text_eq_refl, map_get, ◌>>=◌,
}
use github_oras_packages.Autoindex.{VisibleObject}
use github_oras_packages.Libraries.{Libraries, IsSha256, digest_bytes}
use github_oras_packages.Oci.{
  AutoindexSnapshot, title, is_autoindex_visible, is_native_publisher_layer, titles_ascend,
  is_crud_manifest, publisher_annotation, publisher_version, empty_config_media_type,
  empty_config_digest, project_manifest, parse_autoindex_manifest, snapshot_object,
}
use github_oras_packages.Oci.Projected.{project_manifest-shows}
use github_oras_packages.Oci.Accepted.{project_manifest_complete}
use github_oras_packages.Publisher.{PathBuf, FileSystem}
use github_oras_packages.Publisher.Build.{
  Descriptor, Manifest, Publication, sort_layers, manifest_of, from_files, empty_config,
}
use github_oras_packages.Publisher.Sorted.{IsAscending, All-sort_layers}
use github_oras_packages.Publisher.Apart.{IsPathBuf, IsTree}
use github_oras_packages.Publisher.Outcome.{
  Built, from_files_sound, sorted-IsAscending, input_of_layer,
}
use github_oras_packages.Publisher.Reread.{
  reread, reread_descriptor, IsJson, manifest-standard, config_digest_lem,
}
use github_oras_packages.Publisher.Published.{
  All-of_mem, IsPublishedAt, IsSourced, apart_all, ascend_all, layers_all, path_of_mem,
  published_of_shown, shown_of_published, sort_layers-not_empty,
}

-- What the autoindex serves of a publication: exactly the published files, each with a blob of the
-- publication for its digest.
pub record IsServed (lib : Libraries) (fs : FileSystem) (paths : List PathBuf)
    (publication : Publication) (snapshot : AutoindexSnapshot) : Type 0 where
  pub crud : snapshot.crud_compatible ≡ true
  pub served :
      (path : Bytes) (o : VisibleObject)
      → (snapshot_object snapshot path ≡ some o) ↔ IsPublishedAt lib fs paths path o

module _ (lib : Libraries) (s : IsSha256 lib) (fs : FileSystem) (tree : IsTree fs)
    (paths : List PathBuf) (good : All IsPathBuf paths) where
  crud_lem :
      (layers : List Descriptor)
      → is_empty (map reread_descriptor layers) ≡ false
      → All (IsSourced lib fs) layers
      → IsAscending layers
      → is_crud_manifest (reread (manifest_of lib layers)) ≡ true
  unfolding is_crud_manifest manifest_of map_get
  crud_lem layers some_layer sourced ascending = ground (
    arith,
    text_eq_refl publisher_annotation,
    text_eq_refl publisher_version,
    text_eq_refl empty_config_media_type,
    (text_eq_iff (digest_bytes lib empty_config) empty_config_digest).1 (config_digest_lem lib s),
    some_layer,
    (layers_all lib fs s tree layers sourced).1,
    ascend_all lib fs s tree layers sourced ascending,
  )

  served_lem :
      (to_vec : Manifest → Option Bytes) (publication : Publication)
      → Built lib to_vec fs paths publication
      → (snapshot : AutoindexSnapshot) × ((layers : List Descriptor) × ((to_vec
                (manifest_of lib layers)
              ≡ some publication.manifest)
            × ((project_manifest (reread (manifest_of lib layers)) ≡ ok snapshot)
                × IsServed lib fs paths publication snapshot)))
  unfolding manifest_of
  served_lem to_vec publication built =
      let layers = sort_layers built.loop.layers in
      let sourced : All (IsSourced lib fs) layers =
        All-sort_layers (IsSourced lib fs) built.loop.layers (
          All-of_mem (IsSourced lib fs) built.loop.layers λ d m.
            let (r, (inside, l)) =
              input_of_layer lib fs paths built.loop.layers d built.layers_of m in
            (r, (path_of_mem paths r good inside, l))) in
      let ascending = sorted-IsAscending lib to_vec fs paths publication built in
      let (snapshot, e, c) =
        project_manifest_complete (reread (manifest_of lib layers)) (manifest-standard lib s layers)
          (layers_all lib fs s tree layers sourced).0
          (apart_all lib fs s tree layers sourced ascending) in
      (
        snapshot,
        (
          layers,
          (
            built.written,
            (
              e,
              record {
                crud =
                    c
                    ∙ crud_lem layers (sort_layers-not_empty built.loop.layers built.some_layer)
                        sourced ascending;
                served = λ path o.
                    let (_, (f, g)) =
                      project_manifest-shows (reread (manifest_of lib layers)) snapshot path o e in
                    (
                      λ h.
                          let (x, m, shows) = f h in
                          published_of_shown lib fs paths built.loop.layers built.layers_of path o x
                            m shows,
                      λ p.
                          let (x, (m, shows)) =
                            shown_of_published lib fs paths built.loop.layers built.layers_of s tree
                              good path o p in
                          g (x, m, shows),
                    );
              },
            ),
          ),
        ),
      )

-- If SHA-256 digests are as documented, JSON reads back as written, nothing lies below a file and
-- path components are names, then `parse_autoindex_manifest` accepts the manifest of every publication
-- as one that may be edited, and its snapshot holds an object at a path exactly if one of the
-- published files has that title, with the digest, the media type and the size of its bytes.
pub from_files-IsServed :
    (lib : Libraries) (to_vec : Manifest → Option Bytes)
    (read : Bytes → Option github_oras_packages.Oci.Manifest) (fs : FileSystem)
    (paths : List PathBuf) (publication : Publication)
    → IsSha256 lib
    → IsJson to_vec read
    → IsTree fs
    → All IsPathBuf paths
    → from_files lib to_vec fs paths ≡ ok publication
    → (snapshot : AutoindexSnapshot) × ((parse_autoindex_manifest read publication.manifest
          ≡ ok snapshot)
        × IsServed lib fs paths publication snapshot)
unfolding parse_autoindex_manifest ◌>>=◌
from_files-IsServed lib to_vec read fs paths publication s json tree good h =
    let built = from_files_sound lib to_vec fs paths publication h in
    let (snapshot, (layers, (w, (e, served)))) =
      served_lem lib s fs tree paths good to_vec publication built in
    (snapshot, (rw (json (manifest_of lib layers) publication.manifest w) e, served))
