-- ===== src/Publisher/Published.antt =====
-- The layers of a publication and the objects that they show.
use mathlib.Core.List.{Memᴰ}
use github_oras_packages.Base.{
  ℕ, ◌≤◌, ◌≡◌, ◌≢◌, ◌↔◌, refl, ap, sym, subst, ◌∙◌, inl, inr, true, false, Bool, Option, none, some,
  List, [], ◌∷◌, ◌++◌, map, Bytes, bytes, ok, arith, All, All-map, length, all, is_empty, text_eq,
  text_eq_iff, text_eq_refl, text_lt, text_lt_irrefl, map_get, ok_or, ◌>>=◌, if◌then◌else◌,
}
use github_oras_packages.Autoindex.{VisibleObject}
use github_oras_packages.Autoindex.Collisions.{AreApart}
use github_oras_packages.Libraries.{Libraries, IsSha256}
use github_oras_packages.Oci.{
  AutoindexSnapshot, title, is_autoindex_visible, is_native_publisher_layer, titles_ascend,
  is_crud_manifest, publisher_annotation, publisher_version, empty_config_media_type,
  empty_config_digest, project_manifest, parse_autoindex_manifest, snapshot_object,
}
use github_oras_packages.Oci.Projected.{object_of, Shows}
use github_oras_packages.Oci.Accepted.{IsLayer, AreLayersApart, ArePathsApart}
use github_oras_packages.Publisher.{PathBuf, FileSystem}
use github_oras_packages.Publisher.Build.{Descriptor, layer_of, insert_layer, sort_layers}
use github_oras_packages.Publisher.Steps.{IsFileAt}
use github_oras_packages.Publisher.Invariant.{IsLayerOf, layer_title_lem}
use github_oras_packages.Publisher.Sorted.{IsAscending, Before, mem-sort_layers}
use github_oras_packages.Publisher.Apart.{IsPathBuf, IsTree, title-IsFilePath, titles-AreApart}
use github_oras_packages.Publisher.Outcome.{IsLayerOf-input, input_of_layer}
use github_oras_packages.Publisher.Reread.{
  reread_descriptor, layer-IsDescriptor, layer-visible, layer-title, layer-native,
}

-- A layer of some file with a lawful path.
abbrev pub IsSourced : Libraries → FileSystem → Descriptor → Type 0
IsSourced lib fs d = (relative : PathBuf) × (IsPathBuf relative × IsLayerOf lib fs relative d)

pub All-of_mem {κ} :
    (P : Descriptor → Type κ) (layers : List Descriptor)
    → ((d : Descriptor) → Memᴰ d layers → P d)
    → All P layers
All-of_mem P [] h = tt
All-of_mem P (d ∷ layers) h = (h d (Memᴰ.head refl), All-of_mem P layers (λ e m. h e (Memᴰ.tail m)))

pub path_of_mem :
    (paths : List PathBuf) (p : PathBuf) → All IsPathBuf paths → Memᴰ p paths → IsPathBuf p
path_of_mem [] p a m = absurd (elim m [ ])
path_of_mem (q ∷ paths) p a (Memᴰ.head e) = subst IsPathBuf (sym e) a.0
path_of_mem (q ∷ paths) p a (Memᴰ.tail m) = path_of_mem paths p a.1 m

module _ (lib : Libraries) (fs : FileSystem) (s : IsSha256 lib) (tree : IsTree fs) where
  sourced-IsLayer : (d : Descriptor) → IsSourced lib fs d → IsLayer (reread_descriptor d)
  sourced-IsLayer d (relative, (good, (name, (content, (f, e))))) v = rw e (
    name,
    layer-title lib name content (length content),
    title-IsFilePath fs relative name content good f,
    layer-IsDescriptor lib s name content (length content) f.bounded,
  )

  sourced_apart :
      (d e : Descriptor)
      → IsSourced lib fs d
      → IsSourced lib fs e
      → Before d e
      → AreLayersApart (reread_descriptor d) (reread_descriptor e)
  sourced_apart d e (r, (gr, (m, (cm, (fm, em))))) (q, (gq, (n, (cn, (fn, en))))) before a b va vb
        ta tb =
      let ma : m ≡ a = ground (
        arith,
        sym (layer-title lib m cm (length cm))
            ∙ ap (λ x. title (reread_descriptor x)) (sym em)
            ∙ ta,
      ) in
      let nb : n ≡ b = ground (
        arith,
        sym (layer-title lib n cn (length cn))
            ∙ ap (λ x. title (reread_descriptor x)) (sym en)
            ∙ tb,
      ) in
      let less : text_lt a b ≡ true = rw (tb) at (rw ta at before) in
      subst (λ x. AreApart x b) ma
        (subst (λ y. AreApart m y) nb
          (titles-AreApart fs r q m n cm cn tree gr gq fm fn λ same.
            let equal : a ≡ b = sym ma ∙ same ∙ nb in
            let loop : text_lt b b ≡ true = rw equal at less in let no = text_lt_irrefl b in cc))

  pub apart_all :
      (layers : List Descriptor)
      → All (IsSourced lib fs) layers
      → IsAscending layers
      → ArePathsApart (map reread_descriptor layers)
  apart_all [] a o = tt
  apart_all (d ∷ layers) a o = (one layers a.1 o.0, apart_all layers a.1 o.1)
    where
      one :
          (es : List Descriptor)
          → All (IsSourced lib fs) es
          → All (Before d) es
          → All (AreLayersApart (reread_descriptor d)) (map reread_descriptor es)
      one [] b k = tt
      one (e ∷ es) b k = (sourced_apart d e a.0 b.0 k.0, one es b.1 k.1)

  pub layers_all :
      (layers : List Descriptor)
      → All (IsSourced lib fs) layers
      → All IsLayer (map reread_descriptor layers)
        × (all is_native_publisher_layer (map reread_descriptor layers) ≡ true)
  layers_all [] a = (tt, refl)
  layers_all (d ∷ layers) a =
      let (b, c) = layers_all layers a.1 in
      let (relative, (good, (name, (content, (f, e))))) = a.0 in
      let native : is_native_publisher_layer (reread_descriptor d) ≡ true =
        rw e (layer-native lib name content (length content)) in
      ((sourced-IsLayer d a.0, b), ground (arith, native, c))

  pub ascend_all :
      (layers : List Descriptor)
      → All (IsSourced lib fs) layers
      → IsAscending layers
      → titles_ascend (map reread_descriptor layers) ≡ true
  unfolding titles_ascend
  ascend_all [] a o = refl
  ascend_all (d ∷ []) a o = refl
  ascend_all (d ∷ e ∷ layers) a o =
      let rest = ascend_all (e ∷ layers) a.1 o.1 in
      let (_, (_, (m, (cm, (fm, em))))) = a.0 in
      let (_, (_, (n, (cn, (fn, en))))) = a.1.0 in
      let td : title (reread_descriptor d) ≡ some m = rw em (layer-title lib m cm (length cm)) in
      let te : title (reread_descriptor e) ≡ some n = rw en (layer-title lib n cn (length cn)) in
      let less : text_lt m n ≡ true = rw te at (rw td at o.0.0) in
      rw (td, te) (ground (arith, less, rest))

insert_layer-not_empty :
    (d : Descriptor) (layers : List Descriptor)
    → is_empty (map reread_descriptor (insert_layer d layers)) ≡ false
unfolding insert_layer
insert_layer-not_empty d [] = refl
insert_layer-not_empty d (next ∷ layers) = ground arith

pub sort_layers-not_empty :
    (layers : List Descriptor)
    → is_empty layers ≡ false
    → is_empty (map reread_descriptor (sort_layers layers)) ≡ false
unfolding sort_layers
sort_layers-not_empty [] h = cc
sort_layers-not_empty (d ∷ layers) h = insert_layer-not_empty d (sort_layers layers)

abbrev Reread : Type 0
Reread = github_oras_packages.Oci.Descriptor

mem_of_map :
    (x : Reread) (layers : List Descriptor)
    → Memᴰ x (map reread_descriptor layers)
    → (d : Descriptor) × (Memᴰ d layers × (x ≡ reread_descriptor d))
mem_of_map x [] m = absurd (elim m [ ])
mem_of_map x (d ∷ layers) (Memᴰ.head e) = (d, (Memᴰ.head refl, e))
mem_of_map x (d ∷ layers) (Memᴰ.tail m) =
    let (y, (k, e)) = mem_of_map x layers m in (y, (Memᴰ.tail k, e))

mem-map :
    (d : Descriptor) (layers : List Descriptor)
    → Memᴰ d layers
    → Memᴰ (reread_descriptor d) (map reread_descriptor layers)
mem-map d [] m = absurd (elim m [ ])
mem-map d (e ∷ layers) (Memᴰ.head s) = Memᴰ.head (ap reread_descriptor s)
mem-map d (e ∷ layers) (Memᴰ.tail m) = Memᴰ.tail (mem-map d layers m)

-- The object of a published file.
abbrev pub published_object : Libraries → Bytes → Bytes → VisibleObject
published_object lib path content =
    object_of path (reread_descriptor (layer_of lib path content (length content)))

-- A published file: one of the inputs, with its title and its bytes, and the object for it.
abbrev pub IsPublishedAt : Libraries → FileSystem → List PathBuf → Bytes → VisibleObject → Type 0
IsPublishedAt lib fs paths path o =
    (relative : PathBuf) × ((content : Bytes) × (Memᴰ relative paths
        × (IsFileAt fs relative path content × (o ≡ published_object lib path content))))

same_file :
    (fs : FileSystem) (relative : PathBuf) (a b ca cb : Bytes)
    → IsFileAt fs relative a ca
    → IsFileAt fs relative b cb
    → (a ≡ b) × (ca ≡ cb)
same_file fs relative a b ca cb fa fb =
    let parts : fa.parts ≡ fb.parts = ground (arith, sym fa.spelled ∙ fb.spelled) in
    (
      fa.title ∙ ap (github_oras_packages.Base.join b'/') parts ∙ sym fb.title,
      ground (arith, sym fa.read ∙ ap fs.read parts ∙ fb.read),
    )

module _ (lib : Libraries) (fs : FileSystem) (paths : List PathBuf) (layers : List Descriptor)
    (made_of : github_oras_packages.Publisher.Invariant.AreLayersOf lib fs paths layers) where
  pub published_of_shown :
      (path : Bytes) (o : VisibleObject) (x : Reread)
      → Memᴰ x (map reread_descriptor (sort_layers layers))
      → Shows x path o
      → IsPublishedAt lib fs paths path o
  published_of_shown path o x m shows =
      let (d, (k, same)) = mem_of_map x (sort_layers layers) m in
      let (relative, (inside, (name, (content, (f, e))))) =
        input_of_layer lib fs paths layers d made_of ((mem-sort_layers d layers).0 k) in
      let whole : x ≡ reread_descriptor (layer_of lib name content (length content)) =
        same ∙ ap reread_descriptor e in
      let named : name ≡ path = ground (
        arith,
        sym (layer-title lib name content (length content)) ∙ ap title (sym whole) ∙ shows.titled,
      ) in
      subst (λ p. IsPublishedAt lib fs paths p o) named
        (
          relative,
          (
            content,
            (
              inside,
              (
                f,
                shows.object
                    ∙ ap (λ y. object_of path y) whole
                    ∙ ap
                        (λ p.
                          object_of p
                            (reread_descriptor (layer_of lib name content (length content))))
                        (sym named),
              ),
            ),
          ),
        )

  pub shown_of_published :
      IsSha256 lib
      → IsTree fs
      → All IsPathBuf paths
      → (path : Bytes) (o : VisibleObject) → IsPublishedAt lib fs paths path o
      → (x : Reread) × (Memᴰ x (map reread_descriptor (sort_layers layers)) × Shows x path o)
  shown_of_published s tree good path o (relative, (content, (inside, (f, e)))) =
      let (d, (k, (name, (read, (g, de))))) =
        IsLayerOf-input lib fs paths layers relative made_of inside in
      let (a, b) = same_file fs relative name path read content g f in
      let whole : d ≡ layer_of lib path content (length content) =
        de
        ∙ ap (λ n. layer_of lib n read (length read)) a
        ∙ ap (λ c. layer_of lib path c (length c)) b in
      (
        reread_descriptor d,
        (
          mem-map d (sort_layers layers) ((mem-sort_layers d layers).1 k),
          subst (λ y. Shows (reread_descriptor y) path o) (sym whole)
              (record {
                visible = layer-visible lib path content (length content);
                titled = layer-title lib path content (length content);
                object = e;
                filed =
                    title-IsFilePath fs relative path content
                      (path_of_mem paths relative good inside) f;
                valid = layer-IsDescriptor lib s path content (length content) f.bounded;
              }),
        ),
      )
