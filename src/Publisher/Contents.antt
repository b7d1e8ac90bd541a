-- ===== src/Publisher/Contents.antt =====
-- The blobs and the paths of a publication, in their order.
use mathlib.Core.List.{Memᴰ}
use github_oras_packages.Base.{
  ℕ, suc, ◌+◌, ◌≡◌, refl, ap, sym, subst, ◌∙◌, inl, inr, true, some, List, [], ◌∷◌, ◌++◌, map,
  Bytes, arith, All, length, map_get, text_eq, text_eq_iff, text_lt, Bool-cases,
}
use github_oras_packages.Libraries.{Libraries, digest_bytes}
use github_oras_packages.Publisher.Build.{
  PublicationBlob, Descriptor, layer_title, option_lt, insert_layer, sort_layers, push_title,
  layer_paths, insert_blob, sort_blobs,
}
use github_oras_packages.Publisher.Invariant.{Blobs, content_bytes, IsHashed}
use github_oras_packages.Publisher.Sorted.{IsAscending}

module _ {κ} (P : PublicationBlob → Type κ) where
  All-insert_blob :
      (b : PublicationBlob) (blobs : List PublicationBlob)
      → P b
      → All P blobs
      → All P (insert_blob b blobs)
  unfolding insert_blob
  All-insert_blob b [] h a = (h, tt)
  All-insert_blob b (next ∷ blobs) h a = elim (Bool-cases (text_lt next.digest b.digest)) [
    | inl e ↦ rw e (a.0, All-insert_blob b blobs h a.1)
    | inr e ↦ rw e (h, a)
  ]

  pub All-sort_blobs : (blobs : List PublicationBlob) → All P blobs → All P (sort_blobs blobs)
  unfolding sort_blobs
  All-sort_blobs [] a = tt
  All-sort_blobs (b ∷ blobs) a = All-insert_blob b (sort_blobs blobs) a.0 (All-sort_blobs blobs a.1)

-- The bytes of a list of blobs.
abbrev pub blob_bytes : List PublicationBlob → ℕ
blob_bytes [] = 0
blob_bytes (b ∷ blobs) = length b.content + blob_bytes blobs

blob_bytes-insert :
    (b : PublicationBlob) (blobs : List PublicationBlob)
    → blob_bytes (insert_blob b blobs) ≡ length b.content + blob_bytes blobs
unfolding insert_blob
blob_bytes-insert b [] = refl
blob_bytes-insert b (next ∷ blobs) = elim (Bool-cases (text_lt next.digest b.digest)) [
  | inl e ↦ rw e (omega (arith, blob_bytes-insert b blobs))
  | inr e ↦ rw e refl
]

pub blob_bytes-sort :
    (blobs : List PublicationBlob) → blob_bytes (sort_blobs blobs) ≡ blob_bytes blobs
unfolding sort_blobs
blob_bytes-sort [] = refl
blob_bytes-sort (b ∷ blobs) =
    omega (arith, blob_bytes-insert b (sort_blobs blobs), blob_bytes-sort blobs)

pub blob_bytes-all :
    (blobs : Blobs) (b : PublicationBlob)
    → blob_bytes (map (λ e. e.1) blobs ++ b ∷ []) ≡ content_bytes blobs + length b.content
blob_bytes-all [] b = omega arith
blob_bytes-all (e ∷ blobs) b = omega (arith, blob_bytes-all blobs b)

abbrev pub IsAddressed : Libraries → PublicationBlob → Type 0
IsAddressed lib b = b.digest ≡ digest_bytes lib b.content

pub IsAddressed-all :
    (lib : Libraries) (blobs : Blobs)
    → All (IsHashed lib) blobs
    → All (IsAddressed lib) (map (λ e. e.1) blobs)
IsAddressed-all lib [] a = tt
IsAddressed-all lib (e ∷ blobs) a = (a.0.0 ∙ a.0.1, IsAddressed-all lib blobs a.1)

-- Texts in strictly ascending order.
abbrev pub IsAscendingTexts : List Bytes → Type 0
IsAscendingTexts [] = Unit
IsAscendingTexts (s ∷ texts) = All (λ t. text_lt s t ≡ true) texts × IsAscendingTexts texts

-- The titles of layers that all have one.
abbrev pub IsTitled : Descriptor → Type 0
IsTitled d = (name : Bytes) × (layer_title d ≡ some name)

layer_paths_lem :
    (d : Descriptor) (layers : List Descriptor) (name : Bytes)
    → layer_title d ≡ some name
    → layer_paths (d ∷ layers) ≡ name ∷ layer_paths layers
unfolding layer_paths
layer_paths_lem d layers name e = ap (λ o. push_title o (layer_paths layers)) e

names_above :
    (name : Bytes) (layers : List Descriptor)
    → All IsTitled layers
    → All (λ d. option_lt (some name) (layer_title d) ≡ true) layers
    → All (λ t. text_lt name t ≡ true) (layer_paths layers)
names_above name [] t a = unfold layer_paths in tt
names_above name (d ∷ layers) ((n, e), t) a =
    subst (All (λ t. text_lt name t ≡ true)) (sym (layer_paths_lem d layers n e))
      (rw e at a.0, names_above name layers t a.1)

pub paths_ascend :
    (layers : List Descriptor)
    → All IsTitled layers
    → IsAscending layers
    → IsAscendingTexts (layer_paths layers) × (length (layer_paths layers) ≡ length layers)
paths_ascend [] t a = unfold layer_paths in (tt, refl)
paths_ascend (d ∷ layers) ((name, e), t) a =
    let (b, c) = paths_ascend layers t a.1 in
    let above =
      names_above name layers t
        (subst (λ o. All (λ x. option_lt o (layer_title x) ≡ true) layers) e a.0) in
    subst (λ ps. IsAscendingTexts ps × (length ps ≡ length (d ∷ layers)))
      (sym (layer_paths_lem d layers name e)) ((above, b), ap suc c)

length-insert_layer :
    (d : Descriptor) (layers : List Descriptor)
    → length (insert_layer d layers) ≡ suc (length layers)
unfolding insert_layer
length-insert_layer d [] = refl
length-insert_layer d (next ∷ layers) =
    elim (Bool-cases (option_lt (layer_title next) (layer_title d))) [
      | inl e ↦ rw e (ap suc (length-insert_layer d layers))
      | inr e ↦ rw e refl
    ]

pub length-sort_layers : (layers : List Descriptor) → length (sort_layers layers) ≡ length layers
unfolding sort_layers
length-sort_layers [] = refl
length-sort_layers (d ∷ layers) =
    length-insert_layer d (sort_layers layers) ∙ ap suc (length-sort_layers layers)

mem_head-insert_blob :
    (b : PublicationBlob) (blobs : List PublicationBlob) → Memᴰ b (insert_blob b blobs)
unfolding insert_blob
mem_head-insert_blob b [] = Memᴰ.head refl
mem_head-insert_blob b (next ∷ blobs) = elim (Bool-cases (text_lt next.digest b.digest)) [
  | inl e ↦ rw e (Memᴰ.tail (mem_head-insert_blob b blobs))
  | inr e ↦ rw e (Memᴰ.head refl)
]

mem_tail-insert_blob :
    (x b : PublicationBlob) (blobs : List PublicationBlob)
    → Memᴰ x blobs
    → Memᴰ x (insert_blob b blobs)
unfolding insert_blob
mem_tail-insert_blob x b [] m = absurd (elim m [ ])
mem_tail-insert_blob x b (next ∷ blobs) m = elim (Bool-cases (text_lt next.digest b.digest)) [
  | inl e ↦ rw e (elim m [
    | Memᴰ.head same ↦ Memᴰ.head same
    | Memᴰ.tail k ↦ Memᴰ.tail (mem_tail-insert_blob x b blobs k)
  ])
  | inr e ↦ rw e (Memᴰ.tail m)
]

pub mem-sort_blobs :
    (x : PublicationBlob) (blobs : List PublicationBlob) → Memᴰ x blobs → Memᴰ x (sort_blobs blobs)
unfolding sort_blobs
mem-sort_blobs x [] m = m
mem-sort_blobs x (b ∷ blobs) (Memᴰ.head e) =
    subst (λ y. Memᴰ y (insert_blob b (sort_blobs blobs))) (sym e)
      (mem_head-insert_blob b (sort_blobs blobs))
mem-sort_blobs x (b ∷ blobs) (Memᴰ.tail m) =
    mem_tail-insert_blob x b (sort_blobs blobs) (mem-sort_blobs x blobs m)

-- The blob that is found under a digest is among all blobs, and has that digest.
pub mem_of_map_get :
    (lib : Libraries) (k : Bytes) (b last : PublicationBlob) (blobs : Blobs)
    → All (IsHashed lib) blobs
    → map_get k blobs ≡ some b
    → Memᴰ b (map (λ e. e.1) blobs ++ last ∷ []) × (b.digest ≡ k)
unfolding map_get
mem_of_map_get lib k b last [] a h = cc
mem_of_map_get lib k b last ((j, w) ∷ blobs) a h = elim (Bool-cases (text_eq j k)) [
  | inl e ↦
      let same : w ≡ b = ground (arith, rw e at h) in
      (
        Memᴰ.head (sym same),
        ap (λ (x : PublicationBlob). x.digest) (sym same) ∙ a.0.0 ∙ (text_eq_iff j k).0 e,
      )
  | inr e ↦ let (m, d) = mem_of_map_get lib k b last blobs a.1 (rw e at h) in (Memᴰ.tail m, d)
]
