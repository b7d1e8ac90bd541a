-- ===== src/Publisher/Sorted.antt =====
-- The order of the layers.
use mathlib.Core.List.{Memᴰ}
use github_oras_packages.Base.{
  ◌≡◌, ◌≢◌, ◌↔◌, refl, ap, sym, inl, inr, true, false, Option, none, some, List, [], ◌∷◌, Bytes,
  arith, All, text_eq_iff, text_lt_trans, text_lt_total, Bool-cases,
}
use github_oras_packages.Publisher.Build.{
  Descriptor, layer_title, option_lt, insert_layer, sort_layers,
}
use github_oras_packages.Publisher.Invariant.{Differ, AreTitlesDistinct}

abbrev pub Before : Descriptor → Descriptor → Type 0
Before d e = option_lt (layer_title d) (layer_title e) ≡ true

-- The titles ascend strictly.
abbrev pub IsAscending : List Descriptor → Type 0
IsAscending [] = Unit
IsAscending (d ∷ layers) = All (Before d) layers × IsAscending layers

option_lt_trans :
    (a b c : Option Bytes) → option_lt a b ≡ true → option_lt b c ≡ true → option_lt a c ≡ true
option_lt_trans a b none h k = cc
option_lt_trans none b (some r) h k = refl
option_lt_trans (some p) none (some r) h k = cc
option_lt_trans (some p) (some q) (some r) h k = text_lt_trans p q r h k

option_lt_total : (a b : Option Bytes) → a ≢ b → option_lt b a ≡ false → option_lt a b ≡ true
option_lt_total none none h k = absurd (h refl)
option_lt_total none (some q) h k = refl
option_lt_total (some p) none h k = cc
option_lt_total (some p) (some q) h k =
    text_lt_total q p (ground (arith, text_eq_iff q p, λ (e : q ≡ p). h (ap some (sym e)))) k

module _ {κ} (P : Descriptor → Type κ) where
  All-insert_layer :
      (d : Descriptor) (layers : List Descriptor)
      → P d
      → All P layers
      → All P (insert_layer d layers)
  unfolding insert_layer
  All-insert_layer d [] h a = (h, tt)
  All-insert_layer d (next ∷ layers) h a =
      elim (Bool-cases (option_lt (layer_title next) (layer_title d))) [
        | inl e ↦ rw e (a.0, All-insert_layer d layers h a.1)
        | inr e ↦ rw e (h, a)
      ]

  pub All-sort_layers : (layers : List Descriptor) → All P layers → All P (sort_layers layers)
  unfolding sort_layers
  All-sort_layers [] a = tt
  All-sort_layers (d ∷ layers) a =
      All-insert_layer d (sort_layers layers) a.0 (All-sort_layers layers a.1)

insert_layer-IsAscending :
    (d : Descriptor) (layers : List Descriptor)
    → All (Differ d) layers
    → IsAscending layers
    → IsAscending (insert_layer d layers)
unfolding insert_layer
insert_layer-IsAscending d [] h a = (tt, tt)
insert_layer-IsAscending d (next ∷ layers) h a =
    elim (Bool-cases (option_lt (layer_title next) (layer_title d))) [
      | inl e ↦
          rw e (
            All-insert_layer (Before next) d layers e a.0,
            insert_layer-IsAscending d layers h.1 a.1,
          )
      | inr e ↦
          let first : Before d next = option_lt_total (layer_title d) (layer_title next) h.0 e in
          rw e ((first, behind next layers first a.0), a)
    ]
  where
    behind :
        (next : Descriptor) (layers : List Descriptor)
        → Before d next
        → All (Before next) layers
        → All (Before d) layers
    behind next [] b k = tt
    behind next (e ∷ layers) b k = (
      option_lt_trans (layer_title d) (layer_title next) (layer_title e) b k.0,
      behind next layers b k.1,
    )

-- Layers of different titles are sorted strictly.
pub sort_layers-IsAscending :
    (layers : List Descriptor) → AreTitlesDistinct layers → IsAscending (sort_layers layers)
unfolding sort_layers
sort_layers-IsAscending [] h = tt
sort_layers-IsAscending (d ∷ layers) h =
    insert_layer-IsAscending d (sort_layers layers) (All-sort_layers (Differ d) layers h.0)
      (sort_layers-IsAscending layers h.1)

mem_of_insert :
    (x d : Descriptor) (layers : List Descriptor)
    → Memᴰ x (insert_layer d layers)
    → Memᴰ x (d ∷ layers)
unfolding insert_layer
mem_of_insert x d [] m = m
mem_of_insert x d (next ∷ layers) m =
    elim (Bool-cases (option_lt (layer_title next) (layer_title d))) [
      | inl e ↦ elim (rw e at m) [
        | Memᴰ.head same ↦ Memᴰ.tail (Memᴰ.head same)
        | Memᴰ.tail k ↦ elim (mem_of_insert x d layers k) [
          | Memᴰ.head same ↦ Memᴰ.head same
          | Memᴰ.tail t ↦ Memᴰ.tail (Memᴰ.tail t)
        ]
      ]
      | inr e ↦ rw e at m
    ]

mem-insert :
    (x d : Descriptor) (layers : List Descriptor)
    → Memᴰ x (d ∷ layers)
    → Memᴰ x (insert_layer d layers)
unfolding insert_layer
mem-insert x d [] m = m
mem-insert x d (next ∷ layers) m =
    elim (Bool-cases (option_lt (layer_title next) (layer_title d))) [
      | inl e ↦ rw e (elim m [
        | Memᴰ.head same ↦ Memᴰ.tail (mem-insert x d layers (Memᴰ.head same))
        | Memᴰ.tail (Memᴰ.head same) ↦ Memᴰ.head same
        | Memᴰ.tail (Memᴰ.tail k) ↦ Memᴰ.tail (mem-insert x d layers (Memᴰ.tail k))
      ])
      | inr e ↦ rw e m
    ]

-- Sorting keeps the layers.
pub mem-sort_layers :
    (x : Descriptor) (layers : List Descriptor) → Memᴰ x (sort_layers layers) ↔ Memᴰ x layers
unfolding sort_layers
mem-sort_layers x [] = (λ m. m, λ m. m)
mem-sort_layers x (d ∷ layers) =
    let (f, g) = mem-sort_layers x layers in
    (
      λ m. elim (mem_of_insert x d (sort_layers layers) m) [
        | Memᴰ.head e ↦ Memᴰ.head e
        | Memᴰ.tail k ↦ Memᴰ.tail (f k)
      ],
      λ m.
          mem-insert x d (sort_layers layers)
            (elim m [ Memᴰ.head e ↦ Memᴰ.head e | Memᴰ.tail k ↦ Memᴰ.tail (g k) ]),
    )
