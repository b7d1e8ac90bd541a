-- ===== src/Base/Split.antt =====
-- Splitting text at a separator byte, joining the pieces, and the laws between the two.
use Prim.Native.Nat.{ℕ}
use mathlib.Core.Path.{◌≡◌, refl, ap, ◌∙◌}
use mathlib.Core.Logic.{◌≢◌, inl, inr}
use mathlib.Core.Bool.{Bool, true, false}
use mathlib.Core.Option.{Option, none, some}
use mathlib.Core.List.{List, [], ◌∷◌, ◌++◌}
use native.Mathlib.Omega.{arith}
use github_oras_packages.Base.Tests.{◌==◌, if◌then◌else◌, Bool-cases, Option-cases}
use github_oras_packages.Base.Lists.{All, all}
use github_oras_packages.Base.Text.{Bytes, contains_byte}

abbrev cons_head : ℕ → List Bytes → List Bytes
cons_head c [] = (c ∷ []) ∷ []
cons_head c (s ∷ ss) = (c ∷ s) ∷ ss

-- `split(d)`: always at least one piece
unfoldable pub split : ℕ → Bytes → List Bytes
split d [] = [] ∷ []
split d (c ∷ s) = let rest = split d s in if c == d then [] ∷ rest else cons_head c rest

-- `split_once(d)`
unfoldable pub split_once : ℕ → Bytes → Option (Bytes × Bytes)
split_once d [] = none
split_once d (c ∷ s) =
    let rest = split_once d s in
    if c == d then some ([], s) else elim rest [ none ↦ none | some (a, b) ↦ some (c ∷ a, b) ]

-- `join`
unfoldable pub join : ℕ → List Bytes → Bytes
join d [] = []
join d (s ∷ []) = s
join d (s ∷ t ∷ ss) = s ++ d ∷ join d (t ∷ ss)

abbrev pub Lacks : ℕ → Bytes → Type 0
Lacks d s = contains_byte d s ≡ false

cons_head-ne-nil : (c : ℕ) (ss : List Bytes) → cons_head c ss ≢ []
cons_head-ne-nil c [] h = cc
cons_head-ne-nil c (s ∷ ss) h = cc

pub split-ne-nil : (d : ℕ) (s : Bytes) → split d s ≢ []
unfolding split
split-ne-nil d [] h = cc
split-ne-nil d (c ∷ s) h = ground (arith, cons_head-ne-nil c (split d s))

join-cons_head : (d c : ℕ) (ss : List Bytes) → ss ≢ [] → join d (cons_head c ss) ≡ c ∷ join d ss
unfolding join
join-cons_head d c [] h = absurd (h refl)
join-cons_head d c (s ∷ []) h = refl
join-cons_head d c (s ∷ t ∷ ss) h = refl

join-nil_cons : (d : ℕ) (ss : List Bytes) → ss ≢ [] → join d ([] ∷ ss) ≡ d ∷ join d ss
unfolding join
join-nil_cons d [] h = absurd (h refl)
join-nil_cons d (s ∷ ss) h = refl

-- Joining the pieces gives back the text.
pub join-split : (d : ℕ) (s : Bytes) → join d (split d s) ≡ s
unfolding split
join-split d [] = unfold join in refl
join-split d (c ∷ s) = ground (
  arith,
  join-split d s,
  split-ne-nil d s,
  join-nil_cons d (split d s),
  join-cons_head d c (split d s),
)

All-Lacks-cons_head :
    (d c : ℕ) (ss : List Bytes)
    → (c == d) ≡ false
    → All (Lacks d) ss
    → All (Lacks d) (cons_head c ss)
All-Lacks-cons_head d c [] e h = (ground arith, tt)
All-Lacks-cons_head d c (s ∷ ss) e h = (ground arith, h.1)

-- No piece holds the separator.
pub split-Lacks : (d : ℕ) (s : Bytes) → All (Lacks d) (split d s)
unfolding split
split-Lacks d [] = (refl, tt)
split-Lacks d (c ∷ s) = elim (Bool-cases (c == d)) [
  | inl e ↦ rw e (refl, split-Lacks d s)
  | inr e ↦ rw e (All-Lacks-cons_head d c (split d s) e (split-Lacks d s))
]

pub split_of_Lacks : (d : ℕ) (s : Bytes) → Lacks d s → split d s ≡ s ∷ []
unfolding split
split_of_Lacks d [] h = refl
split_of_Lacks d (c ∷ s) h = ground (arith, split_of_Lacks d s)

-- The first piece ends at the first separator.
pub split-append : (d : ℕ) (s t : Bytes) → Lacks d s → split d (s ++ d ∷ t) ≡ s ∷ split d t
unfolding split
split-append d [] t h = ground arith
split-append d (c ∷ s) t h = ground (arith, split-append d s t)

cons_head-append :
    (c : ℕ) (ss ts : List Bytes) → ss ≢ [] → cons_head c ss ++ ts ≡ cons_head c (ss ++ ts)
cons_head-append c [] ts h = absurd (h refl)
cons_head-append c (s ∷ ss) ts h = refl

-- The pieces of two texts with a separator between them.
pub split-append_any : (d : ℕ) (s t : Bytes) → split d (s ++ d ∷ t) ≡ split d s ++ split d t
unfolding split
split-append_any d [] t = ground arith
split-append_any d (c ∷ s) t =
    ground
      (arith, split-append_any d s t, cons_head-append c (split d s) (split d t), split-ne-nil d s)

-- Pieces that hold no separator are split as they were joined.
pub split-join :
    (d : ℕ) (s : Bytes) (ss : List Bytes)
    → All (Lacks d) (s ∷ ss)
    → split d (join d (s ∷ ss)) ≡ s ∷ ss
unfolding join
split-join d s [] h = split_of_Lacks d s h.0
split-join d s (t ∷ ss) h =
    split-append d s (join d (t ∷ ss)) h.0 ∙ ap (λ r. s ∷ r) (split-join d t ss h.1)

pub split_once-append : (d : ℕ) (s t : Bytes) → Lacks d s → split_once d (s ++ d ∷ t) ≡ some (s, t)
unfolding split_once
split_once-append d [] t h = ground arith
split_once-append d (c ∷ s) t h = ground (arith, split_once-append d s t)

-- What `split_once` finds: the text, cut at its first separator.
pub split_once_sound :
    (d : ℕ) (s : Bytes) {a b : Bytes} → split_once d s ≡ some (a, b) → (s ≡ a ++ d ∷ b) × Lacks d a
unfolding split_once
split_once_sound d [] h = cc
split_once_sound d (c ∷ s) {a} {b} h = elim (Bool-cases (c == d)) [
  | inl e ↦ ground arith
  | inr e ↦ elim (Option-cases (split_once d s)) [
    | inl e' ↦ ground arith
    | inr (r, e') ↦ let ih = split_once_sound d s {a = r.0} {b = r.1} e' in ground arith
  ]
]

pub split_once-none : (d : ℕ) (s : Bytes) → split_once d s ≡ none → Lacks d s
unfolding split_once
split_once-none d [] h = refl
split_once-none d (c ∷ s) h = ground (arith, split_once-none d s)

all-cons_head :
    (p : ℕ → Bool) (d c : ℕ) (ss : List Bytes)
    → All (λ t. all p t ≡ true) (cons_head c ss)
    → (p c ≡ true) × All (λ t. all p t ≡ true) ss
all-cons_head p d c [] h = (ground arith, tt)
all-cons_head p d c (s ∷ ss) h = (ground arith, (ground arith, h.1))

-- What holds of the separator and of each byte of the pieces holds of each byte of the text.
pub all_of_split :
    (p : ℕ → Bool) (d : ℕ) (s : Bytes)
    → p d ≡ true
    → All (λ t. all p t ≡ true) (split d s)
    → all p s ≡ true
unfolding split
all_of_split p d [] h a = refl
all_of_split p d (c ∷ s) h a = elim (Bool-cases (c == d)) [
  | inl e ↦ ground (arith, all_of_split p d s h)
  | inr e ↦
      let (pc, rest) = all-cons_head p d c (split d s) (rw e at a) in
      ground (arith, all_of_split p d s h rest)
]
