-- ===== src/Repository/Grammar.antt =====
-- A repository segment is described by a grammar: words of lowercase letters and digits, joined by
-- single separators.
use github_oras_packages.Base.{
  ℕ, ◌≡◌, refl, ◌↔◌, true, false, [], ◌∷◌, Bytes, arith, inl, inr, Bool-cases,
}
use github_oras_packages.Repository.{is_word, is_separator, remainder_ok, is_repository_segment}

-- `[a-z0-9]+([._-][a-z0-9]+)*`
pub data IsSegment : Bytes → Type 0 where
  last : (c : ℕ) → is_word c ≡ true → IsSegment (c ∷ [])
  word : (c : ℕ) {s : Bytes} → is_word c ≡ true → IsSegment s → IsSegment (c ∷ s)
  separated :
      (c d : ℕ) {s : Bytes}
      → is_word c ≡ true
      → is_separator d ≡ true
      → IsSegment s
      → IsSegment (c ∷ d ∷ s)

remainder_ok-previous : (s : Bytes) → remainder_ok true s ≡ true → remainder_ok false s ≡ true
unfolding remainder_ok
remainder_ok-previous [] h = refl
remainder_ok-previous (c ∷ s) h = ground arith

mutual
  unfolding remainder_ok

  IsSegment-of_word :
      (s : Bytes) (c : ℕ) → is_word c ≡ true → remainder_ok false s ≡ true → IsSegment (c ∷ s)
  IsSegment-of_word [] c w h = last c w
  IsSegment-of_word (d ∷ s) c w h = elim (Bool-cases (is_word d)) [
    | inl e ↦ word c w (IsSegment-of_word s d e (ground arith))
    | inr e ↦ IsSegment-of_separator s c d w (ground arith) (ground arith)
  ]

  IsSegment-of_separator :
      (s : Bytes) (c d : ℕ)
      → is_word c ≡ true
      → is_separator d ≡ true
      → remainder_ok true s ≡ true
      → IsSegment (c ∷ d ∷ s)
  IsSegment-of_separator [] c d w v h = cc
  IsSegment-of_separator (e ∷ s) c d w v h =
      separated c d w v (IsSegment-of_word s e (ground arith) (ground arith))

remainder_ok_of_IsSegment : {s : Bytes} → IsSegment s → remainder_ok true s ≡ true
unfolding remainder_ok
remainder_ok_of_IsSegment (last c w) = ground arith
remainder_ok_of_IsSegment (word c {s = s} w g) =
    ground (arith, remainder_ok-previous s, remainder_ok_of_IsSegment g)
remainder_ok_of_IsSegment (separated c d w v g) = ground (arith, remainder_ok_of_IsSegment g)

segment_of_IsSegment : {s : Bytes} → IsSegment s → is_repository_segment s ≡ true
unfolding is_repository_segment
segment_of_IsSegment (last c w) = ground arith
segment_of_IsSegment (word c {s = s} w g) =
    ground (arith, remainder_ok-previous s, remainder_ok_of_IsSegment g)
segment_of_IsSegment (separated c d w v g) = ground (arith, remainder_ok_of_IsSegment g)

IsSegment-sound : (s : Bytes) → is_repository_segment s ≡ true → IsSegment s
unfolding is_repository_segment
IsSegment-sound [] h = cc
IsSegment-sound (c ∷ s) h = IsSegment-of_word s c (ground arith) (ground arith)

-- The loop of `is_repository_segment` accepts exactly the segments of the grammar.
pub is_repository_segment_iff : (s : Bytes) → (is_repository_segment s ≡ true) ↔ IsSegment s
is_repository_segment_iff s = (IsSegment-sound s, segment_of_IsSegment)
